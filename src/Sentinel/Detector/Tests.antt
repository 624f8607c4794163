-- ===== src/Sentinel/Detector/Tests.antt =====
-- A detector whose library sees one cat in a frame.
use cat_sentinel.Prelude.{
  ℕ, ◌≡◌, true, [], ◌∷◌, Option, none, some, arith, All, if◌then◌else◌, Bool-cases, inl, inr, subst,
}
use cat_sentinel.Prelude.Int.{pos}
use cat_sentinel.Prelude.Floats.{scaled}
use cat_sentinel.Sentinel.Detector.{Box, Results, YoloCatDetector, detect_all}
use cat_sentinel.Sentinel.Detector.Confident.{
  boxes_of, Filters, IsConfidentAnswer, detect_all-confident,
}

abbrev box : Box scaled
unfolding scaled
box = record {
  xyxy = record { left = pos 0; top = pos 0; right = pos 10; bottom = pos 10 };
  conf = pos 9;
}

-- A frame is the confidence asked of it that the library still grants.
abbrev predict : (conf : scaled.Float) → ℕ → ℕ → Option (Results scaled)
unfolding scaled
predict conf m frame =
    if scaled.le conf (pos 9) then some (none ∷ some (box ∷ []) ∷ []) else some []

predict_filters : Filters scaled (some 1) predict
unfolding boxes_of scaled
predict_filters conf m frame rs h = elim (Bool-cases (scaled.le conf (pos 9))) [
  | inl le ↦
      subst (λ r. All (λ b. scaled.le conf b.conf ≡ true) (boxes_of scaled r))
        {x = none ∷ some (box ∷ []) ∷ []} {y = rs} (ground (arith, le, h)) (le, tt)
  | inr gt ↦
      subst (λ r. All (λ b. scaled.le conf b.conf ≡ true) (boxes_of scaled r)) {x = []} {y = rs}
        (ground (arith, gt, h)) tt
]

abbrev fresh : YoloCatDetector scaled ℕ
unfolding scaled
fresh = record { confidence_threshold = pos 5; model = none }

detect_all-confident_example :
    All
      (IsConfidentAnswer scaled (some 1) predict fresh.confidence_threshold)
      (detect_all scaled (some 1) predict (7 ∷ 8 ∷ []) fresh).0
detect_all-confident_example =
    detect_all-confident scaled (some 1) predict (7 ∷ 8 ∷ []) fresh predict_filters
