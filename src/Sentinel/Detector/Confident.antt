-- ===== src/Sentinel/Detector/Confident.antt =====
-- What a call of the detector gives.
use mathlib.Core.List.{append_assoc, append-nil, map-append}
use cat_sentinel.Prelude.{
  ◌≡◌, ◌≢◌, refl, sym, ap, ◌∙◌, subst, true, List, [], ◌∷◌, ◌++◌, map, Option, none, some, arith,
  All, inl, inr, Option-cases,
}
use cat_sentinel.Prelude.Floats.{Floats}
use cat_sentinel.Sentinel.Detector.{
  RawDetection, Box, Results, append_boxes, append_results, YoloCatDetector, get_model, detect,
  detect_all,
}

module _ (F : Floats) where
  abbrev pub raw_detection : Box F → RawDetection F
  raw_detection box = record { bbox = box.xyxy; confidence = box.conf }

  -- The boxes of all results that have some, in order.
  unfoldable pub boxes_of : Results F → List (Box F)
  boxes_of [] = []
  boxes_of (none ∷ results) = boxes_of results
  boxes_of (some boxes ∷ results) = boxes ++ boxes_of results

  append_boxes-map :
      (ds : List (RawDetection F)) (bs : List (Box F))
      → append_boxes F ds bs ≡ ds ++ map raw_detection bs
  append_boxes-map ds [] = sym (append-nil ds)
  append_boxes-map ds (b ∷ bs) =
      append_boxes-map (ds ++ raw_detection b ∷ []) bs
      ∙ append_assoc ds (raw_detection b ∷ []) (map raw_detection bs)

  pub append_results-map :
      (ds : List (RawDetection F)) (rs : Results F)
      → append_results F ds rs ≡ ds ++ map raw_detection (boxes_of rs)
  unfolding append_results boxes_of
  append_results-map ds [] = sym (append-nil ds)
  append_results-map ds (none ∷ rs) = append_results-map ds rs
  append_results-map ds (some bs ∷ rs) =
      append_results-map (append_boxes F ds bs) rs
      ∙ ap (λ x. x ++ map raw_detection (boxes_of rs)) (append_boxes-map ds bs)
      ∙ append_assoc ds (map raw_detection bs) (map raw_detection (boxes_of rs))
      ∙ ap (λ x. ds ++ x) (sym (map-append raw_detection bs (boxes_of rs)))

  map-All :
      (P : RawDetection F → Type 0) (bs : List (Box F))
      → All (λ b. P (raw_detection b)) bs
      → All P (map raw_detection bs)
  map-All P [] a = tt
  map-All P (b ∷ bs) (p, ps) = (p, map-All P bs ps)

  -- A detection that has at least the threshold's confidence.
  abbrev pub IsConfident : F.Float → RawDetection F → Type 0
  IsConfident threshold d = F.le threshold d.confidence ≡ true

  module _ {Model Image : Type 0} (load : Option Model)
      (predict : (conf : F.Float) → Model → Image → Option (Results F)) where
    -- What the library says of its argument `conf`.
    abbrev pub Filters : Type 0
    Filters =
        (conf : F.Float) (m : Model) (frame : Image) (rs : Results F)
        → predict conf m frame ≡ some rs
        → All (λ b. F.le conf b.conf ≡ true) (boxes_of rs)

    -- The model is there or is loaded, and the threshold is as it was.
    get_model-threshold :
        (d : YoloCatDetector F Model)
        → (get_model F load predict d).1.confidence_threshold ≡ d.confidence_threshold
    unfolding get_model
    get_model-threshold d = elim (Option-cases d.model) [
      | inl e ↦ elim (Option-cases load) [
        | inl l ↦ ground (arith, e, l)
        | inr (m, l) ↦ ground (arith, e, l)
      ]
      | inr (m, e) ↦ ground (arith, e)
    ]

    detect-threshold :
        (frame : Image) (d : YoloCatDetector F Model)
        → (detect F load predict frame d).1.confidence_threshold ≡ d.confidence_threshold
    unfolding detect
    detect-threshold frame d =
        let same = get_model-threshold d in
        elim (Option-cases (get_model F load predict d).0) [
          | inl e ↦ ground (arith, same, e)
          | inr (m, e) ↦
              elim (Option-cases
                (predict (get_model F load predict d).1.confidence_threshold m frame)) [
                  | inl p ↦ ground (arith, same, e, p)
                  | inr (rs, p) ↦ ground (arith, same, e, p)
                ]
        ]

    -- A detection of an answer comes from the library's call with the threshold.
    detect-All :
        (frame : Image) (d : YoloCatDetector F Model) (ds : List (RawDetection F))
        → Filters
        → (detect F load predict frame d).0 ≡ some ds
        → All (IsConfident d.confidence_threshold) ds
    unfolding detect
    detect-All frame d ds filters h =
        let d' = (get_model F load predict d).1 in
        let same = get_model-threshold d in
        elim (Option-cases (get_model F load predict d).0) [
          | inl e ↦ absurd (ground (arith, h, e))
          | inr (m, e) ↦ elim (Option-cases (predict d'.confidence_threshold m frame)) [
            | inl p ↦ absurd (ground (arith, h, e, p))
            | inr (rs, p) ↦
                let answer : map raw_detection (boxes_of rs) ≡ ds =
                  sym (append_results-map [] rs) ∙ ground (arith, h, e, p) in
                subst (All (IsConfident d.confidence_threshold)) answer (
                  map-All (IsConfident d.confidence_threshold) (boxes_of rs) (
                    subst (λ t. All (λ b. F.le t b.conf ≡ true) (boxes_of rs)) same
                      (filters d'.confidence_threshold m frame rs p)))
          ]
        ]

    -- An answer to one frame: an exception, or detections of which each has the threshold's confidence.
    abbrev pub IsConfidentAnswer : F.Float → Option (List (RawDetection F)) → Type 0
    IsConfidentAnswer threshold answer =
        (ds : List (RawDetection F)) → answer ≡ some ds → All (IsConfident threshold) ds

    -- Over any frames, and whatever calls of the library raise: if the library filters by the confidence
    -- that it is called with, each detection of each answer has at least the detector's threshold.
    pub detect_all-confident :
        (frames : List Image) (d : YoloCatDetector F Model)
        → Filters
        → All (IsConfidentAnswer d.confidence_threshold) (detect_all F load predict frames d).0
    unfolding detect_all
    detect_all-confident [] d filters = tt
    detect_all-confident (frame ∷ frames) d filters =
        let d' = (detect F load predict frame d).1 in
        (
          λ ds h. detect-All frame d ds filters h,
          subst (λ t. All (IsConfidentAnswer t) (detect_all F load predict frames d').0)
              (detect-threshold frame d) (detect_all-confident frames d' filters),
        )

  -- A detector that has its model answers without loading: what a load would come to does not matter.
  pub detect_all-load :
      {Model Image : Type 0} (load load' : Option Model)
      (predict : (conf : F.Float) → Model → Image → Option (Results F)) (frames : List Image)
      (d : YoloCatDetector F Model)
      → d.model ≢ none
      → detect_all F load predict frames d ≡ detect_all F load' predict frames d
  unfolding detect_all detect get_model
  detect_all-load load load' predict [] d has = refl
  detect_all-load load load' predict (frame ∷ frames) d has = elim (Option-cases d.model) [
    | inl e ↦ absurd (has e)
    | inr (m, e) ↦ elim (Option-cases (predict d.confidence_threshold m frame)) [
      | inl p ↦ ground (arith, e, p, detect_all-load load load' predict frames d has)
      | inr (rs, p) ↦ ground (arith, e, p, detect_all-load load load' predict frames d has)
    ]
  ]
