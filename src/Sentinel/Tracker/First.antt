-- ===== src/Sentinel/Tracker/First.antt =====
-- What a new tracker makes of its first detection.
use cat_sentinel.Prelude.{ℕ, ◌≡◌, refl, ap, List, [], ◌∷◌, arith, length, All, ℕ_discrete, insert}
use cat_sentinel.Prelude.Floats.{Floats}
use cat_sentinel.Sentinel.Tracker.{
  SetOrder, Observation, fresh_object, new_tracker, sorted_pairs, matching, leftover, update,
  match_pairs, candidate_pairs, sort_pairs, add_tracks, age_unmatched, contains,
}

module _ (F : Floats) (S : SetOrder) where
  order_nil : {A : Type 0} → S.order A [] ≡ []
  order_nil {A} = nothing (S.order A []) (S.order_length A [])
    where
      nothing : (xs : List (ℕ × A)) → length xs ≡ 0 → xs ≡ []
      nothing [] h = refl
      nothing (x ∷ xs) h = absurd (omega (arith, h))

  order_one : {A : Type 0} (x : ℕ × A) → S.order A (x ∷ []) ≡ x ∷ []
  order_one {A} x =
      only (S.order A (x ∷ [])) (S.order_length A (x ∷ []))
        (S.order_all A (λ y. y ≡ x) (x ∷ []) (refl, tt))
    where
      only : (xs : List (ℕ × A)) → length xs ≡ 1 → All (λ y. y ≡ x) xs → xs ≡ x ∷ []
      only [] h a = absurd (omega (arith, h))
      only (y ∷ []) h a = ap (λ z. z ∷ []) a.0
      only (y ∷ z ∷ zs) h a = absurd (omega (arith, h))

  -- The only thing that a new tracker sees is its track 1.
  pub first_track :
      (max_distance : F.Float) (max_age : ℕ) (d : Observation F)
      → (update F S (new_tracker F max_distance max_age) (d ∷ [])).objects
        ≡ (1, fresh_object F 1 d) ∷ []
  unfolding update new_tracker matching leftover sorted_pairs candidate_pairs sort_pairs match_pairs
      add_tracks age_unmatched contains ℕ_discrete insert
  first_track max_distance max_age d =
      let x : ℕ × Observation F = (0, d) in rw (order_nil, order_one x) refl
