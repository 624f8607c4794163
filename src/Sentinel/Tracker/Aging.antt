-- ===== src/Sentinel/Tracker/Aging.antt =====
-- `_age_unmatched`, track by track.
use cat_sentinel.Prelude.{
  ℕ, ◌+◌, ◌≡◌, refl, Bool, true, false, [], ◌∷◌, Option, none, some, arith, ℕ_discrete, Distinct,
  lookup, ltb, if◌then◌else◌,
}
use cat_sentinel.Prelude.Tables.{Table, find}
use cat_sentinel.Prelude.Floats.{Floats}
use cat_sentinel.Sentinel.Tracker.{TrackedObject, age_unmatched}

module _ (F : Floats) where
  -- What one pass makes of a track: as it was, one frame older, or dropped.
  abbrev pub aged : Bool → ℕ → TrackedObject F → Option (TrackedObject F)
  aged false max_age o = some o
  aged true max_age o =
      if ltb max_age (o.age_frames_unseen + 1)
      then none
      else some (record o { age_frames_unseen = o.age_frames_unseen + 1 })

  abbrev pub aged_entry : Bool → ℕ → Option (TrackedObject F) → Option (TrackedObject F)
  aged_entry unmatched max_age none = none
  aged_entry unmatched max_age (some o) = aged unmatched max_age o

  module _ (unmatched : ℕ → Bool) (max_age : ℕ) where
    find_dropped :
        (id : ℕ) (os : Table (TrackedObject F))
        → find id os ≡ none
        → find id (age_unmatched F unmatched max_age os) ≡ none
    unfolding lookup age_unmatched
    find_dropped id [] h = refl
    find_dropped id (r ∷ os) h = ground (arith, find_dropped id os)

    -- Each track is looked up, after the pass, as what the pass makes of it.
    pub find-age_unmatched :
        (id : ℕ) (os : Table (TrackedObject F))
        → Distinct ℕ_discrete os
        → find id (age_unmatched F unmatched max_age os)
          ≡ aged_entry (unmatched id) max_age (find id os)
    unfolding lookup age_unmatched
    find-age_unmatched id [] d = refl
    find-age_unmatched id ((k, o) ∷ os) d = elim (ℕ_discrete id k) [
      | yes same ↦ ground (arith, find_dropped k os d.0)
      | no other ↦ ground (arith, find-age_unmatched id os d.1)
    ]

    pub age_unmatched-Distinct :
        (os : Table (TrackedObject F))
        → Distinct ℕ_discrete os
        → Distinct ℕ_discrete (age_unmatched F unmatched max_age os)
    unfolding age_unmatched
    age_unmatched-Distinct [] d = tt
    age_unmatched-Distinct ((k, o) ∷ os) d =
        ground (arith, age_unmatched-Distinct os d.1, find_dropped k os d.0)
