-- ===== src/Sentinel/Tracker/Update.antt =====
-- `update`: the invariant of the tracker, and that a track number is never used twice.
use cat_sentinel.Prelude.{
  ℕ, ◌+◌, ◌≤◌, ◌<◌, ◌≡◌, subst, refl, ◌⊎◌, inl, inr, Bool, true, false, List, [], ◌∷◌, some, arith,
  ℕ_discrete, Distinct, Option-cases, Bool-cases, ltb, All-map,
}
use cat_sentinel.Prelude.Tables.{Table, find}
use cat_sentinel.Prelude.Floats.{Floats}
use cat_sentinel.Sentinel.Tracker.{
  SetOrder, Observation, TrackedObject, CentroidTracker, Candidate, fresh_object, sorted_pairs,
  unmatched_yet, matching, leftover, add_tracks, age_unmatched, update,
}
use cat_sentinel.Sentinel.Tracker.Aging.{find-age_unmatched, age_unmatched-Distinct}
use cat_sentinel.Sentinel.Tracker.Pairs.{IsNear, IsNear-pairs}
use cat_sentinel.Sentinel.Tracker.Keeps.{
  Holds, match_pairs-Holds, match_pairs-Distinct, add_tracks-next, add_tracks-Holds,
  add_tracks-Distinct,
}

module _ (F : Floats) where
  abbrev IsSound : (next_id max_age : ℕ) → ℕ → TrackedObject F → Type 0
  IsSound next_id max_age id o =
      (o.track_id ≡ id) × (id < next_id) × (o.age_frames_unseen ≤ max_age)

  -- Each object stands under its own number, which has been given out, and has not been unseen for too
  -- long.
  pub record IsValid (t : CentroidTracker F) : Type 0 where
    pub distinct : Distinct ℕ_discrete t.objects
    pub sound :
        (id : ℕ) (o : TrackedObject F)
        → find id t.objects ≡ some o
        → (o.track_id ≡ id) × (id < t.next_id) × (o.age_frames_unseen ≤ t.max_age_frames)

  age-Holds :
      (P : ℕ → TrackedObject F → Type 0) (unmatched : ℕ → Bool) (max_age : ℕ)
      (os : Table (TrackedObject F))
      → Distinct ℕ_discrete os
      → ((id : ℕ) (o : TrackedObject F)
          → P id o
          → ltb max_age (o.age_frames_unseen + 1) ≡ false
          → P id (record o { age_frames_unseen = o.age_frames_unseen + 1 }))
      → Holds F P os
      → Holds F P (age_unmatched F unmatched max_age os)
  age-Holds P unmatched max_age os d older old id o e = elim (Option-cases (find id os)) [
    | inl absent ↦ absurd (ground (arith, find-age_unmatched F unmatched max_age id os d))
    | inr (o0, found) ↦ elim (Bool-cases (unmatched id)) [
      | inl waits ↦ elim (Bool-cases (ltb max_age (o0.age_frames_unseen + 1))) [
        | inl too_old ↦ absurd (ground (arith, find-age_unmatched F unmatched max_age id os d))
        | inr young ↦
            let became : record o0 { age_frames_unseen = o0.age_frames_unseen + 1 } ≡ o =
              ground (arith, find-age_unmatched F unmatched max_age id os d) in
            subst (P id) became (older id o0 (old id o0 found) young)
      ]
      | inr seen ↦
          let same : o0 ≡ o = ground (arith, find-age_unmatched F unmatched max_age id os d) in
          subst (P id) same (old id o0 found)
    ]
  ]

  module _ (S : SetOrder) (t : CentroidTracker F) (valid : Distinct ℕ_discrete t.objects) where
    matching-Holds :
        (P : ℕ → TrackedObject F → Type 0) (ds : List (Observation F))
        → ((c : Candidate F) → IsNear F t c → P c.track_id (fresh_object F c.track_id c.seen))
        → Holds F P t.objects
        → Holds F P (matching F S t ds).objects
    unfolding matching
    matching-Holds P ds near old =
        let pairs = sorted_pairs F S t ds in
        match_pairs-Holds F P pairs (unmatched_yet F S t)
          (All-map pairs near (IsNear-pairs F t S ds valid)) old

    pub matching-Distinct :
        (ds : List (Observation F)) → Distinct ℕ_discrete (matching F S t ds).objects
    unfolding matching
    matching-Distinct ds =
        match_pairs-Distinct F (sorted_pairs F S t ds) (unmatched_yet F S t) valid

    next_id-le : (ds : List (Observation F)) → t.next_id ≤ (update F S t ds).next_id
    unfolding update
    next_id-le [] = omega arith
    next_id-le (d ∷ ds) =
        let m = matching F S t (d ∷ ds) in
        omega (arith, add_tracks-next F (leftover F S (d ∷ ds) m) t.next_id m.objects)

    -- What holds of the objects before, of each matched and of each new one, and lasts as they age,
    -- holds after the frame.
    update-Holds :
        (P : ℕ → TrackedObject F → Type 0) (ds : List (Observation F))
        → ((c : Candidate F) → IsNear F t c → P c.track_id (fresh_object F c.track_id c.seen))
        → ((k : ℕ) (d : Observation F)
            → t.next_id ≤ k
            → k < (update F S t ds).next_id
            → P k (fresh_object F k d))
        → ((id : ℕ) (o : TrackedObject F)
            → P id o
            → ltb t.max_age_frames (o.age_frames_unseen + 1) ≡ false
            → P id (record o { age_frames_unseen = o.age_frames_unseen + 1 }))
        → Holds F P t.objects
        → Holds F P (update F S t ds).objects
    unfolding update
    update-Holds P [] near new older old =
        age-Holds P (λ id. true) t.max_age_frames t.objects valid older old
    update-Holds P (d ∷ ds) near new older old =
        let m = matching F S t (d ∷ ds) in
        let left = leftover F S (d ∷ ds) m in
        age-Holds P _ t.max_age_frames (add_tracks F left t.next_id m.objects).1
          (add_tracks-Distinct F left t.next_id m.objects (matching-Distinct (d ∷ ds))) older
          (add_tracks-Holds F P left t.next_id m.objects
            (λ k x above below.
              new k x above (omega (arith, add_tracks-next F left t.next_id m.objects)))
            (matching-Holds P (d ∷ ds) near old))

    update-Distinct : (ds : List (Observation F)) → Distinct ℕ_discrete (update F S t ds).objects
    unfolding update
    update-Distinct [] = age_unmatched-Distinct F (λ id. true) t.max_age_frames t.objects valid
    update-Distinct (d ∷ ds) =
        let m = matching F S t (d ∷ ds) in
        let left = leftover F S (d ∷ ds) m in
        age_unmatched-Distinct F _ t.max_age_frames (add_tracks F left t.next_id m.objects).1
          (add_tracks-Distinct F left t.next_id m.objects (matching-Distinct (d ∷ ds)))

  max_age-update :
      (S : SetOrder) (t : CentroidTracker F) (ds : List (Observation F))
      → (update F S t ds).max_age_frames ≡ t.max_age_frames
  unfolding update
  max_age-update S t [] = refl
  max_age-update S t (d ∷ ds) = refl

  -- Every frame keeps the invariant: each object stands under its own number, once, that number is
  -- below `next_id`, and no object has been unseen for more than `max_age_frames` frames.
  pub update-IsValid :
      (S : SetOrder) (t : CentroidTracker F) (ds : List (Observation F))
      → IsValid t
      → IsValid (update F S t ds)
  update-IsValid S t ds v = record {
    distinct = update-Distinct S t v.distinct ds;
    sound = λ id o e. rw (max_age-update S t ds) (
        update-Holds S t v.distinct (IsSound (update F S t ds).next_id t.max_age_frames) ds
          (λ c (o0, found, near).
            omega (arith, v.sound c.track_id o0 found, next_id-le S t v.distinct ds))
          (λ k d above below. omega arith) (λ id' o' s young. ground (arith, s))
          (λ id' o' found. omega (arith, v.sound id' o' found, next_id-le S t v.distinct ds)) id o
          e);
  }

  -- A number is never given to a second track: the numbers in use after a frame are old ones that were
  -- in use before it, or were not given out before it, and `next_id` never falls.
  pub update_ids :
      (S : SetOrder) (t : CentroidTracker F) (ds : List (Observation F))
      → IsValid t
      → (t.next_id ≤ (update F S t ds).next_id)
        × ((id : ℕ) (o : TrackedObject F)
            → find id (update F S t ds).objects ≡ some o
            → ((o0 : TrackedObject F) × (find id t.objects ≡ some o0)) ⊎ (t.next_id ≤ id))
  update_ids S t ds v = (
    next_id-le S t v.distinct ds,
    update-Holds S t v.distinct
        (λ id o. ((o0 : TrackedObject F) × (find id t.objects ≡ some o0)) ⊎ (t.next_id ≤ id)) ds
        (λ c (o0, found, near). inl (o0, found)) (λ k d above below. inr above) (λ id o s young. s)
        (λ id o found. inl (o, found)),
  )
