-- ===== src/Sentinel/Tracker/Keeps.antt =====
-- The invariant of the tracker, and that a track number is never used twice.
use cat_sentinel.Prelude.{
  ℕ, ◌+◌, ◌≤◌, ◌<◌, ◌≡◌, subst, sym, inl, inr, ◌||◌, length, List, [], ◌∷◌, some, arith, ℕ_discrete,
  Distinct, insert-Distinct, Bool-cases, All,
}
use cat_sentinel.Prelude.Tables.{Table, find, put, find-put}
use cat_sentinel.Prelude.Floats.{Floats}
use cat_sentinel.Sentinel.Tracker.{
  Observation, TrackedObject, Candidate, fresh_object, Matched, contains, match_pair, match_pairs,
  add_tracks,
}

module _ (F : Floats) where
  -- Every object of a table has the property.
  abbrev pub Holds : (ℕ → TrackedObject F → Type 0) → Table (TrackedObject F) → Type 0
  Holds P os = (id : ℕ) (o : TrackedObject F) → find id os ≡ some o → P id o

  pub put-Holds :
      (P : ℕ → TrackedObject F → Type 0) (k : ℕ) (v : TrackedObject F)
      (os : Table (TrackedObject F))
      → P k v
      → Holds P os
      → Holds P (put k v os)
  put-Holds P k v os new old id o e = elim (ℕ_discrete id k) [
    | yes same ↦
        let written : v ≡ o = ground (arith, find-put id k v os) in
        subst (λ x. P id x) written (subst (λ x. P x v) (sym same) new)
    | no other ↦ old id o (ground (arith, find-put id k v os))
  ]

  -- A pair is passed over, or it writes a fresh object under its track.
  pub match_pair-Holds :
      (P : ℕ → TrackedObject F → Type 0) (c : Candidate F) (m : Matched F)
      → P c.track_id (fresh_object F c.track_id c.seen)
      → Holds P m.objects
      → Holds P (match_pair F c m).objects
  unfolding match_pair
  match_pair-Holds P c m new old =
      elim (Bool-cases (contains c.track_id m.track_ids || contains c.index m.detection_indices)) [
        | inl over ↦ rw over old
        | inr open_pair ↦
            rw open_pair
              (put-Holds P c.track_id (fresh_object F c.track_id c.seen) m.objects new old)
      ]

  match_pair-Distinct :
      (c : Candidate F) (m : Matched F)
      → Distinct ℕ_discrete m.objects
      → Distinct ℕ_discrete (match_pair F c m).objects
  unfolding match_pair
  match_pair-Distinct c m d =
      elim (Bool-cases (contains c.track_id m.track_ids || contains c.index m.detection_indices)) [
        | inl over ↦ rw over d
        | inr open_pair ↦
            rw open_pair
              (insert-Distinct ℕ_discrete c.track_id (fresh_object F c.track_id c.seen) m.objects d)
      ]

  pub match_pairs-Holds :
      (P : ℕ → TrackedObject F → Type 0) (cs : List (Candidate F)) (m : Matched F)
      → All (λ c. P c.track_id (fresh_object F c.track_id c.seen)) cs
      → Holds P m.objects
      → Holds P (match_pairs F cs m).objects
  unfolding match_pairs
  match_pairs-Holds P [] m new old = old
  match_pairs-Holds P (c ∷ cs) m new old =
      match_pairs-Holds P cs (match_pair F c m) new.1 (match_pair-Holds P c m new.0 old)

  pub match_pairs-Distinct :
      (cs : List (Candidate F)) (m : Matched F)
      → Distinct ℕ_discrete m.objects
      → Distinct ℕ_discrete (match_pairs F cs m).objects
  unfolding match_pairs
  match_pairs-Distinct [] m d = d
  match_pairs-Distinct (c ∷ cs) m d =
      match_pairs-Distinct cs (match_pair F c m) (match_pair-Distinct c m d)

  -- New tracks are numbered upwards from `next_id`.
  pub add_tracks-next :
      (ds : List (ℕ × Observation F)) (next : ℕ) (os : Table (TrackedObject F))
      → (add_tracks F ds next os).0 ≡ next + length ds
  unfolding add_tracks
  add_tracks-next [] next os = omega arith
  add_tracks-next (e ∷ ds) next os =
      omega (arith, add_tracks-next ds (next + 1) (put next (fresh_object F next e.1) os))

  pub add_tracks-Holds :
      (P : ℕ → TrackedObject F → Type 0) (ds : List (ℕ × Observation F)) (next : ℕ)
      (os : Table (TrackedObject F))
      → ((k : ℕ) (d : Observation F) → next ≤ k → k < next + length ds → P k (fresh_object F k d))
      → Holds P os
      → Holds P (add_tracks F ds next os).1
  unfolding add_tracks
  add_tracks-Holds P [] next os new old = old
  add_tracks-Holds P ((i, d) ∷ ds) next os new old =
      add_tracks-Holds P ds (next + 1) (put next (fresh_object F next d) os)
        (λ k x above below. new k x (omega arith) (omega arith))
        (put-Holds P next (fresh_object F next d) os (new next d (omega arith) (omega arith)) old)

  pub add_tracks-Distinct :
      (ds : List (ℕ × Observation F)) (next : ℕ) (os : Table (TrackedObject F))
      → Distinct ℕ_discrete os
      → Distinct ℕ_discrete (add_tracks F ds next os).1
  unfolding add_tracks
  add_tracks-Distinct [] next os d = d
  add_tracks-Distinct ((i, x) ∷ ds) next os d =
      add_tracks-Distinct ds (next + 1) (put next (fresh_object F next x) os)
        (insert-Distinct ℕ_discrete next (fresh_object F next x) os d)
