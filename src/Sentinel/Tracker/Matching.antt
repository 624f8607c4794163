-- ===== src/Sentinel/Tracker/Matching.antt =====
-- Which tracks a frame matches: what becomes of every track, and that the greedy choice leaves no
-- pair within the limit.
use cat_sentinel.Prelude.{
  ℕ, zero, suc, ◌+◌, ◌≡◌, subst, ◌⊎◌, inl, inr, Bool, true, ◌||◌, List, [], ◌∷◌, ◌++◌, some, arith,
  ℕ_discrete, lookup, Bool-cases, All, get_elem?,
}
use cat_sentinel.Prelude.Tables.{Table, find}
use cat_sentinel.Prelude.Floats.{Floats}
use cat_sentinel.Sentinel.Tracker.{
  SetOrder, Observation, TrackedObject, CentroidTracker, Candidate, Matched, distance, contains,
  match_pair, match_pairs, sorted_pairs, unmatched_yet, matching, pairs_of, candidate_pairs,
  insert_sorted, sort_pairs, enumerate,
}

or_split : (a b : Bool) → (a || b) ≡ true → (a ≡ true) ⊎ (b ≡ true)
or_split a b h = ground arith

module _ (F : Floats) where
  -- The track or the detection of the pair has been matched.
  abbrev IsSpent : Matched F → Candidate F → Type 0
  IsSpent m c = (contains c.track_id m.track_ids || contains c.index m.detection_indices) ≡ true

  IsSpent-match_pair :
      (c c' : Candidate F) (m : Matched F) → IsSpent m c' → IsSpent (match_pair F c m) c'
  unfolding match_pair contains
  IsSpent-match_pair c c' m h = ground arith

  match_pair-IsSpent : (c : Candidate F) (m : Matched F) → IsSpent (match_pair F c m) c
  unfolding match_pair contains
  match_pair-IsSpent c m = ground arith

  IsSpent-match_pairs :
      (cs : List (Candidate F)) (c : Candidate F) (m : Matched F)
      → IsSpent m c
      → IsSpent (match_pairs F cs m) c
  unfolding match_pairs
  IsSpent-match_pairs [] c m h = h
  IsSpent-match_pairs (c' ∷ cs) c m h =
      IsSpent-match_pairs cs c (match_pair F c' m) (IsSpent-match_pair c' c m h)

  -- After the loop no pair is left that it could take.
  match_pairs-IsSpent :
      (cs : List (Candidate F)) (m : Matched F) → All (IsSpent (match_pairs F cs m)) cs
  unfolding match_pairs
  match_pairs-IsSpent [] m = tt
  match_pairs-IsSpent (c ∷ cs) m = (
    IsSpent-match_pairs cs c (match_pair F c m) (match_pair-IsSpent c m),
    match_pairs-IsSpent cs (match_pair F c m),
  )

  -- Sorting loses no pair.
  module _ (P : Candidate F → Type 0) where
    All-insert_sorted :
        (c : Candidate F) (cs : List (Candidate F)) → All P (insert_sorted F c cs) → P c × All P cs
    unfolding insert_sorted
    All-insert_sorted c [] h = h
    All-insert_sorted c (c' ∷ cs) h = elim (Bool-cases (F.lt c'.dist c.dist)) [
      | inl before ↦
          let h' : All P (c' ∷ insert_sorted F c cs) = rw before at h in
          let (p, rest) = All-insert_sorted c cs h'.1 in (p, (h'.0, rest))
      | inr first ↦ let h' : All P (c ∷ c' ∷ cs) = rw first at h in h'
    ]

    All-sort_pairs : (cs : List (Candidate F)) → All P (sort_pairs F cs) → All P cs
    unfolding sort_pairs
    All-sort_pairs [] h = tt
    All-sort_pairs (c ∷ cs) h =
        let (p, rest) = All-insert_sorted c (sort_pairs F cs) h in (p, All-sort_pairs cs rest)

  All-append_left :
      (P : Candidate F → Type 0) (xs ys : List (Candidate F)) → All P (xs ++ ys) → All P xs
  All-append_left P [] ys h = tt
  All-append_left P (x ∷ xs) ys h = (h.0, All-append_left P xs ys h.1)

  All-append_right :
      (P : Candidate F → Type 0) (xs ys : List (Candidate F)) → All P (xs ++ ys) → All P ys
  All-append_right P [] ys h = h
  All-append_right P (x ∷ xs) ys h = All-append_right P xs ys h.1

  -- A track and a detection within the limit are matched, one of them at least.
  abbrev IsCovered : Matched F → F.Float → ℕ × TrackedObject F → ℕ × Observation F → Type 0
  IsCovered m limit e d =
      F.le (distance F (e.1).centroid (d.1).1) limit ≡ true
      → (contains e.0 m.track_ids || contains d.0 m.detection_indices) ≡ true

  pairs_of-IsCovered :
      (m : Matched F) (limit : F.Float) (id : ℕ) (o : TrackedObject F)
      (ds : List (ℕ × Observation F))
      → All (IsSpent m) (pairs_of F limit id o.centroid ds)
      → All (IsCovered m limit (id, o)) ds
  unfolding pairs_of
  pairs_of-IsCovered m limit id o [] h = tt
  pairs_of-IsCovered m limit id o ((i, d) ∷ ds) h =
      elim (Bool-cases (F.le (distance F o.centroid d.1) limit)) [
        | inl near ↦ let h' = rw near at h in ((λ _. h'.0), pairs_of-IsCovered m limit id o ds h'.1)
        | inr far ↦
            let h' : All (IsSpent m) (pairs_of F limit id o.centroid ds) = rw far at h in
            ((λ near. cc), pairs_of-IsCovered m limit id o ds h')
      ]

  candidate_pairs-IsCovered :
      (m : Matched F) (limit : F.Float) (ds : List (ℕ × Observation F))
      (os : List (ℕ × TrackedObject F))
      → All (IsSpent m) (candidate_pairs F limit ds os)
      → All (λ e. All (IsCovered m limit e) ds) os
  unfolding candidate_pairs
  candidate_pairs-IsCovered m limit ds [] h = tt
  candidate_pairs-IsCovered m limit ds ((id, o) ∷ os) h =
      let these = pairs_of F limit id o.centroid ds in
      let others = candidate_pairs F limit ds os in
      (
        pairs_of-IsCovered m limit id o ds (All-append_left (IsSpent m) these others h),
        candidate_pairs-IsCovered m limit ds os (All-append_right (IsSpent m) these others h),
      )

  All-find :
      (P : ℕ × TrackedObject F → Type 0) (os : Table (TrackedObject F)) (id : ℕ)
      (o : TrackedObject F)
      → All P os
      → find id os ≡ some o
      → P (id, o)
  unfolding lookup
  All-find P [] id o h e = absurd (ground arith)
  All-find P ((k, w) ∷ os) id o h e = elim (ℕ_discrete id k) [
    | yes same ↦ let entry : (k, w) ≡ (id, o) = ground arith in subst P entry h.0
    | no other ↦ All-find P os id o h.1 (ground arith)
  ]

  All-enumerate :
      (P : ℕ × Observation F → Type 0) (ds : List (Observation F)) (n i : ℕ) (d : Observation F)
      → All P (enumerate n ds)
      → get_elem? ds i ≡ some d
      → P (n + i, d)
  All-enumerate P [] n i d h e = absurd (ground arith)
  All-enumerate P (x ∷ ds) n zero d h e =
      let entry : (n, x) ≡ (n + 0, d) = ground arith in subst P entry h.0
  All-enumerate P (x ∷ ds) n (suc i) d h e =
      let shift : suc n + i ≡ n + suc i = omega arith in
      subst (λ k. P (k, d)) shift (All-enumerate P ds (suc n) i d h.1 e)

  -- The matching is maximal: of a track and a detection that are within `max_distance` of each other, at
  -- least one has been matched.
  pub matching_maximal :
      (S : SetOrder) (t : CentroidTracker F) (ds : List (Observation F)) (id i : ℕ)
      (o : TrackedObject F) (d : Observation F)
      → find id t.objects ≡ some o
      → get_elem? ds i ≡ some d
      → F.le (distance F o.centroid d.1) t.max_distance ≡ true
      → (contains id (matching F S t ds).track_ids ≡ true)
        ⊎ (contains i (matching F S t ds).detection_indices ≡ true)
  unfolding matching sorted_pairs
  matching_maximal S t ds id i o d found seen near =
      let m = matching F S t ds in
      let dets = S.order (Observation F) (enumerate 0 ds) in
      let tracks = S.order (TrackedObject F) t.objects in
      let pairs = candidate_pairs F t.max_distance dets tracks in
      let spent = match_pairs-IsSpent (sort_pairs F pairs) (unmatched_yet F S t) in
      let covered =
        candidate_pairs-IsCovered m t.max_distance dets tracks
          (All-sort_pairs (IsSpent m) pairs spent) in
      let row =
        All-find (λ e. All (IsCovered m t.max_distance e) dets) t.objects id o
          (S.all_order (TrackedObject F) (λ e. All (IsCovered m t.max_distance e) dets) t.objects
            covered)
          found in
      let cell =
        All-enumerate (IsCovered m t.max_distance (id, o)) ds 0 i d
          (S.all_order (Observation F) (IsCovered m t.max_distance (id, o)) (enumerate 0 ds) row)
          seen in
      let at_i : 0 + i ≡ i = omega arith in
      or_split (contains id m.track_ids) (contains i m.detection_indices) (
        subst (λ k. (contains id m.track_ids || contains k m.detection_indices) ≡ true) at_i
          (cell near))
