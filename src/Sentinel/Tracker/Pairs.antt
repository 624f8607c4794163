-- ===== src/Sentinel/Tracker/Pairs.antt =====
-- What the sorted candidate pairs are made of.
use cat_sentinel.Prelude.{
  ℕ, ◌≡◌, inl, inr, true, List, [], ◌∷◌, none, some, arith, ℕ_discrete, Distinct, lookup,
  Bool-cases, All, All-append,
}
use cat_sentinel.Prelude.Tables.{Table, find}
use cat_sentinel.Prelude.Floats.{Floats}
use cat_sentinel.Sentinel.Tracker.{
  SetOrder, Observation, TrackedObject, CentroidTracker, Candidate, distance, pairs_of,
  candidate_pairs, insert_sorted, sort_pairs, sorted_pairs, enumerate,
}

module _ {A : Type 0} where
  found_later :
      (k : ℕ) (v : A) (t es : Table A)
      → find k t ≡ none
      → All (λ e. find e.0 t ≡ some e.1) es
      → All (λ e. find e.0 ((k, v) ∷ t) ≡ some e.1) es
  unfolding lookup
  found_later k v t [] n h = tt
  found_later k v t (e ∷ es) n h = (ground arith, found_later k v t es n h.1)

  -- The entries of a table are what it finds.
  All-found : (t : Table A) → Distinct ℕ_discrete t → All (λ e. find e.0 t ≡ some e.1) t
  unfolding lookup
  All-found [] d = tt
  All-found ((k, v) ∷ t) d = (ground arith, found_later k v t t d.0 (All-found t d.1))

module _ (F : Floats) where
  -- Sorting keeps what holds of every pair.
  module _ (P : Candidate F → Type 0) where
    insert_sorted-All :
        (c : Candidate F) (cs : List (Candidate F)) → P c → All P cs → All P (insert_sorted F c cs)
    unfolding insert_sorted
    insert_sorted-All c [] p h = (p, tt)
    insert_sorted-All c (c' ∷ cs) p h = elim (Bool-cases (F.lt c'.dist c.dist)) [
      | inl before ↦ rw before (h.0, insert_sorted-All c cs p h.1)
      | inr first ↦ rw first (p, h)
    ]

    sort_pairs-All : (cs : List (Candidate F)) → All P cs → All P (sort_pairs F cs)
    unfolding sort_pairs
    sort_pairs-All [] h = tt
    sort_pairs-All (c ∷ cs) h = insert_sorted-All c (sort_pairs F cs) h.0 (sort_pairs-All cs h.1)

  -- The pair is of a track of the tracker, whose distance to the detection is within the limit.
  abbrev pub IsNear : CentroidTracker F → Candidate F → Type 0
  IsNear t c =
      (o : TrackedObject F) × (find c.track_id t.objects ≡ some o)
      × (F.le (distance F o.centroid c.seen.1) t.max_distance ≡ true)

  module _ (t : CentroidTracker F) where
    pairs_of-IsNear :
        (id : ℕ) (o : TrackedObject F) (ds : List (ℕ × Observation F))
        → find id t.objects ≡ some o
        → All (IsNear t) (pairs_of F t.max_distance id o.centroid ds)
    unfolding pairs_of
    pairs_of-IsNear id o [] e = tt
    pairs_of-IsNear id o ((i, d) ∷ ds) e =
        let ih = pairs_of-IsNear id o ds e in
        elim (Bool-cases (F.le (distance F o.centroid d.1) t.max_distance)) [
          | inl near ↦ rw near ((o, e, near), ih)
          | inr far ↦ rw far ih
        ]

    candidate_pairs-IsNear :
        (ds : List (ℕ × Observation F)) (os : List (ℕ × TrackedObject F))
        → All (λ e. find e.0 t.objects ≡ some e.1) os
        → All (IsNear t) (candidate_pairs F t.max_distance ds os)
    unfolding candidate_pairs
    candidate_pairs-IsNear ds [] h = tt
    candidate_pairs-IsNear ds ((id, o) ∷ os) h =
        All-append (IsNear t) (pairs_of F t.max_distance id o.centroid ds)
          (candidate_pairs F t.max_distance ds os) (pairs_of-IsNear id o ds h.0)
          (candidate_pairs-IsNear ds os h.1)

    pub IsNear-pairs :
        (S : SetOrder) (ds : List (Observation F))
        → Distinct ℕ_discrete t.objects
        → All (IsNear t) (sorted_pairs F S t ds)
    unfolding sorted_pairs
    IsNear-pairs S ds d =
        sort_pairs-All (IsNear t)
          (candidate_pairs F t.max_distance (S.order (Observation F) (enumerate 0 ds))
            (S.order (TrackedObject F) t.objects))
          (candidate_pairs-IsNear (S.order (Observation F) (enumerate 0 ds))
            (S.order (TrackedObject F) t.objects)
            (S.order_all (TrackedObject F) (λ e. find e.0 t.objects ≡ some e.1) t.objects
              (All-found t.objects d)))
