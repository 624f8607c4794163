-- ===== src/Sentinel/Tracker/Tracks.antt =====
-- What one frame makes of each track that was there before it.
use cat_sentinel.Prelude.{
  ℕ, ◌+◌, ◌<◌, ◌≡◌, ◌∙◌, subst, sym, refl, ◌⊎◌, inl, inr, true, false, not, ◌&&◌, List, [], ◌∷◌,
  some, arith, ℕ_discrete, Distinct, lookup, lookup-insert_ne, Bool-cases, All, lookup-insert_self,
  ◌≢◌,
}
use cat_sentinel.Prelude.Tables.{Table, find, put}
use cat_sentinel.Prelude.Floats.{Floats}
use cat_sentinel.Sentinel.Tracker.{
  SetOrder, Observation, TrackedObject, CentroidTracker, Candidate, fresh_object, Matched, distance,
  contains, match_pair, match_pairs, sorted_pairs, unmatched_yet, matching, leftover, add_tracks,
  update, ids,
}
use cat_sentinel.Sentinel.Tracker.Aging.{aged, aged_entry, find-age_unmatched}
use cat_sentinel.Sentinel.Tracker.Pairs.{IsNear, IsNear-pairs}
use cat_sentinel.Sentinel.Tracker.Keeps.{add_tracks-Distinct}
use cat_sentinel.Sentinel.Tracker.Update.{IsValid, matching-Distinct}

module _ (F : Floats) where
  -- A matched object: seen in this frame, no further from where it was than the limit.
  abbrev pub MovedNear : F.Float → TrackedObject F → TrackedObject F → Type 0
  MovedNear limit o0 o =
      (o.age_frames_unseen ≡ 0) × (F.le (distance F o0.centroid o.centroid) limit ≡ true)

  -- The matching loop, track by track: what it has matched has moved near, the rest it has not touched.
  record Follows (t : CentroidTracker F) (m : Matched F) : Type 0 where
    kept : (id : ℕ) → contains id m.track_ids ≡ false → find id m.objects ≡ find id t.objects
    moved :
        (id : ℕ)
        → contains id m.track_ids ≡ true
        → (o0 o : TrackedObject F) × (find id t.objects ≡ some o0)
          × (find id m.objects ≡ some o)
          × MovedNear t.max_distance o0 o

  module _ (t : CentroidTracker F) where
    match_pair_cases :
        (c : Candidate F) (m : Matched F)
        → (match_pair F c m ≡ m)
          ⊎ (match_pair F c m ≡ record {
            objects = put c.track_id (fresh_object F c.track_id c.seen) m.objects;
            track_ids = c.track_id ∷ m.track_ids;
            detection_indices = c.index ∷ m.detection_indices;
          })
    unfolding match_pair
    match_pair_cases c m = ground arith

    contains_other : (id k : ℕ) (ks : List ℕ) → id ≢ k → contains id (k ∷ ks) ≡ contains id ks
    unfolding contains
    contains_other id k ks n = ground arith

    contains_self : (k : ℕ) (ks : List ℕ) → contains k (k ∷ ks) ≡ true
    unfolding contains
    contains_self k ks = ground arith

    match_pair-Follows :
        (c : Candidate F) (m : Matched F)
        → IsNear F t c
        → Follows t m
        → Follows t (match_pair F c m)
    match_pair-Follows c m (o0, found, near) f = elim (match_pair_cases c m) [
      | inl over ↦ rw over f
      | inr taken ↦ rw taken (record {
        kept = λ id h. elim (ℕ_discrete id c.track_id) [
          | yes same ↦ absurd (ground (arith, contains_self c.track_id m.track_ids))
          | no other ↦
              lookup-insert_ne ℕ_discrete id c.track_id (fresh_object F c.track_id c.seen) m.objects
                other
              ∙ f.kept id (sym (contains_other id c.track_id m.track_ids other) ∙ h)
        ];
        moved = λ id h. elim (ℕ_discrete id c.track_id) [
          | yes same ↦ (
            o0,
            fresh_object F c.track_id c.seen,
            rw same found,
            rw same (
                lookup-insert_self ℕ_discrete c.track_id (fresh_object F c.track_id c.seen)
                  m.objects),
            (refl, near),
          )
          | no other ↦
              let (p0, p, was, stands, moved_near) =
                f.moved id (sym (contains_other id c.track_id m.track_ids other) ∙ h) in
              (
                p0,
                p,
                was,
                lookup-insert_ne ℕ_discrete id c.track_id (fresh_object F c.track_id c.seen)
                      m.objects other
                    ∙ stands,
                moved_near,
              )
        ];
      })
    ]

    match_pairs-Follows :
        (cs : List (Candidate F)) (m : Matched F)
        → All (IsNear F t) cs
        → Follows t m
        → Follows t (match_pairs F cs m)
    unfolding match_pairs
    match_pairs-Follows [] m near f = f
    match_pairs-Follows (c ∷ cs) m near f =
        match_pairs-Follows cs (match_pair F c m) near.1 (match_pair-Follows c m near.0 f)

    matching-Follows :
        (S : SetOrder) (ds : List (Observation F))
        → Distinct ℕ_discrete t.objects
        → Follows t (matching F S t ds)
    unfolding matching contains
    matching-Follows S ds d =
        match_pairs-Follows (sorted_pairs F S t ds) (unmatched_yet F S t) (IsNear-pairs F t S ds d)
          (record { kept = λ id h. refl; moved = λ id h. cc h })

  -- New tracks do not touch the old ones.
  find-add_tracks :
      (ds : List (ℕ × Observation F)) (next id : ℕ) (os : Table (TrackedObject F))
      → id < next
      → find id (add_tracks F ds next os).1 ≡ find id os
  unfolding add_tracks
  find-add_tracks [] next id os h = refl
  find-add_tracks ((i, d) ∷ ds) next id os h =
      find-add_tracks ds (next + 1) id (put next (fresh_object F next d) os) (omega arith)
      ∙ lookup-insert_ne ℕ_discrete id next (fresh_object F next d) os (omega arith)

  contains-ids :
      (id : ℕ) (o : TrackedObject F) (os : Table (TrackedObject F))
      → find id os ≡ some o
      → contains id (ids F os) ≡ true
  unfolding contains lookup
  contains-ids id o [] e = absurd (ground arith)
  contains-ids id o ((k, w) ∷ os) e = ground (arith, contains-ids id o os)

  module _ (S : SetOrder) (t : CentroidTracker F) (ds : List (Observation F)) where
    -- After a frame with detections, an old track is looked up as one pass of ageing makes of what the
    -- matching left.
    find-update :
        (d : Observation F) (id : ℕ) (o : TrackedObject F)
        → IsValid F t
        → find id t.objects ≡ some o
        → find id (update F S t (d ∷ ds)).objects
          ≡ aged_entry F
              (not (contains id (matching F S t (d ∷ ds)).track_ids))
              t.max_age_frames
              (find id (matching F S t (d ∷ ds)).objects)
    unfolding update
    find-update d id o v found =
        let m = matching F S t (d ∷ ds) in
        let left = leftover F S (d ∷ ds) m in
        let added = (add_tracks F left t.next_id m.objects).1 in
        let given_out : id < t.next_id = omega (arith, v.sound id o found) in
        find-age_unmatched F (λ k. contains k (ids F t.objects) && not (contains k m.track_ids))
          t.max_age_frames id added
          (add_tracks-Distinct F left t.next_id m.objects
            (matching-Distinct F S t v.distinct (d ∷ ds)))
        ∙ rw (
          contains-ids id o t.objects found,
          find-add_tracks left t.next_id id m.objects given_out,
        )

  -- What a frame with detections makes of a track: if the matching took it, it is where a detection was
  -- seen, within `max_distance` of where it was, and has age 0. If not, it keeps its place and is one
  -- frame older, and is dropped exactly if that is more than `max_age_frames`.
  pub update_track :
      (S : SetOrder) (t : CentroidTracker F) (d : Observation F) (ds : List (Observation F))
      (id : ℕ) (o : TrackedObject F)
      → IsValid F t
      → find id t.objects ≡ some o
      → ((contains id (matching F S t (d ∷ ds)).track_ids ≡ true)
          × (o' : TrackedObject F) × (find id (update F S t (d ∷ ds)).objects ≡ some o')
          × MovedNear t.max_distance o o')
        ⊎ ((contains id (matching F S t (d ∷ ds)).track_ids ≡ false)
            × (find id (update F S t (d ∷ ds)).objects ≡ aged F true t.max_age_frames o))
  update_track S t d ds id o v found =
      let m = matching F S t (d ∷ ds) in
      let f = matching-Follows t S (d ∷ ds) v.distinct in
      let after = find-update S t ds d id o v found in
      elim (Bool-cases (contains id m.track_ids)) [
        | inl taken ↦
            let (o0, o', was, stands, near) = f.moved id taken in
            let same : o0 ≡ o = ground arith in
            inl (
              taken,
              o',
              after ∙ rw (taken, stands),
              subst (λ x. MovedNear t.max_distance x o') same near,
            )
        | inr waits ↦ inr (waits, after ∙ rw (waits, f.kept id waits, found))
      ]

  -- A frame with no detection makes every track one frame older, and drops exactly those that have then
  -- been unseen for more than `max_age_frames` frames.
  pub update_empty :
      (S : SetOrder) (t : CentroidTracker F) (id : ℕ) (o : TrackedObject F)
      → IsValid F t
      → find id t.objects ≡ some o
      → find id (update F S t []).objects ≡ aged F true t.max_age_frames o
  unfolding update
  update_empty S t id o v found =
      find-age_unmatched F (λ k. true) t.max_age_frames id t.objects v.distinct ∙ rw found
