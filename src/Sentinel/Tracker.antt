-- ===== src/Sentinel/Tracker.antt =====
-- `CentroidTracker` of cat-sentinel/app/vision/tracker.py.
-- The order in which Python walks a set of integers is a parameter (`SetOrder`): it decides ties of
-- equal distance and which new track gets which number. An index into `detections` and its element
-- are kept together, and so are a track number and its object.
pub mod Aging
pub mod Pairs
pub mod Keeps
pub mod Update
pub mod Matching
pub mod Tracks
pub mod First
mod Tests
use cat_sentinel.Prelude.{
  ℕ, zero, suc, ◌+◌, ◌≡◌, Bool, true, false, not, ◌&&◌, ◌||◌, List, [], ◌∷◌, ◌++◌, Option, none,
  some, map, All, length, keep, ltb, ◌==◌, if◌then◌else◌, refl,
}
use cat_sentinel.Prelude.Tables.{Table, find, put}
use cat_sentinel.Prelude.Floats.{Floats}
use cat_sentinel.Sentinel.Geometry.{Point}

-- A walk over a set of numbered things visits its elements, all of them, and as many.
pub record SetOrder : Type 1 where
  pub order : (A : Type 0) → List (ℕ × A) → List (ℕ × A)
  pub order_all :
      (A : Type 0) (P : ℕ × A → Type 0) (xs : List (ℕ × A)) → All P xs → All P (order A xs)
  pub all_order :
      (A : Type 0) (P : ℕ × A → Type 0) (xs : List (ℕ × A)) → All P (order A xs) → All P xs
  pub order_length : (A : Type 0) (xs : List (ℕ × A)) → length (order A xs) ≡ length xs

-- The walk from the first to the last, which CPython makes for small numbers in a small set.
abbrev pub in_order : SetOrder
in_order = record {
  order = λ A xs. xs;
  order_all = λ A P xs h. h;
  all_order = λ A P xs h. h;
  order_length = λ A xs. refl;
}

-- `n in numbers`
unfoldable pub contains : ℕ → List ℕ → Bool
contains n [] = false
contains n (m ∷ ms) = n == m || contains n ms

abbrev pub enumerate {ℓ} : {A : Type ℓ} → ℕ → List A → List (ℕ × A)
enumerate i [] = []
enumerate i (x ∷ xs) = (i, x) ∷ enumerate (suc i) xs

module _ (F : Floats) where
  pub record BoundingBox : Type 0 where
    pub left : F.Float
    pub top : F.Float
    pub right : F.Float
    pub bottom : F.Float

  -- One entry of the argument `detections`: (bbox, centroid).
  abbrev pub Observation : Type 0
  Observation = BoundingBox × Point F

  pub record TrackedObject : Type 0 where
    pub track_id : ℕ
    pub centroid : Point F
    pub bbox : BoundingBox
    pub age_frames_unseen : ℕ

  pub record CentroidTracker : Type 0 where
    pub max_distance : F.Float
    pub max_age_frames : ℕ
    pub next_id : ℕ
    pub objects : Table TrackedObject

  -- `__init__`
  unfoldable pub new_tracker : F.Float → ℕ → CentroidTracker
  new_tracker max_distance max_age_frames = record {
    max_distance = max_distance;
    max_age_frames = max_age_frames;
    next_id = 1;
    objects = [];
  }

  pub distance : Point F → Point F → F.Float
  distance a b = F.hypot (F.sub a.0 b.0) (F.sub a.1 b.1)

  -- An entry of `candidate_pairs`: (dist, track_id, det_idx), with the detection.
  pub record Candidate : Type 0 where
    pub dist : F.Float
    pub track_id : ℕ
    pub index : ℕ
    pub seen : Observation

  -- The inner loop over the detections, for one track.
  pub pairs_of : F.Float → ℕ → Point F → List (ℕ × Observation) → List Candidate
  pairs_of max_distance id at [] = []
  pairs_of max_distance id at ((i, d) ∷ ds) =
      let rest = pairs_of max_distance id at ds in
      if F.le (distance at d.1) max_distance
      then record { dist = distance at d.1; track_id = id; index = i; seen = d } ∷ rest
      else rest

  pub candidate_pairs : F.Float → List (ℕ × Observation) → List (ℕ × TrackedObject) → List Candidate
  unfolding pairs_of
  candidate_pairs max_distance ds [] = []
  candidate_pairs max_distance ds ((id, o) ∷ os) =
      pairs_of max_distance id o.centroid ds ++ candidate_pairs max_distance ds os

  -- `candidate_pairs.sort(key=lambda item: item[0])`, which is stable.
  pub insert_sorted : Candidate → List Candidate → List Candidate
  insert_sorted c [] = c ∷ []
  insert_sorted c (c' ∷ cs) = if F.lt c'.dist c.dist then c' ∷ insert_sorted c cs else c ∷ c' ∷ cs

  pub sort_pairs : List Candidate → List Candidate
  unfolding insert_sorted
  sort_pairs [] = []
  sort_pairs (c ∷ cs) = insert_sorted c (sort_pairs cs)

  abbrev pub fresh_object : ℕ → Observation → TrackedObject
  fresh_object id d = record { track_id = id; centroid = d.1; bbox = d.0; age_frames_unseen = 0 }

  -- The variables of the matching loop.
  pub record Matched : Type 0 where
    pub objects : Table TrackedObject
    pub track_ids : List ℕ
    pub detection_indices : List ℕ

  -- The body of the loop over the sorted pairs.
  pub match_pair : Candidate → Matched → Matched
  unfolding contains
  match_pair c m =
      if contains c.track_id m.track_ids || contains c.index m.detection_indices
      then m
      else record {
        objects = put c.track_id (fresh_object c.track_id c.seen) m.objects;
        track_ids = c.track_id ∷ m.track_ids;
        detection_indices = c.index ∷ m.detection_indices;
      }

  pub match_pairs : List Candidate → Matched → Matched
  unfolding match_pair
  match_pairs [] m = m
  match_pairs (c ∷ cs) m = match_pairs cs (match_pair c m)

  -- The loop that makes a new track of each detection without a match.
  pub add_tracks : List (ℕ × Observation) → ℕ → Table TrackedObject → ℕ × Table TrackedObject
  add_tracks [] next_id objects = (next_id, objects)
  add_tracks ((i, d) ∷ ds) next_id objects =
      add_tracks ds (next_id + 1) (put next_id (fresh_object next_id d) objects)

  -- `_age_unmatched`: each object of the set is one frame older, and dropped beyond the limit. The
  -- visits do not touch one another's objects, so the order of the set is of no effect.
  pub age_unmatched : (ℕ → Bool) → ℕ → Table TrackedObject → Table TrackedObject
  age_unmatched unmatched max_age [] = []
  age_unmatched unmatched max_age ((id, o) ∷ os) =
      let rest = age_unmatched unmatched max_age os in
      if unmatched id
      then (if ltb max_age (o.age_frames_unseen + 1)
          then rest
          else (id, record o { age_frames_unseen = o.age_frames_unseen + 1 }) ∷ rest)
      else (id, o) ∷ rest

  abbrev pub ids : Table TrackedObject → List ℕ
  ids [] = []
  ids ((id, _) ∷ os) = id ∷ ids os

  module _ (S : SetOrder) where
    pub sorted_pairs : CentroidTracker → List Observation → List Candidate
    unfolding sort_pairs candidate_pairs distance
    sorted_pairs t detections = sort_pairs (
        candidate_pairs t.max_distance (S.order Observation (enumerate 0 detections))
          (S.order TrackedObject t.objects))

    abbrev pub unmatched_yet : CentroidTracker → Matched
    unmatched_yet t = record { objects = t.objects; track_ids = []; detection_indices = [] }

    -- The state after the matching loop.
    unfoldable pub matching : CentroidTracker → List Observation → Matched
    unfolding match_pairs sorted_pairs
    matching t detections = match_pairs (sorted_pairs t detections) (unmatched_yet t)

    -- The detections that no track was matched with, in the order of the set.
    pub leftover : List Observation → Matched → List (ℕ × Observation)
    unfolding contains
    leftover detections m =
        S.order Observation
          (keep (λ e. not (contains e.0 m.detection_indices)) (enumerate 0 detections))

    unfoldable pub update : CentroidTracker → List Observation → CentroidTracker
    unfolding matching leftover add_tracks age_unmatched contains
    update t [] = record t { objects = age_unmatched (λ id. true) t.max_age_frames t.objects }
    update t (d ∷ ds) =
        let m = matching t (d ∷ ds) in
        let (next, objects) = add_tracks (leftover (d ∷ ds) m) t.next_id m.objects in
        let unmatched = λ (id : ℕ). contains id (ids t.objects) && not (contains id m.track_ids) in
        record t { next_id = next; objects = age_unmatched unmatched t.max_age_frames objects }
