-- ===== src/Sentinel/Tracker/Tests.antt =====
-- The frames of test_tracker.py in whole pixels, and the theorems at those inputs.
use cat_sentinel.Prelude.{ℕ, ◌≡◌, refl, ◌⊎◌, true, [], ◌∷◌, arith, ℕ_discrete, lookup, insert}
use cat_sentinel.Prelude.Int.{pos}
use cat_sentinel.Prelude.Floats.{scaled}
use cat_sentinel.Sentinel.Tracker.{
  in_order, Observation, TrackedObject, CentroidTracker, BoundingBox, new_tracker, update, matching,
  contains,
}
use cat_sentinel.Sentinel.Tracker.Update.{IsValid, update-IsValid}
use cat_sentinel.Sentinel.Tracker.Matching.{matching_maximal}

program : Unit {0}
unfolding scaled new_tracker update matching contains ℕ_discrete lookup insert
program = tt

abbrev box : BoundingBox scaled
unfolding scaled
box = record { left = pos 0; top = pos 0; right = pos 10; bottom = pos 10 }

abbrev cat_at : ℕ → ℕ → Observation scaled
unfolding scaled
cat_at x y = (box, (pos x, pos y))

-- `scaled` measures squared distances, so this is a limit of 50 pixels.
abbrev start : CentroidTracker scaled
unfolding scaled new_tracker
start = new_tracker scaled (pos 2500) 2

abbrev seen_at : ℕ → ℕ → ℕ → ℕ → TrackedObject scaled
unfolding scaled
seen_at id age x y = record {
  track_id = id;
  centroid = (pos x, pos y);
  bbox = box;
  age_frames_unseen = age;
}

abbrev one : CentroidTracker scaled
unfolding scaled
one = record {
  max_distance = pos 2500;
  max_age_frames = 2;
  next_id = 2;
  objects = (1, seen_at 1 0 5 5) ∷ [];
}

first_frame : update scaled in_order start (cat_at 5 5 ∷ []) ≡ one
unfolding program
first_frame = refl

-- The cat moves 3 pixels, and a second one comes in far away.
second_frame :
    (update scaled in_order one (cat_at 200 200 ∷ cat_at 8 5 ∷ [])).objects
    ≡ (1, seen_at 1 0 8 5) ∷ (2, seen_at 2 0 200 200) ∷ []
unfolding program
second_frame = refl

three_empty_frames :
    (update scaled in_order (update scaled in_order (update scaled in_order one []) []) []).objects
    ≡ []
unfolding program
three_empty_frames = refl

one-IsValid : IsValid scaled one
unfolding program
one-IsValid = record { distinct = (refl, tt); sound = λ id o e. ground arith }

update-IsValid_example : IsValid scaled (update scaled in_order one (cat_at 8 5 ∷ []))
update-IsValid_example = update-IsValid scaled in_order one (cat_at 8 5 ∷ []) one-IsValid

matching_maximal_example :
    (contains 1 (matching scaled in_order one (cat_at 8 5 ∷ [])).track_ids ≡ true)
    ⊎ (contains 0 (matching scaled in_order one (cat_at 8 5 ∷ [])).detection_indices ≡ true)
unfolding program
matching_maximal_example =
    matching_maximal scaled in_order one (cat_at 8 5 ∷ []) 1 0 (seen_at 1 0 5 5) (cat_at 8 5) refl
      refl refl
