-- ===== src/Sentinel/Listing/Tests.antt =====
-- A database that sorts by insertion, and two detections in it.
use cat_sentinel.Prelude.{
  ℕ, suc, ◌≤◌, ◌≡◌, refl, ap, ◌∙◌, Bool, true, false, List, [], ◌∷◌, none, some, All, length, leb,
  arith, Bool-cases, inl, inr, if◌then◌else◌, subst, leb→le,
}
use cat_sentinel.Prelude.Int.{pos}
use cat_sentinel.Prelude.Floats.{scaled}
use cat_sentinel.Sentinel.Pipeline.{Detection}
use cat_sentinel.Sentinel.Listing.{
  Row, IsNewestFirst, OrderBy, of_cat, in_zone_is, list_detections, pagination, valid_limit,
  valid_offset,
}
use cat_sentinel.Sentinel.Listing.Pages.{Asked, list_detections-bounds}

module _ {A : Type 0} where
  insert_row : Row A → List (Row A) → List (Row A)
  insert_row r [] = r ∷ []
  insert_row r (s ∷ rs) =
      let later = insert_row r rs in if leb s.created_at r.created_at then r ∷ s ∷ rs else s ∷ later

  sort_rows : List (Row A) → List (Row A)
  unfolding insert_row
  sort_rows [] = []
  sort_rows (r ∷ rs) = insert_row r (sort_rows rs)

  insert_row-All :
      (P : Row A → Type 0) (r : Row A) (rs : List (Row A))
      → P r
      → All P rs
      → All P (insert_row r rs)
  unfolding insert_row
  insert_row-All P r [] p a = (p, tt)
  insert_row-All P r (s ∷ rs) p (q, qs) = elim (Bool-cases (leb s.created_at r.created_at)) [
    | inl e ↦ subst (All P) {x = r ∷ s ∷ rs} (ground (arith, e)) (p, (q, qs))
    | inr e ↦
        subst (All P) {x = s ∷ insert_row r rs} (ground (arith, e)) (q, insert_row-All P r rs p qs)
  ]

  All-le :
      (n m : ℕ) (rs : List (Row A))
      → n ≤ m
      → All (λ q. q.created_at ≤ n) rs
      → All (λ q. q.created_at ≤ m) rs
  All-le n m [] le a = tt
  All-le n m (r ∷ rs) le (p, ps) = (omega (arith, le, p), All-le n m rs le ps)

  insert_row-IsNewestFirst :
      (r : Row A) (rs : List (Row A)) → IsNewestFirst rs → IsNewestFirst (insert_row r rs)
  unfolding insert_row
  insert_row-IsNewestFirst r [] s = (tt, tt)
  insert_row-IsNewestFirst r (q ∷ rs) (a, s) = elim (Bool-cases (leb q.created_at r.created_at)) [
    | inl e ↦
        let le = leb→le q.created_at r.created_at e in
        subst IsNewestFirst {x = r ∷ q ∷ rs} (ground (arith, e))
          ((le, All-le q.created_at r.created_at rs le a), (a, s))
    | inr e ↦ subst IsNewestFirst {x = q ∷ insert_row r rs} (ground (arith, e)) (
      insert_row-All (λ x. x.created_at ≤ q.created_at) r rs (ground (arith, e)) a,
      insert_row-IsNewestFirst r rs s,
    )
  ]

  length-insert_row : (r : Row A) (rs : List (Row A)) → length (insert_row r rs) ≡ suc (length rs)
  unfolding insert_row
  length-insert_row r [] = refl
  length-insert_row r (q ∷ rs) = ground (arith, length-insert_row r rs)

  sort_rows-IsNewestFirst : (rs : List (Row A)) → IsNewestFirst (sort_rows rs)
  unfolding sort_rows
  sort_rows-IsNewestFirst [] = tt
  sort_rows-IsNewestFirst (r ∷ rs) =
      insert_row-IsNewestFirst r (sort_rows rs) (sort_rows-IsNewestFirst rs)

  sort_rows-All : (P : Row A → Type 0) (rs : List (Row A)) → All P rs → All P (sort_rows rs)
  unfolding sort_rows
  sort_rows-All P [] a = tt
  sort_rows-All P (r ∷ rs) (p, ps) = insert_row-All P r (sort_rows rs) p (sort_rows-All P rs ps)

  length-sort_rows : (rs : List (Row A)) → length (sort_rows rs) ≡ length rs
  unfolding sort_rows
  length-sort_rows [] = refl
  length-sort_rows (r ∷ rs) = length-insert_row r (sort_rows rs) ∙ ap suc (length-sort_rows rs)

abbrev by_time : OrderBy (Detection scaled)
by_time = record {
  order = sort_rows;
  order_sorted = sort_rows-IsNewestFirst;
  order_all = sort_rows-All;
  order_length = length-sort_rows;
}

abbrev seen : ℕ → Bool → Row (Detection scaled)
unfolding scaled
seen time in_zone = record {
  created_at = time;
  value = record {
    cat_id = 1;
    camera_id = "default";
    zone_id = none;
    bbox = record { left = pos 0; top = pos 0; right = pos 4; bottom = pos 4 };
    centroid = (pos 2, pos 2);
    in_danger_zone = in_zone;
    confidence = pos 9;
  };
}

abbrev rows : List (Row (Detection scaled))
rows = seen 3 false ∷ seen 8 true ∷ seen 5 true ∷ []

list_detections-bounds_example :
    let answer =
      list_detections scaled by_time (some 1) (some true) (record { limit = 1; offset = 0 }) rows in
    (length answer ≤ 1)
    × (1 ≤ 200)
    × IsNewestFirst answer
    × All (Asked (of_cat scaled) (some 1)) answer
    × All (Asked (in_zone_is scaled) (some true)) answer
unfolding pagination valid_limit valid_offset
list_detections-bounds_example =
    list_detections-bounds scaled by_time (some (pos 1)) none (record { limit = 1; offset = 0 })
      (some 1) (some true) rows refl
