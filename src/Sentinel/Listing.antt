-- ===== src/Sentinel/Listing.antt =====
-- The lists that the routes of cat-sentinel give page by page: `Pagination` of
-- cat-sentinel/app/core/dependencies.py, and `list` of the repositories of detections, alerts, activities
-- and cats. The database's `ORDER BY ... DESC` is an argument: rows of one time come in an order of its own.
pub mod Pages
mod Tests
use cat_sentinel.Prelude.{
  ℕ, ◌≤◌, ◌≡◌, Bool, true, false, ◌&&◌, List, [], ◌∷◌, Option, none, some, keep, take, drop, leb,
  ◌==◌, All, length, if◌then◌else◌,
}
use cat_sentinel.Prelude.Int.{ℤ, pos, negsuc}
use cat_sentinel.Prelude.Floats.{Floats}
use cat_sentinel.Sentinel.Cats.{Cat}
use cat_sentinel.Sentinel.Alerts.{Alert}
use cat_sentinel.Sentinel.Pipeline.{Detection, Activity}

pub record Pagination : Type 0 where
  pub limit : ℕ
  pub offset : ℕ

-- `Query(ge=1, le=200)` with its default, 50
unfoldable pub valid_limit : Option ℤ → Option ℕ
valid_limit none = some 50
valid_limit (some (pos n)) = if leb 1 n && leb n 200 then some n else none
valid_limit (some (negsuc n)) = none

-- `Query(ge=0)` with its default, 0
unfoldable pub valid_offset : Option ℤ → Option ℕ
valid_offset none = some 0
valid_offset (some (pos n)) = some n
valid_offset (some (negsuc n)) = none

-- The parameters of a request; `none` is the 422 of the validation.
unfoldable pub pagination : (limit offset : Option ℤ) → Option Pagination
unfolding valid_limit valid_offset
pagination limit offset = elim (valid_limit limit) [
  | none ↦ none
  | some l ↦ elim (valid_offset offset) [
    | none ↦ none
    | some o ↦ some (record { limit = l; offset = o })
  ]
]

-- A row with the time that the database has given it.
pub record Row (A : Type 0) : Type 0 where
  pub created_at : ℕ
  pub value : A

-- The newest row is first.
abbrev pub IsNewestFirst : {A : Type 0} → List (Row A) → Type 0
IsNewestFirst [] = Unit
IsNewestFirst (r ∷ rs) = All (λ s. s.created_at ≤ r.created_at) rs × IsNewestFirst rs

-- `order_by(created_at.desc())`: the same rows, sorted by their time.
pub record OrderBy (A : Type 0) : Type 1 where
  pub order : List (Row A) → List (Row A)
  pub order_sorted : (rs : List (Row A)) → IsNewestFirst (order rs)
  pub order_all : (P : Row A → Type 0) (rs : List (Row A)) → All P rs → All P (order rs)
  pub order_length : (rs : List (Row A)) → length (order rs) ≡ length rs

-- `.limit(limit).offset(offset)`
unfoldable pub page : {A : Type 0} → Pagination → List A → List A
page p rows = take p.limit (drop p.offset rows)

-- `if value is not None: stmt = stmt.where(...)`
unfoldable pub where_equals :
    {A B : Type 0} → (A → B → Bool) → Option B → List (Row A) → List (Row A)
where_equals test none rows = rows
where_equals test (some b) rows = keep (λ r. test r.value b) rows

abbrev pub same_bool : Bool → Bool → Bool
same_bool true b = b
same_bool false true = false
same_bool false false = true

module _ (F : Floats) where
  abbrev pub of_cat : Detection F → ℕ → Bool
  of_cat d cat_id = d.cat_id == cat_id

  abbrev pub in_zone_is : Detection F → Bool → Bool
  in_zone_is d b = same_bool d.in_danger_zone b

  -- `DetectionRepository.list`
  unfoldable pub list_detections :
      OrderBy (Detection F)
      → (cat_id : Option ℕ) (in_danger_zone : Option Bool) → Pagination
      → List (Row (Detection F))
      → List (Row (Detection F))
  unfolding page where_equals
  list_detections O cat_id in_danger_zone p rows =
      page p (O.order (where_equals in_zone_is in_danger_zone (where_equals of_cat cat_id rows)))

  -- `ActivityRepository.list`
  unfoldable pub list_activities :
      OrderBy (Activity F) → Pagination → List (Row (Activity F)) → List (Row (Activity F))
  unfolding page
  list_activities O p rows = page p (O.order rows)

-- `AlertRepository.list`
unfoldable pub list_alerts : OrderBy Alert → Pagination → List (Row Alert) → List (Row Alert)
unfolding page
list_alerts O p rows = page p (O.order rows)

-- `CatRepository.list`, with no ORDER BY: in the order in which the database has the rows.
unfoldable pub list_cats : Pagination → List (ℕ × Cat) → List (ℕ × Cat)
unfolding page
list_cats p rows = page p rows
