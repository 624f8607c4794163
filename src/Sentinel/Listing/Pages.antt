-- ===== src/Sentinel/Listing/Pages.antt =====
-- What a page holds, and that the pages make up the list.
use cat_sentinel.Prelude.{
  ℕ, zero, suc, ◌+◌, ◌*◌, ◌≤◌, ◌≡◌, refl, sym, ap, ◌∙◌, Bool, true, List, [], ◌∷◌, ◌++◌, Option,
  none, some, keep, take, drop, All, length, length-take, arith, Bool-cases, inl, inr, subst,
}
use cat_sentinel.Prelude.Int.{ℤ, pos, negsuc}
use cat_sentinel.Prelude.Floats.{Floats}
use cat_sentinel.Sentinel.Pipeline.{Detection}
use cat_sentinel.Sentinel.Listing.{
  Pagination, valid_limit, valid_offset, pagination, Row, IsNewestFirst, OrderBy, page,
  where_equals, of_cat, in_zone_is, list_detections,
}

module _ {A : Type 0} where
  All-take : (P : A → Type 0) (n : ℕ) (xs : List A) → All P xs → All P (take n xs)
  All-take P zero xs a = tt
  All-take P (suc n) [] a = tt
  All-take P (suc n) (x ∷ xs) (p, ps) = (p, All-take P n xs ps)

  All-drop : (P : A → Type 0) (n : ℕ) (xs : List A) → All P xs → All P (drop n xs)
  All-drop P zero xs a = a
  All-drop P (suc n) [] a = tt
  All-drop P (suc n) (x ∷ xs) (p, ps) = All-drop P n xs ps

  All-keep : (P : A → Type 0) (f : A → Bool) (xs : List A) → All P xs → All P (keep f xs)
  All-keep P f [] a = tt
  All-keep P f (x ∷ xs) (p, ps) = elim (Bool-cases (f x)) [
    | inl e ↦ subst (All P) {x = x ∷ keep f xs} (ground (arith, e)) (p, All-keep P f xs ps)
    | inr e ↦ subst (All P) {x = keep f xs} (ground (arith, e)) (All-keep P f xs ps)
  ]

  keep-All : (f : A → Bool) (xs : List A) → All (λ x. f x ≡ true) (keep f xs)
  keep-All f [] = tt
  keep-All f (x ∷ xs) = elim (Bool-cases (f x)) [
    | inl e ↦
        subst (All (λ y. f y ≡ true)) {x = x ∷ keep f xs} (ground (arith, e)) (e, keep-All f xs)
    | inr e ↦ subst (All (λ y. f y ≡ true)) {x = keep f xs} (ground (arith, e)) (keep-All f xs)
  ]

  All-true : (xs : List A) → All (λ _. Unit {0}) xs
  All-true [] = tt
  All-true (x ∷ xs) = (tt, All-true xs)

  drop_nil : (n : ℕ) → drop {A = A} n [] ≡ []
  drop_nil zero = refl
  drop_nil (suc n) = refl

  drop-drop : (n m : ℕ) (xs : List A) → drop m (drop n xs) ≡ drop (n + m) xs
  drop-drop zero m xs = ap (λ k. drop k xs) {x = m} {y = 0 + m} (omega arith)
  drop-drop (suc n) m [] = drop_nil m ∙ sym (drop_nil (suc n + m))
  drop-drop (suc n) m (x ∷ xs) =
      drop-drop n m xs ∙ ap (λ k. drop k (x ∷ xs)) {x = suc (n + m)} {y = suc n + m} (omega arith)

  take-append-drop : (n : ℕ) (xs : List A) → take n xs ++ drop n xs ≡ xs
  take-append-drop zero xs = refl
  take-append-drop (suc n) [] = refl
  take-append-drop (suc n) (x ∷ xs) = ap (λ r. x ∷ r) (take-append-drop n xs)

  drop_all : (n : ℕ) (xs : List A) → length xs ≤ n → drop n xs ≡ []
  drop_all zero [] few = refl
  drop_all zero (x ∷ xs) few = absurd (omega (arith, few))
  drop_all (suc n) [] few = refl
  drop_all (suc n) (x ∷ xs) few = drop_all n xs (omega (arith, few))

  -- The next pages from `offset` on, one behind the other.
  unfoldable pub pages : (count limit offset : ℕ) → List A → List A
  pages zero limit offset rows = []
  pages (suc count) limit offset rows =
      page (record { limit = limit; offset = offset }) rows
      ++ pages count limit (offset + limit) rows

  -- Pages that follow one another hold each row of the list once, and in its order, as soon as there are
  -- enough of them; the list being the same for all of them.
  pub pages_all :
      (count limit offset : ℕ) (rows : List A)
      → length rows ≤ offset + count * limit
      → pages count limit offset rows ≡ drop offset rows
  unfolding pages page
  pages_all zero limit offset rows few = sym (drop_all offset rows (ground (arith, few)))
  pages_all (suc count) limit offset rows few =
      ap (λ r. take limit (drop offset rows) ++ r)
        (pages_all count limit (offset + limit) rows (ground (arith, few))
          ∙ sym (drop-drop offset limit rows))
      ∙ take-append-drop limit (drop offset rows)

IsNewestFirst-take :
    {A : Type 0} (n : ℕ) (rs : List (Row A)) → IsNewestFirst rs → IsNewestFirst (take n rs)
IsNewestFirst-take zero rs s = tt
IsNewestFirst-take (suc n) [] s = tt
IsNewestFirst-take (suc n) (r ∷ rs) (a, s) =
    (All-take (λ q. q.created_at ≤ r.created_at) n rs a, IsNewestFirst-take n rs s)

IsNewestFirst-drop :
    {A : Type 0} (n : ℕ) (rs : List (Row A)) → IsNewestFirst rs → IsNewestFirst (drop n rs)
IsNewestFirst-drop zero rs s = s
IsNewestFirst-drop (suc n) [] s = tt
IsNewestFirst-drop (suc n) (r ∷ rs) (a, s) = IsNewestFirst-drop n rs s

-- The test that a parameter of the request asks of a value, if it is given.
abbrev pub Asked : {A B : Type 0} → (A → B → Bool) → Option B → Row A → Type 0
Asked test none r = Unit
Asked test (some b) r = test r.value b ≡ true

where_equals-Asked :
    {A B : Type 0} (test : A → B → Bool) (o : Option B) (rs : List (Row A))
    → All (Asked test o) (where_equals test o rs)
unfolding where_equals
where_equals-Asked test none rs = All-true rs
where_equals-Asked test (some b) rs = keep-All (λ r. test r.value b) rs

where_equals-All :
    {A B : Type 0} (P : Row A → Type 0) (test : A → B → Bool) (o : Option B) (rs : List (Row A))
    → All P rs
    → All P (where_equals test o rs)
unfolding where_equals
where_equals-All P test none rs a = a
where_equals-All P test (some b) rs a = All-keep P (λ r. test r.value b) rs a

pagination-limit :
    (limit offset : Option ℤ) (p : Pagination) → pagination limit offset ≡ some p → p.limit ≤ 200
unfolding pagination valid_limit valid_offset
pagination-limit none none p e = ground (arith, e)
pagination-limit none (some (pos o)) p e = ground (arith, e)
pagination-limit none (some (negsuc o)) p e = absurd (ground (arith, e))
pagination-limit (some (negsuc n)) offset p e = absurd (ground (arith, e))
pagination-limit (some (pos n)) none p e = ground (arith, e)
pagination-limit (some (pos n)) (some (pos o)) p e = ground (arith, e)
pagination-limit (some (pos n)) (some (negsuc o)) p e = absurd (ground (arith, e))

module _ (F : Floats) where
  -- For every request that the validation lets through: the answer has at most as many detections as its
  -- limit, which is at most 200, the newest first, and each is of the cat and of the kind that were
  -- asked for.
  pub list_detections-bounds :
      (O : OrderBy (Detection F)) (limit offset : Option ℤ) (p : Pagination) (cat_id : Option ℕ)
      (in_danger_zone : Option Bool) (rows : List (Row (Detection F)))
      → pagination limit offset ≡ some p
      → let answer = list_detections F O cat_id in_danger_zone p rows in
        (length answer ≤ p.limit)
        × (p.limit ≤ 200)
        × IsNewestFirst answer
        × All (Asked (of_cat F) cat_id) answer
        × All (Asked (in_zone_is F) in_danger_zone) answer
  unfolding list_detections page
  list_detections-bounds O limit offset p cat_id in_danger_zone rows valid =
      let of_cats = where_equals (of_cat F) cat_id rows in
      let asked = where_equals (in_zone_is F) in_danger_zone of_cats in
      let sorted = O.order asked in
      let on_page : (P : Row (Detection F) → Type 0)
          → All P asked
          → All P (take p.limit (drop p.offset sorted)) =
        λ P a.
          All-take P p.limit (drop p.offset sorted)
            (All-drop P p.offset sorted (O.order_all P asked a)) in
      (
        omega (arith, length-take p.limit (drop p.offset sorted)),
        pagination-limit limit offset p valid,
        IsNewestFirst-take p.limit (drop p.offset sorted)
            (IsNewestFirst-drop p.offset sorted (O.order_sorted asked)),
        on_page (Asked (of_cat F) cat_id) (
            where_equals-All (Asked (of_cat F) cat_id) (in_zone_is F) in_danger_zone of_cats
              (where_equals-Asked (of_cat F) cat_id rows)),
        on_page (Asked (in_zone_is F) in_danger_zone)
            (where_equals-Asked (in_zone_is F) in_danger_zone of_cats),
      )
