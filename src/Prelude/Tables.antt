-- ===== src/Prelude/Tables.antt =====
-- A database table with a primary key and one unique constraint: what a commit of one row does.
-- `column` is what the constraint is on. A commit that would break it changes nothing.
use Prim.Native.Nat.{ℕ, suc}
use mathlib.Core.Path.{◌≡◌, refl}
use mathlib.Core.Logic.{◌≢◌, inl, inr, ite}
use mathlib.Core.Bool.{Bool, true, false}
use mathlib.Core.List.{[], ◌∷◌}
use mathlib.Core.Option.{Option, none, some}
use native.Mathlib.Decide.{ℕ_discrete}
use native.Mathlib.Omega.{arith}
use cat_sentinel.Prelude.Tests.{if◌then◌else◌, Bool-cases, Option-cases}
use cat_sentinel.Prelude.Lists.{length}
use cat_sentinel.Prelude.Dicts.{
  Dict, lookup, insert, erase, lookup-insert_self, lookup-insert_ne, lookup-erase_ne,
  lookup-erase_self, Distinct,
}

abbrev pub Table : Type 0 → Type 0
Table V = Dict ℕ V

module _ {V : Type 0} where
  abbrev pub find : ℕ → Table V → Option V
  find = lookup ℕ_discrete

  abbrev pub put : ℕ → V → Table V → Table V
  put = insert ℕ_discrete

  abbrev pub remove : ℕ → Table V → Table V
  remove = erase ℕ_discrete

  -- `find` after `put`, in one equation.
  pub find-put :
      (j k : ℕ) (v : V) (t : Table V)
      → find j (put k v t) ≡ ite (ℕ_discrete j k) (some v) (find j t)
  find-put j k v t =
      elim (ℕ_discrete j k) as (λ d. find j (put k v t) ≡ ite d (some v) (find j t)) [
        | yes e ↦ cc (e, lookup-insert_self ℕ_discrete k v t)
        | no n ↦ lookup-insert_ne ℕ_discrete j k v t n
      ]

  pub length-put_new :
      (k : ℕ) (v : V) (t : Table V) → find k t ≡ none → length (put k v t) ≡ suc (length t)
  unfolding lookup insert
  length-put_new k v [] h = refl
  length-put_new k v (r ∷ t) h = ground (arith, length-put_new k v t)

  pub length-put_old :
      (k : ℕ) (v w : V) (t : Table V) → find k t ≡ some w → length (put k v t) ≡ length t
  unfolding lookup insert
  length-put_old k v w [] h = cc
  length-put_old k v w (r ∷ t) h = ground (arith, length-put_old k v w t)

module _ {V C : Type 0} (column : V → C) (dec : Discrete C) where
  -- Another row than `id` has the value `c` in the column.
  unfoldable pub taken : ℕ → C → Table V → Bool
  taken id c [] = false
  taken id c ((j, w) ∷ t) =
      ite (dec (column w) c) (ite (ℕ_discrete j id) (taken id c t) true) (taken id c t)

  -- `none` is IntegrityError, after which the session is rolled back.
  unfoldable pub commit : ℕ → V → Table V → Option (Table V)
  unfolding taken
  commit id v t = if taken id (column v) t then none else some (put id v t)

  -- `select(...).where(column == c)`: the row and its key.
  unfoldable pub find_by : C → Table V → Option (ℕ × V)
  find_by c [] = none
  find_by c ((j, w) ∷ t) = ite (dec (column w) c) (some (j, w)) (find_by c t)

  -- No two rows agree in the column.
  abbrev pub Unique : Table V → Type 0
  Unique t =
      (i j : ℕ) (v w : V) → find i t ≡ some v → find j t ≡ some w → column v ≡ column w → i ≡ j

  pub taken_free :
      (id : ℕ) (c : C) (t : Table V) (j : ℕ) (w : V)
      → taken id c t ≡ false
      → find j t ≡ some w
      → column w ≡ c
      → j ≡ id
  unfolding taken lookup
  taken_free id c [] j w h e q = cc
  taken_free id c (r ∷ t) j w h e q = ground (arith, taken_free id c t j w)

  pub taken_by :
      (id : ℕ) (c : C) (t : Table V) (j : ℕ) (w : V)
      → find j t ≡ some w
      → column w ≡ c
      → j ≢ id
      → taken id c t ≡ true
  unfolding taken lookup
  taken_by id c [] j w e q n = cc
  taken_by id c (r ∷ t) j w e q n = ground (arith, taken_by id c t j w)

  pub put-Unique :
      (id : ℕ) (v : V) (t : Table V)
      → Unique t
      → taken id (column v) t ≡ false
      → Unique (put id v t)
  put-Unique id v t u free i j x y ei ej q = ground (
    arith,
    find-put i id v t,
    find-put j id v t,
    u i j x y,
    taken_free id (column v) t j y free,
    taken_free id (column v) t i x free,
  )

  pub remove-Unique :
      (id : ℕ) (t : Table V) → Distinct ℕ_discrete t → Unique t → Unique (remove id t)
  remove-Unique id t d u i j x y ei ej q = ground (
    arith,
    lookup-erase_ne ℕ_discrete i id t,
    lookup-erase_ne ℕ_discrete j id t,
    lookup-erase_self ℕ_discrete id t d,
    u i j x y,
  )

  pub find_by_found :
      (c : C) (t : Table V) (id : ℕ) (v : V)
      → Distinct ℕ_discrete t
      → find_by c t ≡ some (id, v)
      → (column v ≡ c) × (find id t ≡ some v)
  unfolding find_by lookup
  find_by_found c [] id v d h = cc
  find_by_found c (r ∷ t) id v d h = ground (arith, find_by_found c t id v d.1)

  pub find_by_absent :
      (c : C) (t : Table V) (j : ℕ) (w : V) → find_by c t ≡ none → find j t ≡ some w → column w ≢ c
  unfolding find_by lookup
  find_by_absent c [] j w h e = cc
  find_by_absent c (r ∷ t) j w h e = ground (arith, find_by_absent c t j w)

  -- A value that is taken stands in some other row.
  pub taken_witness :
      (id : ℕ) (c : C) (t : Table V)
      → Distinct ℕ_discrete t
      → taken id c t ≡ true
      → (j : ℕ) × (w : V) × (find j t ≡ some w) × (column w ≡ c) × (j ≢ id)
  unfolding taken lookup
  taken_witness id c [] d h = absurd (ground arith)
  taken_witness id c ((k, x) ∷ t) d h = elim (Bool-cases (taken id c t)) [
    | inl later ↦ let (j, w, e, q, n) = taken_witness id c t d.1 later in (j, w, ground arith, q, n)
    | inr not_later ↦ (k, x, ground arith, ground arith, ground arith)
  ]

  -- The unique constraint never blocks a row that keeps its value.
  pub taken_own :
      (id : ℕ) (v : V) (t : Table V)
      → Distinct ℕ_discrete t
      → Unique t
      → find id t ≡ some v
      → taken id (column v) t ≡ false
  taken_own id v t d u e = elim (Bool-cases (taken id (column v) t)) [
    | inr free ↦ free
    | inl clash ↦
        let (j, w, found, same, other) = taken_witness id (column v) t d clash in
        absurd (other (u j id w v found e same))
  ]

  -- A row is found by its value in the column.
  pub find_by-find :
      (id : ℕ) (v : V) (t : Table V)
      → Distinct ℕ_discrete t
      → Unique t
      → find id t ≡ some v
      → find_by (column v) t ≡ some (id, v)
  find_by-find id v t d u stored = elim (Option-cases (find_by (column v) t)) [
    | inl e ↦ absurd (find_by_absent (column v) t id v e stored refl)
    | inr ((i, w), e) ↦
        let (same, found) = find_by_found (column v) t i w d e in
        let i_eq = u i id w v found stored same in cc (e, found, i_eq, stored)
  ]
