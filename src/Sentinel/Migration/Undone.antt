-- ===== src/Sentinel/Migration/Undone.antt =====
-- `downgrade` undoes `upgrade`.
use cat_sentinel.Prelude.{
  ◌≡◌, refl, subst, Bool, true, false, List, [], ◌∷◌, ◌++◌, Option, none, some, arith, All,
  if◌then◌else◌, Option-cases, inl, inr,
}
use cat_sentinel.Sentinel.Migration.{
  Operation, create_table, create_index, drop_index, drop_table, upgrade, downgrade,
}

-- What drops that which an operation has created; a drop is not undone.
abbrev pub undo : Operation → Operation
undo (create_table table columns unique foreign_keys) = drop_table table
undo (create_index index table column) = drop_index index table
undo o = o

abbrev pub is_create : Operation → Bool
is_create (create_table table columns unique foreign_keys) = true
is_create (create_index index table column) = true
is_create o = false

-- A database: an operation that it refuses gives `none`, and what an operation has created can be dropped
-- at once, which leaves the database as it was before.
pub record Database : Type 1 where
  pub State : Type 0
  pub apply : Operation → State → Option State
  pub apply-undo :
      (o : Operation) (s s' : State)
      → is_create o ≡ true
      → apply o s ≡ some s'
      → apply (undo o) s' ≡ some s

module _ (D : Database) where
  -- The operations of a script, up to the first that is refused.
  unfoldable pub run : List Operation → D.State → Option D.State
  run [] s = some s
  run (o ∷ os) s = elim (D.apply o s) [ none ↦ none | some s' ↦ run os s' ]

  run-append :
      (os ps : List Operation) (s s' s'' : D.State)
      → run os s ≡ some s'
      → run ps s' ≡ some s''
      → run (os ++ ps) s ≡ some s''
  unfolding run
  run-append [] ps s s' s'' e f = ground (arith, e, f)
  run-append (o ∷ os) ps s s' s'' e f = elim (Option-cases (D.apply o s)) [
    | inl refused ↦ absurd (ground (arith, e, refused))
    | inr (t, done) ↦ ground (arith, done, run-append os ps t s' s'' (ground (arith, e, done)) f)
  ]

-- `all(test(o) for o in os)`
abbrev all : (Operation → Bool) → List Operation → Bool
all test [] = true
all test (o ∷ os) = if test o then all test os else false

-- The undoing of a script: that of its operations, the last one first.
unfoldable pub undo_all : List Operation → List Operation
undo_all [] = []
undo_all (o ∷ os) = undo_all os ++ undo o ∷ []

undo_all-upgrade : undo_all upgrade ≡ downgrade
unfolding undo_all upgrade downgrade
undo_all-upgrade = refl

all-All : (os : List Operation) → all is_create os ≡ true → All (λ o. is_create o ≡ true) os
all-All [] h = tt
all-All (o ∷ os) h = (ground (arith, h), all-All os (ground (arith, h)))

upgrade-creates : All (λ o. is_create o ≡ true) upgrade
unfolding upgrade
upgrade-creates = all-All upgrade refl

module _ (D : Database) where
  run-undo_all :
      (os : List Operation) (s s' : D.State)
      → All (λ o. is_create o ≡ true) os
      → run D os s ≡ some s'
      → run D (undo_all os) s' ≡ some s
  unfolding run undo_all
  run-undo_all [] s s' creates e = ground (arith, e)
  run-undo_all (o ∷ os) s s' (c, cs) e = elim (Option-cases (D.apply o s)) [
    | inl refused ↦ absurd (ground (arith, e, refused))
    | inr (t, done) ↦
        run-append D (undo_all os) (undo o ∷ []) s' t s
          (run-undo_all os t s' cs (ground (arith, e, done)))
          (ground (arith, D.apply-undo o s t c done))
  ]

  -- On every database in which a drop undoes a creation: when the upgrade goes through, the downgrade goes
  -- through behind it, and leaves the database as it was.
  pub run-downgrade : (s s' : D.State) → run D upgrade s ≡ some s' → run D downgrade s' ≡ some s
  run-downgrade s s' e =
      subst (λ os. run D os s' ≡ some s) undo_all-upgrade
        (run-undo_all upgrade s s' upgrade-creates e)
