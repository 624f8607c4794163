-- ===== src/Camera/Recordings/Reconciled.antt =====
-- What `reconcile` does to each row.
use cat_sentinel.Prelude.{
  ℕ, ◌≡◌, ◌≢◌, refl, ap, ◌∙◌, subst, inl, inr, String, true, List, [], ◌∷◌, Option, none, some,
  arith, ℕ_discrete, lookup, Distinct, Option-cases, Bool-cases, lookup-insert_self,
  lookup-insert_ne,
}
use cat_sentinel.Prelude.Tables.{Table, find}
use cat_sentinel.Camera.Recordings.{
  RecordingStatus, recording, completed, failed, missing, Recording, is_missing, is_settled,
  same_size, fix_up, put_if, reconcile_rows, reconcile,
}

-- A row as `reconcile` leaves it.
abbrev pub fixed : (String → Option ℕ) → Recording → Recording
fixed on_disk r = elim (fix_up (on_disk r.filename) r) [ none ↦ r | some r' ↦ r' ]

abbrev pub fixed? : (String → Option ℕ) → Option Recording → Option Recording
fixed? on_disk none = none
fixed? on_disk (some r) = some (fixed on_disk r)

find-put_if_self :
    (id : ℕ) (o : Option Recording) (r : Recording) (t : Table Recording)
    → find id t ≡ some r
    → find id (put_if id o t) ≡ some (elim o [ none ↦ r | some r' ↦ r' ])
find-put_if_self id none r t e = e
find-put_if_self id (some r') r t e = lookup-insert_self ℕ_discrete id r' t

find-put_if_ne :
    (j id : ℕ) (o : Option Recording) (t : Table Recording)
    → j ≢ id
    → find j (put_if id o t) ≡ find j t
find-put_if_ne j id none t ne = refl
find-put_if_ne j id (some r') t ne = lookup-insert_ne ℕ_discrete j id r' t ne

-- The rows that the loop is still to visit stand in the table as they were listed.
abbrev Listed : List (ℕ × Recording) → Table Recording → Type 0
Listed rows t = (j : ℕ) (r : Recording) → find j rows ≡ some r → find j t ≡ some r

Listed-put_if :
    (id : ℕ) (r : Recording) (o : Option Recording) (rows : List (ℕ × Recording))
    (t : Table Recording)
    → find id rows ≡ none
    → Listed ((id, r) ∷ rows) t
    → Listed rows (put_if id o t)
unfolding lookup
Listed-put_if id r o rows t new l j x h = elim (ℕ_discrete j id) [
  | yes e ↦ absurd (ground (arith, e, new, h))
  | no ne ↦ find-put_if_ne j id o t ne ∙ l j x (ground (arith, ne, h))
]

first-Listed :
    (id : ℕ) (r : Recording) (rows : List (ℕ × Recording)) (t : Table Recording)
    → Listed ((id, r) ∷ rows) t
    → find id t ≡ some r
unfolding lookup
first-Listed id r rows t l = l id r (ground arith)

reconcile_rows_lem :
    (on_disk : String → Option ℕ) (rows : List (ℕ × Recording)) (t : Table Recording)
    → Distinct ℕ_discrete rows
    → Listed rows t
    → (j : ℕ)
    → find j (reconcile_rows on_disk rows t)
      ≡ elim (find j rows) [ none ↦ find j t | some r ↦ some (fixed on_disk r) ]
unfolding reconcile_rows lookup
reconcile_rows_lem on_disk [] t d l j = refl
reconcile_rows_lem on_disk ((id, r) ∷ rows) t (new, d) l j =
    let o = fix_up (on_disk r.filename) r in
    let later =
      reconcile_rows_lem on_disk rows (put_if id o t) d (Listed-put_if id r o rows t new l) j in
    elim (ℕ_discrete j id) [
      | yes e ↦
          ground (arith, e, new, later, find-put_if_self id o r t (first-Listed id r rows t l))
      | no ne ↦ ground (arith, ne, later, find-put_if_ne j id o t ne)
    ]

-- `reconcile` visits every row once, with what the disk has of that row's file: a row whose file is
-- gone becomes MISSING, a settled row whose file has another size than the row says gets that size,
-- and every other row stays.
pub reconcile_lem :
    (on_disk : String → Option ℕ) (t : Table Recording) (id : ℕ)
    → Distinct ℕ_discrete t
    → find id (reconcile on_disk t) ≡ fixed? on_disk (find id t)
unfolding reconcile
reconcile_lem on_disk t id d = elim (Option-cases (find id t)) [
  | inl e ↦ ground (arith, e, reconcile_rows_lem on_disk t t d (λ j r h. h) id)
  | inr (r, e) ↦ ground (arith, e, reconcile_rows_lem on_disk t t d (λ j r h. h) id)
]

-- A row that tells the truth about the disk.
pub record IsHonest (on_disk : String → Option ℕ) (r : Recording) : Type 0 where
  pub gone : on_disk r.filename ≡ none → r.status ≡ missing
  pub size :
      (n : ℕ)
      → on_disk r.filename ≡ some n
      → is_settled r.status ≡ true
      → r.file_size_bytes ≡ some n

same_size_lem : (o : Option ℕ) (n : ℕ) → same_size o n ≡ true → o ≡ some n
same_size_lem none n h = absurd (ground (arith, h))
same_size_lem (some m) n h = ap some (ground (arith, h))

is_missing_lem : (s : RecordingStatus) → is_missing s ≡ true → s ≡ missing
is_missing_lem missing h = refl
is_missing_lem recording h = absurd (ground (arith, h))
is_missing_lem completed h = absurd (ground (arith, h))
is_missing_lem failed h = absurd (ground (arith, h))

fixed-IsHonest : (on_disk : String → Option ℕ) (r : Recording) → IsHonest on_disk (fixed on_disk r)
unfolding fix_up
fixed-IsHonest on_disk r = elim (Option-cases (on_disk r.filename)) [
  | inl e ↦ elim (Bool-cases (is_missing r.status)) [
    | inl m ↦ record {
      gone = λ h. ground (arith, e, m, is_missing_lem r.status m);
      size = λ n h s. absurd (ground (arith, e, m, h));
    }
    | inr m ↦ record {
      gone = λ h. ground (arith, e, m);
      size = λ n h s. absurd (ground (arith, e, m, h));
    }
  ]
  | inr (k, e) ↦ elim (Bool-cases (same_size r.file_size_bytes k)) [
    | inl m ↦ record {
      gone = λ h. absurd (ground (arith, e, m, h));
      size = λ n h s. ground (arith, e, m, h, same_size_lem r.file_size_bytes k m);
    }
    | inr m ↦ elim (Bool-cases (is_settled r.status)) [
      | inl settled ↦ record {
        gone = λ h. absurd (ground (arith, e, m, settled, h));
        size = λ n h s. ground (arith, e, m, settled, h);
      }
      | inr unsettled ↦ record {
        gone = λ h. absurd (ground (arith, e, m, unsettled, h));
        size = λ n h s. absurd (ground (arith, e, m, unsettled, s));
      }
    ]
  ]
]

-- After `reconcile`, every row is true to the disk: it is MISSING when its file is gone, and when it
-- is COMPLETED or MISSING and the file is there, its size is the file's.
pub reconcile-IsHonest :
    (on_disk : String → Option ℕ) (t : Table Recording) (id : ℕ) (r : Recording)
    → Distinct ℕ_discrete t
    → find id (reconcile on_disk t) ≡ some r
    → IsHonest on_disk r
reconcile-IsHonest on_disk t id r d h = elim (Option-cases (find id t)) [
  | inl e ↦ absurd (ground (arith, e, h, reconcile_lem on_disk t id d))
  | inr (x, e) ↦
      subst (IsHonest on_disk) (ground (arith, e, h, reconcile_lem on_disk t id d))
        (fixed-IsHonest on_disk x)
]
