-- ===== src/Camera/Recordings/Started.antt =====
-- A recording from its start to its stop.
use cat_sentinel.Prelude.{
  ℕ, ◌-◌, ◌≡◌, ◌≢◌, ◌∙◌, subst, inl, inr, String, false, Option, none, some, arith, ok, ℕ_discrete,
  Distinct, insert-Distinct, Bool-cases, str_dec, lookup-insert_self, lookup-insert_ne,
}
use cat_sentinel.Prelude.Tables.{
  Table, find, put, find_by, find_by-find, taken, commit, Unique, put-Unique,
}
use cat_sentinel.Camera.Recordings.{
  recording, completed, Recording, filename_of, create, get_by_filename, stop,
}

abbrev pub started : ℕ → String → Recording
started now filename = record {
  filename = filename;
  started_at = now;
  ended_at = none;
  duration_seconds = none;
  file_size_bytes = none;
  status = recording;
}

pub create_through :
    (id now : ℕ) (filename : String) (t t' : Table Recording)
    → create id now filename t ≡ ok t'
    → (taken filename_of str_dec id filename t ≡ false) × (put id (started now filename) t ≡ t')
unfolding create commit
create_through id now filename t t' h =
    elim (Bool-cases (taken filename_of str_dec id filename t)) [
      | inl clash ↦ absurd (ground (arith, clash, h))
      | inr free ↦ (free, ground (arith, free, h))
    ]

find_by-put :
    (id : ℕ) (r : Recording) (t : Table Recording)
    → Distinct ℕ_discrete t
    → Unique filename_of str_dec t
    → taken filename_of str_dec id r.filename t ≡ false
    → find_by filename_of str_dec r.filename (put id r t) ≡ some (id, r)
find_by-put id r t d u free =
    find_by-find filename_of str_dec id r (put id r t) (insert-Distinct ℕ_discrete id r t d)
      (put-Unique filename_of str_dec id r t u free) (lookup-insert_self ℕ_discrete id r t)

-- A recording that was started under a free name is completed by `stop` with that name: it ends then,
-- its duration is the time from its start, its size is that of the file on disk, and no other row
-- changes.
pub stop-create :
    (on_disk : String → Option ℕ) (id now later : ℕ) (filename : String) (t t' : Table Recording)
    → Distinct ℕ_discrete t
    → Unique filename_of str_dec t
    → create id now filename t ≡ ok t'
    → (t'' : Table Recording) × (stop on_disk later filename t' ≡ ok t'')
      × (find id t''
          ≡ some (record {
            filename = filename;
            started_at = now;
            ended_at = some later;
            duration_seconds = some (later - now);
            file_size_bytes = on_disk filename;
            status = completed;
          }))
      × ((j : ℕ) → j ≢ id → find j t'' ≡ find j t)
unfolding stop get_by_filename
stop-create on_disk id now later filename t t' d u h =
    let (free, e) = create_through id now filename t t' h in
    let r = started now filename in
    let row =
      subst (λ x. find_by filename_of str_dec filename x ≡ some (id, r)) e
        (find_by-put id r t d u free) in
    let r' : Recording = record r {
      ended_at = some later;
      duration_seconds = some (later - now);
      file_size_bytes = on_disk filename;
      status = completed;
    } in
    (
      put id r' t',
      ground (arith, row),
      lookup-insert_self ℕ_discrete id r' t',
      λ j ne.
          lookup-insert_ne ℕ_discrete j id r' t' ne
          ∙ subst (λ x. find j x ≡ find j t) e (lookup-insert_ne ℕ_discrete j id r t ne),
    )
