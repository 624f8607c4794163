-- ===== src/Sentinel/Zones/Keeps.antt =====
-- The invariant of the zones table, kept by every request.
use cat_sentinel.Prelude.{
  ℕ, ◌≡◌, inl, inr, Bool, true, false, List, [], ◌∷◌, Option, none, some, arith, ℕ_discrete,
  Distinct, insert-Distinct, erase-Distinct, lookup-erase_ne, lookup-erase_self, Option-cases,
  Outcome-cases, subst, Outcome, ok, raise,
}
use cat_sentinel.Prelude.Tables.{
  Table, find, put, remove, commit, taken, Unique, put-Unique, remove-Unique, find-put,
}
use cat_sentinel.Prelude.Floats.{Floats}
use cat_sentinel.Sentinel.Errors.{AppError}
use cat_sentinel.Sentinel.Geometry.{Point}
use cat_sentinel.Sentinel.Zones.{
  Patch, unset, null, given, patched, Zone, ZoneCreate, ZoneUpdate, valid_points, valid_patch, key,
  key_dec, commit_or_raise_conflict, create, post_zone, get, update, patch_zone, delete_zone,
}

module _ (F : Floats) where
  -- What the column `points` may hold: a JSON null, or 3 to 200 finite points.
  abbrev pub IsStorable : Option (List (Point F)) → Type 0
  IsStorable none = Unit
  IsStorable (some ps) = valid_points F ps ≡ true

  pub record IsValid (t : Table (Zone F)) : Type 0 where
    pub distinct : Distinct ℕ_discrete t
    pub unique : Unique (key F) (key_dec F) t
    pub storable : (id : ℕ) (z : Zone F) → find id t ≡ some z → IsStorable z.points

  -- A commit that goes through has met no row with the same camera and name, and writes the row.
  pub commit_through :
      (id : ℕ) (z : Zone F) (t t' : Table (Zone F))
      → commit_or_raise_conflict F id z t ≡ ok t'
      → (taken (key F) (key_dec F) id (key F z) t ≡ false) × (t' ≡ put id z t)
  unfolding commit_or_raise_conflict commit
  commit_through id z t t' h = ground arith

  put-IsStorable :
      (id : ℕ) (z : Zone F) (t : Table (Zone F))
      → ((j : ℕ) (w : Zone F) → find j t ≡ some w → IsStorable w.points)
      → IsStorable z.points
      → (j : ℕ) (w : Zone F) → find j (put id z t) ≡ some w
      → IsStorable w.points
  put-IsStorable id z t old s j w e = elim (ℕ_discrete j id) [
    | yes same ↦
        let written : z ≡ w = ground (arith, find-put j id z t) in
        subst (λ x. IsStorable x.points) written s
    | no other ↦ old j w (ground (arith, find-put j id z t))
  ]

  commit-IsValid :
      (id : ℕ) (z : Zone F) (t t' : Table (Zone F))
      → IsValid t
      → IsStorable z.points
      → commit_or_raise_conflict F id z t ≡ ok t'
      → IsValid t'
  commit-IsValid id z t t' v s h =
      let (free, put_it) = commit_through id z t t' h in
      rw put_it (record {
        distinct = insert-Distinct ℕ_discrete id z t v.distinct;
        unique = put-Unique (key F) (key_dec F) id z t v.unique free;
        storable = put-IsStorable id z t v.storable s;
      })

  pub post_zone_through :
      (id : ℕ) (payload : ZoneCreate F) (t t' : Table (Zone F)) (z : Zone F)
      → post_zone F id payload t ≡ ok (t', z)
      → (valid_points F payload.points ≡ true)
        × (z.points ≡ some payload.points)
        × (commit_or_raise_conflict F id z t ≡ ok t')
  unfolding post_zone create valid_points
  post_zone_through id payload t t' z h = ground arith

  post_zone-IsValid :
      (id : ℕ) (payload : ZoneCreate F) (t t' : Table (Zone F)) (z : Zone F)
      → IsValid t
      → post_zone F id payload t ≡ ok (t', z)
      → IsValid t'
  post_zone-IsValid id payload t t' z v h =
      let (checked, stored, done) = post_zone_through id payload t t' z h in
      commit-IsValid id z t t' v (rw stored checked) done

  patch_zone_through :
      (id : ℕ) (payload : ZoneUpdate F) (t t' : Table (Zone F)) (z : Zone F)
      → patch_zone F id payload t ≡ ok (t', z)
      → (old : Zone F) × (find id t ≡ some old)
        × (valid_patch F payload.points ≡ true)
        × (z.points ≡ patched old.points payload.points)
        × (commit_or_raise_conflict F id z t ≡ ok t')
  unfolding patch_zone get update
  patch_zone_through id payload t t' z h = elim (Option-cases (find id t)) [
    | inl absent ↦ absurd (ground arith)
    | inr (old, e) ↦ (old, e, ground arith, ground arith, ground arith)
  ]

  patched-IsStorable :
      (old : Option (List (Point F))) (p : Patch (List (Point F)))
      → IsStorable old
      → valid_patch F p ≡ true
      → IsStorable (patched old p)
  unfolding valid_patch
  patched-IsStorable old unset s h = s
  patched-IsStorable old null s h = tt
  patched-IsStorable old (given ps) s h = h

  patch_zone-IsValid :
      (id : ℕ) (payload : ZoneUpdate F) (t t' : Table (Zone F)) (z : Zone F)
      → IsValid t
      → patch_zone F id payload t ≡ ok (t', z)
      → IsValid t'
  patch_zone-IsValid id payload t t' z v h =
      let (old, found, checked, stored, done) = patch_zone_through id payload t t' z h in
      let kept = patched-IsStorable old.points payload.points (v.storable id old found) checked in
      commit-IsValid id z t t' v (rw stored kept) done

  delete_zone_through :
      (referenced : ℕ → Bool) (id : ℕ) (t t' : Table (Zone F))
      → delete_zone F referenced id t ≡ ok t'
      → t' ≡ remove id t
  unfolding delete_zone get
  delete_zone_through referenced id t t' h = ground arith

  remove-IsStorable :
      (id : ℕ) (t : Table (Zone F))
      → IsValid t
      → (j : ℕ) (w : Zone F) → find j (remove id t) ≡ some w
      → IsStorable w.points
  remove-IsStorable id t v j w e = v.storable j w (
      ground
        (arith, lookup-erase_ne ℕ_discrete j id t, lookup-erase_self ℕ_discrete id t v.distinct))

  delete_zone-IsValid :
      (referenced : ℕ → Bool) (id : ℕ) (t t' : Table (Zone F))
      → IsValid t
      → delete_zone F referenced id t ≡ ok t'
      → IsValid t'
  delete_zone-IsValid referenced id t t' v h =
      rw (delete_zone_through referenced id t t' h) (record {
        distinct = erase-Distinct ℕ_discrete id t v.distinct;
        unique = remove-Unique (key F) (key_dec F) id t v.distinct v.unique;
        storable = remove-IsStorable id t v;
      })

  -- The requests that change the table, as they come in, each with its own outcome of the database.
  pub data Request : Type 0 where
    post : (id : ℕ) → ZoneCreate F → Request
    patch : (id : ℕ) → ZoneUpdate F → Request
    delete : (referenced : ℕ → Bool) → (id : ℕ) → Request

  abbrev table_or : Table (Zone F) → Outcome AppError (Table (Zone F) × Zone F) → Table (Zone F)
  table_or t (ok (t', z)) = t'
  table_or t (raise e) = t

  abbrev deleted_or : Table (Zone F) → Outcome AppError (Table (Zone F)) → Table (Zone F)
  deleted_or t (ok t') = t'
  deleted_or t (raise e) = t

  -- A request that raises leaves the table alone.
  unfoldable pub serve : Request → Table (Zone F) → Table (Zone F)
  serve (post id payload) t = table_or t (post_zone F id payload t)
  serve (patch id payload) t = table_or t (patch_zone F id payload t)
  serve (delete referenced id) t = deleted_or t (delete_zone F referenced id t)

  unfoldable pub serve_all : List Request → Table (Zone F) → Table (Zone F)
  unfolding serve
  serve_all [] t = t
  serve_all (r ∷ rs) t = serve_all rs (serve r t)

  serve-IsValid : (r : Request) (t : Table (Zone F)) → IsValid t → IsValid (serve r t)
  unfolding serve
  serve-IsValid (post id payload) t v = elim (Outcome-cases (post_zone F id payload t)) [
    | inl (tz, e) ↦ rw e (post_zone-IsValid id payload t tz.0 tz.1 v e)
    | inr (err, e) ↦ rw e v
  ]
  serve-IsValid (patch id payload) t v = elim (Outcome-cases (patch_zone F id payload t)) [
    | inl (tz, e) ↦ rw e (patch_zone-IsValid id payload t tz.0 tz.1 v e)
    | inr (err, e) ↦ rw e v
  ]
  serve-IsValid (delete referenced id) t v = elim (Outcome-cases (delete_zone F referenced id t)) [
    | inl (t', e) ↦ rw e (delete_zone-IsValid referenced id t t' v e)
    | inr (err, e) ↦ rw e v
  ]

  -- After any sequence of creations, updates and deletions from a valid table, no two zones of a camera
  -- share a name, and each stored polygon is null or has 3 to 200 finite points.
  pub serve_all-IsValid :
      (rs : List Request) (t : Table (Zone F)) → IsValid t → IsValid (serve_all rs t)
  unfolding serve_all
  serve_all-IsValid [] t v = v
  serve_all-IsValid (r ∷ rs) t v = serve_all-IsValid rs (serve r t) (serve-IsValid r t v)
