-- ===== src/Sentinel/Zones/Effects.antt =====
-- What the requests on zones return, and what they leave alone.
use cat_sentinel.Prelude.{
  ℕ, String, ◌≡◌, ◌≢◌, ◌↔◌, refl, ◌⊎◌, inl, inr, Bool, true, [], ◌∷◌, Option, none, some, arith,
  ℕ_discrete, Distinct, lookup, lookup-insert_self, lookup-insert_ne, lookup-erase_ne,
  lookup-erase_self, Bool-cases, Option-cases, ok, raise, keep, if◌then◌else◌,
}
use cat_sentinel.Prelude.Tables.{
  Table, find, put, remove, commit, taken, taken_by, taken_witness, taken_own,
}
use cat_sentinel.Prelude.Floats.{Floats}
use cat_sentinel.Sentinel.Errors.{
  conflict, not_found, zone_name_taken, zone_not_found, integrity_error,
}
use cat_sentinel.Sentinel.Zones.{
  unset, null, Zone, ZoneCreate, ZoneUpdate, valid_points, valid_patch, key, key_dec,
  commit_or_raise_conflict, create, post_zone, get, update, patch_zone, delete_zone, is_active_on,
  list_active_for_camera,
}
use cat_sentinel.Sentinel.Zones.Keeps.{IsValid, commit_through, post_zone_through}

module _ (F : Floats) where
  -- Another zone than `id` has this camera and name.
  abbrev pub NameTaken : ℕ → String → String → Table (Zone F) → Type 0
  NameTaken id camera_id name t =
      (j : ℕ) × (w : Zone F) × (find j t ≡ some w) × (key F w ≡ (camera_id, name)) × (j ≢ id)

  taken-NameTaken :
      (id : ℕ) (camera_id name : String) (t : Table (Zone F))
      → Distinct ℕ_discrete t
      → (taken (key F) (key_dec F) id (camera_id, name) t ≡ true) ↔ NameTaken id camera_id name t
  taken-NameTaken id camera_id name t d = (
    taken_witness (key F) (key_dec F) id (camera_id, name) t d,
    λ (j, w, e, q, n). taken_by (key F) (key_dec F) id (camera_id, name) t j w e q n,
  )

  post_zone-taken :
      (id : ℕ) (payload : ZoneCreate F) (t : Table (Zone F))
      → valid_points F payload.points ≡ true
      → (post_zone F id payload t
          ≡ raise (conflict (zone_name_taken payload.camera_id (some payload.name))))
        ↔ (taken (key F) (key_dec F) id (payload.camera_id, payload.name) t ≡ true)
  unfolding post_zone create commit_or_raise_conflict commit valid_points
  post_zone-taken id payload t checked = (λ h. ground arith, λ h. ground arith)

  -- A creation with a valid polygon is answered with a conflict exactly when another zone of that camera
  -- has the name.
  pub post_zone_conflict :
      (id : ℕ) (payload : ZoneCreate F) (t : Table (Zone F))
      → Distinct ℕ_discrete t
      → valid_points F payload.points ≡ true
      → (post_zone F id payload t
          ≡ raise (conflict (zone_name_taken payload.camera_id (some payload.name))))
        ↔ NameTaken id payload.camera_id payload.name t
  post_zone_conflict id payload t d checked =
      let to = post_zone-taken id payload t checked in
      let from = taken-NameTaken id payload.camera_id payload.name t d in
      (λ h. from.0 (to.0 h), λ h. to.1 (from.1 h))

  -- A zone that was created is read back with the posted polygon under its id, and every other row is
  -- as before.
  pub get-post_zone :
      (id : ℕ) (payload : ZoneCreate F) (t t' : Table (Zone F)) (z : Zone F)
      → post_zone F id payload t ≡ ok (t', z)
      → (get F id t' ≡ ok z)
        × (z.points ≡ some payload.points)
        × ((j : ℕ) → j ≢ id → get F j t' ≡ get F j t)
  unfolding get
  get-post_zone id payload t t' z h =
      let (checked, stored, done) = post_zone_through F id payload t t' z h in
      let (free, put_it) = commit_through F id z t t' done in
      (
        rw put_it (ground (arith, lookup-insert_self ℕ_discrete id z t)),
        stored,
        λ j n. rw put_it (ground (arith, lookup-insert_ne ℕ_discrete j id z t n)),
      )

  -- A deleted zone is not found any more and the others are as before; a zone that is not there is
  -- answered with 404, and one that the database still holds references to with an error that no
  -- handler catches.
  pub delete_zone_cases :
      (referenced : ℕ → Bool) (id : ℕ) (t : Table (Zone F))
      → Distinct ℕ_discrete t
      → ((find id t ≡ none)
          × (delete_zone F referenced id t ≡ raise (not_found (zone_not_found id))))
        ⊎ ((referenced id ≡ true) × (delete_zone F referenced id t ≡ raise integrity_error))
        ⊎ ((t' : Table (Zone F)) × (delete_zone F referenced id t ≡ ok t')
            × (find id t' ≡ none)
            × ((j : ℕ) → j ≢ id → find j t' ≡ find j t))
  unfolding delete_zone get
  delete_zone_cases referenced id t d = elim (Option-cases (find id t)) [
    | inl absent ↦ inl (absent, ground arith)
    | inr (z, found) ↦ elim (Bool-cases (referenced id)) [
      | inl held ↦ inr (inl (held, ground arith))
      | inr unheld ↦ inr (
          inr (
            remove id t,
            ground arith,
            lookup-erase_self ℕ_discrete id t d,
            λ j n. lookup-erase_ne ℕ_discrete j id t n,
          ))
    ]
  ]

  abbrev when_active : String → ℕ → Option (Zone F) → Option (Zone F)
  when_active camera_id id none = none
  when_active camera_id id (some z) = if is_active_on F camera_id (id, z) then some z else none

  find-keep :
      (camera_id : String) (id : ℕ) (t : Table (Zone F))
      → Distinct ℕ_discrete t
      → find id (keep (is_active_on F camera_id) t) ≡ when_active camera_id id (find id t)
  unfolding lookup
  find-keep camera_id id [] d = refl
  find-keep camera_id id ((k, z) ∷ t) d = elim (Option-cases (find id t)) [
    | inl absent ↦ ground (arith, find-keep camera_id id t d.1)
    | inr (w, found) ↦ ground (arith, find-keep camera_id id t d.1)
  ]

  -- The zones that the pipeline tests are those of the camera that are active, no more and no fewer.
  pub list_active_for_camera_iff :
      (camera_id : String) (id : ℕ) (z : Zone F) (t : Table (Zone F))
      → Distinct ℕ_discrete t
      → (find id (list_active_for_camera F camera_id t) ≡ some z)
        ↔ ((find id t ≡ some z) × (z.is_active ≡ true) × (z.camera_id ≡ camera_id))
  unfolding list_active_for_camera
  list_active_for_camera_iff camera_id id z t d =
      let kept = find-keep camera_id id t d in (λ h. ground arith, λ h. ground arith)

  abbrev pub null_points : ZoneUpdate F
  null_points = record { name = unset; points = null; is_active = unset }

  -- `PATCH {"points": null}` passes the validators, and replaces the polygon of any stored zone by null.
  pub patch_zone-null_points :
      (id : ℕ) (z : Zone F) (t : Table (Zone F))
      → IsValid F t
      → find id t ≡ some z
      → patch_zone F id null_points t
        ≡ ok (put id (record z { points = none }) t, record z { points = none })
  unfolding patch_zone get update valid_patch commit_or_raise_conflict commit
  patch_zone-null_points id z t v found =
      ground (arith, taken_own (key F) (key_dec F) id z t v.distinct v.unique found)
