-- ===== src/Sentinel/Zones.antt =====
-- Danger zones: cat-sentinel/app/zones (models, schemas, repository, service).
-- A session works on the table of zones by itself. The time stamps that the database sets are left
-- out. `referenced` says of which zones detections or alerts hold a foreign key that the database
-- enforces.
pub mod Keeps
pub mod Effects
mod Tests
use cat_sentinel.Prelude.{
  ℕ, String, Bool, true, false, not, ◌&&◌, List, [], ◌∷◌, Option, none, some, length, keep, take,
  drop, map, ltb, leb, if◌then◌else◌, Outcome, ok, raise, ◌>>=◌, ◌>>◌, raise_if, str_dec, pair_dec,
  ite,
}
use cat_sentinel.Prelude.Tables.{Table, find, put, remove, commit}
use cat_sentinel.Prelude.Floats.{Floats}
use cat_sentinel.Sentinel.Errors.{
  AppError, not_found, conflict, validation_error, integrity_error, zone_not_found, zone_name_taken,
}
use cat_sentinel.Sentinel.Geometry.{Point}

-- A field of a PATCH body: left out, `null`, or a value (`model_dump(exclude_unset=True)`).
pub data Patch (A : Type 0) : Type 0 where
  unset null : Patch A
  given : A → Patch A

-- `setattr(row, field, value)` when the field is in the body; `none` is None.
abbrev pub patched : {A : Type 0} → Option A → Patch A → Option A
patched old unset = old
patched old null = none
patched old (given a) = some a

module _ (F : Floats) where
  -- The columns beside the primary key. The JSON column `points` stores None as a JSON null, which
  -- its NOT NULL constraint accepts, so `none` stands for that.
  pub record Zone : Type 0 where
    pub camera_id : String
    pub name : String
    pub points : Option (List (Point F))
    pub is_active : Bool

  pub record ZoneCreate : Type 0 where
    pub camera_id : String
    pub name : String
    pub points : List (Point F)
    pub is_active : Bool

  pub record ZoneUpdate : Type 0 where
    pub name : Patch String
    pub points : Patch (List (Point F))
    pub is_active : Patch Bool

  -- `Point.reject_non_finite` of both coordinates.
  pub finite_point : Point F → Bool
  finite_point p = F.finite p.0 && F.finite p.1

  pub finite_points : List (Point F) → Bool
  unfolding finite_point
  finite_points [] = true
  finite_points (p ∷ ps) = finite_point p && finite_points ps

  -- `validate_point_count`, with MIN_POINTS = 3 and MAX_POINTS = 200.
  pub valid_points : List (Point F) → Bool
  unfolding finite_points
  valid_points ps = finite_points ps && not (ltb (length ps) 3) && not (ltb 200 (length ps))

  -- The validators of ZoneUpdate: a field that is left out or null passes.
  pub valid_patch : Patch (List (Point F)) → Bool
  valid_patch (given ps) = valid_points ps
  valid_patch _ = true

  -- `uq_zones_camera_id_name`
  abbrev pub key : Zone → String × String
  key z = (z.camera_id, z.name)

  abbrev pub key_dec : Discrete (String × String)
  key_dec = pair_dec str_dec str_dec

  -- `_commit_or_raise_conflict`
  pub commit_or_raise_conflict : ℕ → Zone → Table Zone → Outcome AppError (Table Zone)
  commit_or_raise_conflict id z t = elim (commit key key_dec id z t) [
    | none ↦ raise (conflict (zone_name_taken z.camera_id (some z.name)))
    | some t' ↦ ok t'
  ]

  -- The repository's `create`; `id` is the new uuid.
  pub create : ℕ → ZoneCreate → Table Zone → Outcome AppError (Table Zone × Zone)
  unfolding commit_or_raise_conflict
  create id payload t = do
    let z : Zone = record {
      camera_id = payload.camera_id;
      name = payload.name;
      points = some payload.points;
      is_active = payload.is_active;
    }
    t' ← commit_or_raise_conflict id z t
    ok (t', z)

  -- `POST /zones/`: the body is validated before the handler runs.
  pub post_zone : ℕ → ZoneCreate → Table Zone → Outcome AppError (Table Zone × Zone)
  unfolding create valid_points
  post_zone id payload t = do
    raise_if (not (valid_points payload.points)) validation_error
    create id payload t

  -- The service's `get`.
  pub get : ℕ → Table Zone → Outcome AppError Zone
  get id t = elim (find id t) [ none ↦ raise (not_found (zone_not_found id)) | some z ↦ ok z ]

  abbrev rows : Table Zone → List Zone
  rows [] = []
  rows ((_, z) ∷ t) = z ∷ rows t

  -- `list`, in the order of the rows (the query asks for none).
  pub list_zones : (limit offset : ℕ) → Table Zone → List Zone
  list_zones limit offset t = take limit (drop offset (rows t))

  abbrev pub is_active_on : String → ℕ × Zone → Bool
  is_active_on camera_id (_, z) = ite (str_dec z.camera_id camera_id) z.is_active false

  -- `list_active_for_camera`, with the keys.
  unfoldable pub list_active_for_camera : String → Table Zone → List (ℕ × Zone)
  list_active_for_camera camera_id t = keep (is_active_on camera_id) t

  -- The repository's `update`. None in `name` or `is_active` breaks a NOT NULL constraint, which is
  -- an IntegrityError too, and the message quotes the new name.
  pub update : ℕ → Zone → ZoneUpdate → Table Zone → Outcome AppError (Table Zone × Zone)
  unfolding commit_or_raise_conflict
  update id z payload t = elim (patched (some z.name) payload.name) [
    | none ↦ raise (conflict (zone_name_taken z.camera_id none))
    | some name' ↦ elim (patched (some z.is_active) payload.is_active) [
      | none ↦ raise (conflict (zone_name_taken z.camera_id (some name')))
      | some active' ↦
          let z' : Zone = record {
            camera_id = z.camera_id;
            name = name';
            points = patched z.points payload.points;
            is_active = active';
          } in
          commit_or_raise_conflict id z' t >>= λ t'. ok (t', z')
    ]
  ]

  -- `PATCH /zones/{zone_id}`
  pub patch_zone : ℕ → ZoneUpdate → Table Zone → Outcome AppError (Table Zone × Zone)
  unfolding valid_patch get update
  patch_zone id payload t = do
    raise_if (not (valid_patch payload.points)) validation_error
    z ← get id t
    update id z payload t

  -- `DELETE /zones/{zone_id}`: nothing catches an IntegrityError here.
  pub delete_zone : (referenced : ℕ → Bool) → ℕ → Table Zone → Outcome AppError (Table Zone)
  unfolding get
  delete_zone referenced id t = do
    z ← get id t
    if referenced id then raise integrity_error else ok (remove id t)
