-- ===== src/Sentinel/Cats.antt =====
-- Cat identities: cat-sentinel/app/cats (models, schemas, repository, service).
-- Between the read of `get_or_create` and its commit other sessions may commit: what they leave is
-- the argument `others`. The time stamps that the database sets are left out.
pub mod Race
mod Tests
use cat_sentinel.Prelude.{
  ℕ, String, Bool, true, Option, none, some, Outcome, ok, raise, ◌>>=◌, str_dec, pair_dec,
  ℕ_discrete,
}
use cat_sentinel.Prelude.Tables.{Table, find, commit, find_by, put}
use cat_sentinel.Sentinel.Errors.{
  AppError, not_found, conflict, integrity_error, cat_not_found, cat_not_updated,
}
use cat_sentinel.Sentinel.Zones.{Patch, patched}

-- The text of a label: `f"cat #{track_id}"`, or what a human chose.
pub data Label : Type 0 where
  numbered : (track_id : ℕ) → Label
  chosen : String → Label

pub record Cat : Type 0 where
  pub camera_id : String
  pub track_id : ℕ
  pub label : Label
  pub is_active : Bool

pub record CatUpdate : Type 0 where
  pub label : Patch Label
  pub is_active : Patch Bool

-- `uq_cats_camera_id_track_id`
abbrev pub key : Cat → String × ℕ
key c = (c.camera_id, c.track_id)

abbrev pub key_dec : Discrete (String × ℕ)
key_dec = pair_dec str_dec ℕ_discrete

-- The service's `get`.
pub get : ℕ → Table Cat → Outcome AppError Cat
get id t = elim (find id t) [ none ↦ raise (not_found (cat_not_found id)) | some c ↦ ok c ]

-- `get_by_track_id`
unfoldable pub get_by_track_id : String → ℕ → Table Cat → Option (ℕ × Cat)
get_by_track_id camera_id track_id t = find_by key key_dec (camera_id, track_id) t

abbrev pub new_cat : String → ℕ → Cat
new_cat camera_id track_id = record {
  camera_id = camera_id;
  track_id = track_id;
  label = numbered track_id;
  is_active = true;
}

-- `get_or_create`; `id` is the uuid of the row that it may add. The result is the row with its id.
unfoldable pub get_or_create :
    (others : Table Cat → Table Cat)
    → String
    → (track_id id : ℕ) → Table Cat
    → Outcome AppError (Table Cat × ℕ × Cat)
unfolding get_by_track_id
get_or_create others camera_id track_id id t = elim (get_by_track_id camera_id track_id t) [
  | some (cat_id, cat) ↦ ok (t, cat_id, cat)
  | none ↦
      let t' = others t in
      elim (commit key key_dec id (new_cat camera_id track_id) t') [
        | some t'' ↦ ok (t'', id, new_cat camera_id track_id)
        | none ↦ elim (get_by_track_id camera_id track_id t') [
          | some (cat_id, cat) ↦ ok (t', cat_id, cat)
          | none ↦ raise integrity_error
        ]
      ]
]

-- The repository's `update`: None in either field breaks a NOT NULL constraint. Neither field is in
-- the unique constraint, which is checked all the same.
pub update : ℕ → Cat → CatUpdate → Table Cat → Outcome AppError (Table Cat × Cat)
update id cat payload t = elim (patched (some cat.label) payload.label) [
  | none ↦ raise (conflict (cat_not_updated id))
  | some label' ↦ elim (patched (some cat.is_active) payload.is_active) [
    | none ↦ raise (conflict (cat_not_updated id))
    | some active' ↦
        let cat' : Cat = record cat { label = label'; is_active = active' } in
        elim (commit key key_dec id cat' t) [
          | none ↦ raise (conflict (cat_not_updated id))
          | some t' ↦ ok (t', cat')
        ]
  ]
]

-- The service's `update`.
pub patch_cat : ℕ → CatUpdate → Table Cat → Outcome AppError (Table Cat × Cat)
unfolding get update
patch_cat id payload t = do cat ← get id t; update id cat payload t
