-- ===== src/Sentinel/Zones/Tests.antt =====
-- Runs of the zone requests on a table with two zones, and the theorems at those inputs.
use cat_sentinel.Prelude.{
  ◌≡◌, refl, true, false, List, [], ◌∷◌, none, some, ℕ_discrete, lookup, insert, erase, str_dec,
  pair_dec, ok, raise,
}
use cat_sentinel.Prelude.Int.{pos}
use cat_sentinel.Prelude.Tables.{Table, taken, commit}
use cat_sentinel.Prelude.Floats.{scaled}
use cat_sentinel.Sentinel.Errors.{conflict, validation_error, zone_name_taken}
use cat_sentinel.Sentinel.Geometry.{Point}
use cat_sentinel.Sentinel.Zones.{
  Zone, ZoneCreate, unset, null, valid_points, valid_patch, post_zone, get, patch_zone, delete_zone,
  list_active_for_camera, list_zones,
}
use cat_sentinel.Sentinel.Zones.Keeps.{IsValid, serve_all, serve_all-IsValid, post, patch}
use cat_sentinel.Sentinel.Zones.Effects.{null_points}

program : Unit {0}
unfolding scaled valid_points valid_patch serve_all post_zone get patch_zone delete_zone
    list_active_for_camera list_zones ℕ_discrete lookup insert erase str_dec pair_dec taken commit
program = tt

abbrev triangle : List (Point scaled)
unfolding scaled
triangle = (pos 0, pos 0) ∷ (pos 10, pos 0) ∷ (pos 5, pos 10) ∷ []

abbrev table_zone : Zone scaled
table_zone = record {
  camera_id = "default";
  name = "table";
  points = some triangle;
  is_active = true;
}

abbrev shelf_zone : Zone scaled
shelf_zone = record table_zone { name = "shelf"; is_active = false }

abbrev zones : Table (Zone scaled)
zones = (1, table_zone) ∷ (2, shelf_zone) ∷ []

abbrev rug : ZoneCreate scaled
rug = record { camera_id = "default"; name = "rug"; points = triangle; is_active = true }

abbrev rug_zone : Zone scaled
rug_zone = record table_zone { name = "rug" }

abbrev second_table : ZoneCreate scaled
second_table = record rug { name = "table" }

abbrev two_points : ZoneCreate scaled
unfolding scaled
two_points = record rug { points = (pos 0, pos 0) ∷ (pos 1, pos 1) ∷ [] }

abbrev with_rug : Table (Zone scaled)
with_rug = (1, table_zone) ∷ (2, shelf_zone) ∷ (3, rug_zone) ∷ []

post_rug : post_zone scaled 3 rug zones ≡ ok (with_rug, rug_zone)
unfolding program
post_rug = refl

post_too_few : post_zone scaled 3 two_points zones ≡ raise validation_error
unfolding program
post_too_few = refl

patch_name_null :
    patch_zone scaled 1 (record (null_points scaled) { name = null; points = unset }) zones
    ≡ raise (conflict (zone_name_taken "default" none))
unfolding program
patch_name_null = refl

empty-IsValid : IsValid scaled []
unfolding program
empty-IsValid = record { distinct = tt; unique = λ i j v w e f q. cc e; storable = λ id z e. cc e }

serve_all-IsValid_example :
    IsValid scaled (serve_all scaled (post 3 rug ∷ patch 3 (null_points scaled) ∷ []) [])
serve_all-IsValid_example =
    serve_all-IsValid scaled (post 3 rug ∷ patch 3 (null_points scaled) ∷ []) [] empty-IsValid
