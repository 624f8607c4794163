-- ===== src/Sentinel/Pipeline/References.antt =====
-- The foreign keys of the rows that the pipeline writes: `cat_id` and `zone_id` of Detection, Alert and
-- Activity.
pub mod Kept
mod Steps
use cat_sentinel.Prelude.{
  ℕ, ◌≤◌, ◌≡◌, ◌∙◌, String, Bool, true, false, List, ◌∷◌, Option, none, some, arith, ap, All,
  All-map, Distinct, ℕ_discrete,
}
use cat_sentinel.Prelude.Tables.{Table, find}
use cat_sentinel.Prelude.Floats.{Floats}
use cat_sentinel.Sentinel.Zones.{Zone}
use cat_sentinel.Sentinel.Cats.{Cat}
use cat_sentinel.Sentinel.Cats.Race
use cat_sentinel.Sentinel.Cats.Race.{Grows}
use cat_sentinel.Sentinel.Alerts.{Alert}
use cat_sentinel.Sentinel.Pipeline.{Detection, Activity, Pipeline}

-- No row has a uuid that is handed out from `n` on.
abbrev pub IsUnused : {V : Type 0} → ℕ → Table V → Type 0
IsUnused n t = (i : ℕ) → n ≤ i → find i t ≡ none

-- What other sessions do to the cats: they keep the table valid, lose no row, and take no uuid that is
-- handed out here from `start` on.
pub record IsTame (start : ℕ) (others : Table Cat → Table Cat) : Type 0 where
  pub valid : (t : Table Cat) → Race.IsValid t → Race.IsValid (others t)
  pub grows : (t : Table Cat) → Race.IsValid t → Grows t (others t)
  pub unused : (t : Table Cat) (n : ℕ) → start ≤ n → IsUnused n t → IsUnused n (others t)

-- The row of a cat, which is of the camera.
abbrev pub CatOf : Table Cat → String → ℕ → Type 0
CatOf t camera_id id = (c : Cat) × (find id t ≡ some c) × (c.camera_id ≡ camera_id)

abbrev pub CatIf : Table Cat → String → Option ℕ → Type 0
CatIf t camera_id none = Unit
CatIf t camera_id (some id) = CatOf t camera_id id

CatOf-Grows :
    (t t' : Table Cat) (camera_id : String) (id : ℕ)
    → Grows t t'
    → CatOf t camera_id id
    → CatOf t' camera_id id
CatOf-Grows t t' camera_id id g (c, found, on) =
    let (c', found', same) = g id c found in (c', found', ap (λ k. k.0) same ∙ on)

CatIf-Grows :
    (t t' : Table Cat) (camera_id : String) (id : Option ℕ)
    → Grows t t'
    → CatIf t camera_id id
    → CatIf t' camera_id id
CatIf-Grows t t' camera_id none g h = tt
CatIf-Grows t t' camera_id (some id) g h = CatOf-Grows t t' camera_id id g h

module _ (F : Floats) where
  abbrev pub ZoneOf : Table (Zone F) → String → ℕ → Type 0
  ZoneOf t camera_id id = (z : Zone F) × (find id t ≡ some z) × (z.camera_id ≡ camera_id)

  -- The flag says whether there is a zone, and the zone is of the camera.
  abbrev pub ZoneIf : Table (Zone F) → String → Option ℕ → Bool → Type 0
  ZoneIf t camera_id none in_danger_zone = in_danger_zone ≡ false
  ZoneIf t camera_id (some id) in_danger_zone = (in_danger_zone ≡ true) × ZoneOf t camera_id id

  abbrev pub DetectionRefers : Table Cat → Table (Zone F) → Detection F → Type 0
  DetectionRefers cats zones d =
      CatOf cats d.camera_id d.cat_id × ZoneIf zones d.camera_id d.zone_id d.in_danger_zone

  abbrev pub ActivityRefers : Table Cat → Activity F → Type 0
  ActivityRefers cats a = CatIf cats a.camera_id a.cat_id

  abbrev pub AlertRefers : Table Cat → Table (Zone F) → Alert → Type 0
  AlertRefers cats zones a = CatOf cats a.camera_id a.cat_id × ZoneOf zones a.camera_id a.zone_id

  -- Every row refers to rows that are there, and of its own camera.
  pub record Refers (s : Pipeline F) : Type 0 where
    pub cats_valid : Race.IsValid s.cats
    pub zones_distinct : Distinct ℕ_discrete s.zones
    pub unused : IsUnused s.next_uuid s.cats
    pub detections : All (DetectionRefers s.cats s.zones) s.detections
    pub activities : All (ActivityRefers s.cats) s.activities
    pub alerts : (i : ℕ) (a : Alert) → find i s.alerts ≡ some a → AlertRefers s.cats s.zones a

  -- A table of cats that has grown serves the rows as before.
  pub Refers-Grows :
      (s : Pipeline F) (t : Table Cat) (n : ℕ)
      → Refers s
      → Grows s.cats t
      → Race.IsValid t
      → IsUnused n t
      → Refers (record s { cats = t; next_uuid = n })
  Refers-Grows s t n v g valid unused = record {
    cats_valid = valid;
    zones_distinct = v.zones_distinct;
    unused = unused;
    detections =
        All-map _ (λ d r. (CatOf-Grows s.cats t d.camera_id d.cat_id g r.0, r.1)) v.detections;
    activities = All-map _ (λ a r. CatIf-Grows s.cats t a.camera_id a.cat_id g r) v.activities;
    alerts = λ i a found.
        let r = v.alerts i a found in (CatOf-Grows s.cats t a.camera_id a.cat_id g r.0, r.1);
  }
