-- ===== src/Hub/Trackers.antt =====
-- hub/app/trackers/service.py. The answers of cat-sentinel are JSON: a key that may be missing is an
-- Option. Times are seconds; `fromisoformat` is an argument, `none` its ValueError.
pub mod Newest
mod Tests
use Prim.Native.String.{compare}
use Prim.Native.Nat.{Ordering}
use cat_sentinel.Prelude.{
  ℕ, String, Bool, true, false, List, [], ◌∷◌, Option, none, some, Outcome, ok, raise, ◌>>=◌,
  str_dec, Dict, lookup, insert, ltb, if◌then◌else◌,
}
use cat_sentinel.Prelude.Int.{ℤ, sub_ℕ}

-- UpstreamServiceError, and the exceptions that nothing catches.
pub data HubError : Type 0 where
  upstream_service_error : HubError
  key_error value_error other_error : HubError

-- A datetime with no zone, by its wall clock, or with one, by its UTC time.
pub data Datetime : Type 0 where
  naive : ℕ → Datetime
  aware : ℕ → Datetime

-- How an upstream call ends.
pub data Response (A : Type 0) : Type 0 where
  answered : A → Response A
  unreachable timed_out : Response A
  bad_status : (status : ℕ) → Response A
  failed : Response A

-- `_get` and the JSON of its answer.
unfoldable pub get : {A : Type 0} → Response A → Outcome HubError A
get (answered a) = ok a
get unreachable = raise upstream_service_error
get timed_out = raise upstream_service_error
get (bad_status status) = raise upstream_service_error
get failed = raise other_error

-- `d[key]`
abbrev pub item : {A : Type 0} → Option A → Outcome HubError A
item none = raise key_error
item (some a) = ok a

module _ (Box : Type 0) where
  -- A detection as the hub reads it.
  pub record JsonDetection : Type 0 where
    pub cat_id : Option String
    pub captured_at : Option String
    pub bounding_box : Option Box

  pub record TrackerRead : Type 0 where
    pub cat_id : String
    pub cat_name : Option String
    pub bounding_box : Box
    pub captured_at : ℕ
    pub age_seconds : ℤ

  -- `latest_by_cat`: the normalised time, and the detection.
  abbrev pub Latest : Type 0
  Latest = Dict String (ℕ × JsonDetection)

  module _ (fromisoformat : String → Option Datetime) where
    -- `replace(tzinfo=UTC)` when there is no zone.
    abbrev pub normalized : Option Datetime → Outcome HubError ℕ
    normalized none = raise value_error
    normalized (some (naive t)) = ok t
    normalized (some (aware t)) = ok t

    unfoldable pub parse_captured_at : String → Outcome HubError ℕ
    parse_captured_at raw = normalized (fromisoformat raw)

    -- `existing is None or captured_at > existing["captured_at"]`
    abbrev pub is_newer : ℕ → Option (ℕ × JsonDetection) → Bool
    is_newer captured_at none = true
    is_newer captured_at (some (t, d)) = ltb t captured_at

    abbrev pub keep_newer : String → ℕ → JsonDetection → Latest → Latest
    keep_newer cat_id captured_at d latest =
        if is_newer captured_at (lookup str_dec cat_id latest)
        then insert str_dec cat_id (captured_at, d) latest
        else latest

    -- The body of the loop over the detections.
    unfoldable pub add_latest : JsonDetection → Latest → Outcome HubError Latest
    unfolding parse_captured_at
    add_latest d latest = do
      cat_id ← item d.cat_id
      raw ← item d.captured_at
      captured_at ← parse_captured_at raw
      ok (keep_newer cat_id captured_at d latest)

    unfoldable pub latest_by_cat : List JsonDetection → Latest → Outcome HubError Latest
    unfolding add_latest
    latest_by_cat [] latest = ok latest
    latest_by_cat (d ∷ ds) latest = add_latest d latest >>= latest_by_cat ds

    abbrev pub name_of : Option (Option String) → Option String
    name_of none = none
    name_of (some name) = name

    -- The loop over `latest_by_cat`; `cats` gives the `name` of each cat, if it has one.
    unfoldable pub trackers_of :
        (cats : Dict String (Option String)) (now : ℕ)
        → Latest
        → Outcome HubError (List TrackerRead)
    trackers_of cats now [] = ok []
    trackers_of cats now ((cat_id, (captured_at, d)) ∷ rest) = do
      box ← item d.bounding_box
      others ← trackers_of cats now rest
      ok (
          record {
            cat_id = cat_id;
            cat_name = name_of (lookup str_dec cat_id cats);
            bounding_box = box;
            captured_at = captured_at;
            age_seconds = sub_ℕ now captured_at;
          }
          ∷ others)

    abbrev pub is_after : String → String → Bool
    is_after a b = elim (compare a b) [ Ordering.gt ↦ true | _ ↦ false ]

    -- `trackers.sort(key=lambda t: t.cat_id)`
    unfoldable pub insert_sorted : TrackerRead → List TrackerRead → List TrackerRead
    insert_sorted t [] = t ∷ []
    insert_sorted t (u ∷ us) =
        if is_after t.cat_id u.cat_id then u ∷ insert_sorted t us else t ∷ u ∷ us

    unfoldable pub sort : List TrackerRead → List TrackerRead
    unfolding insert_sorted
    sort [] = []
    sort (t ∷ ts) = insert_sorted t (sort ts)

    unfoldable pub list_active_trackers :
        Response (Dict String (Option String))
        → Response (List JsonDetection)
        → (now : ℕ) → Outcome HubError (List TrackerRead)
    unfolding get latest_by_cat trackers_of sort
    list_active_trackers cats detections now = do
      cats_by_id ← get cats
      found ← get detections
      latest ← latest_by_cat found []
      trackers ← trackers_of cats_by_id now latest
      ok (sort trackers)
