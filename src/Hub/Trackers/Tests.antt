-- ===== src/Hub/Trackers/Tests.antt =====
-- Detections of two cats, one of whose times has no zone.
use cat_sentinel.Prelude.{
  ℕ, refl, String, List, [], ◌∷◌, Option, none, some, All, str_dec, lookup, insert,
}
use cat_sentinel.Hub.Trackers.{
  Datetime, naive, aware, JsonDetection, Latest, parse_captured_at, add_latest, latest_by_cat,
}
use cat_sentinel.Hub.Trackers.Newest.{Shows, Reads, Holds, IsOneOf, latest_by_cat-Shows}

abbrev fromisoformat : String → Option Datetime
fromisoformat raw = elim (str_dec raw "early") [ yes _ ↦ some (naive 10) | no _ ↦ some (aware 20) ]

abbrev detection : String → String → JsonDetection ℕ
detection cat raw = record { cat_id = some cat; captured_at = some raw; bounding_box = some 7 }

abbrev detections : List (JsonDetection ℕ)
detections = detection "tom" "late" ∷ detection "tom" "early" ∷ detection "kit" "early" ∷ []

abbrev latest : Latest ℕ
latest = ("tom", (20, detection "tom" "late")) ∷ ("kit", (10, detection "kit" "early")) ∷ []

latest_by_cat-Shows_example :
    All
      (λ d. (c : String) × (t : ℕ) × Reads ℕ fromisoformat d c t × Shows ℕ fromisoformat c t latest)
      detections
    × Holds ℕ fromisoformat (IsOneOf ℕ fromisoformat detections) latest
unfolding latest_by_cat add_latest parse_captured_at lookup insert str_dec
latest_by_cat-Shows_example = latest_by_cat-Shows ℕ fromisoformat detections latest refl

abbrev of_sentinel : JsonDetection ℕ
of_sentinel = record { cat_id = some "tom"; captured_at = none; bounding_box = none }
