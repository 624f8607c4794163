-- ===== src/Sentinel/Annotator.antt =====
-- `FrameAnnotator.annotate` of cat-sentinel/app/vision/annotator.py, as the calls of OpenCV that it makes, and
-- `boxes_to_draw` of cat-sentinel/app/detections/pipeline.py. `int` is Python's int of a float, and
-- `text_size` the width and height that `getTextSize` answers.
pub mod Drawn
mod Tests
use cat_sentinel.Prelude.{
  ℕ, String, Bool, true, false, List, [], ◌∷◌, ◌++◌, Option, none, some, Outcome, ok, raise,
  if◌then◌else◌,
}
use cat_sentinel.Prelude.Int.{ℤ, pos, negsuc, ◌+ℤ◌, ◌-ℤ◌, leb_ℤ}
use cat_sentinel.Prelude.Floats.{Floats}
use cat_sentinel.Sentinel.Zones.{Zone}
use cat_sentinel.Sentinel.Tracker.{BoundingBox, TrackedObject}
use cat_sentinel.Sentinel.Cats.{Label, get_or_create}
use cat_sentinel.Sentinel.Detector.{RawDetection}
use cat_sentinel.Sentinel.Pipeline.{Pipeline, World, matched_zone, process_track, is_some}

-- Blue, green, red.
abbrev pub Colour : Type 0
Colour = ℕ × ℕ × ℕ

abbrev pub default_box_color : Colour
default_box_color = (0, 200, 0)

abbrev pub danger_box_color : Colour
danger_box_color = (0, 0, 255)

abbrev pub text_color : Colour
text_color = (255, 255, 255)

-- `f"{cat.label} #{track_id}"`
pub record Caption : Type 0 where
  pub label : Label
  pub track_id : ℕ

-- `cv2.rectangle`, whose thickness -1 fills it, and `cv2.putText`.
pub data Draw : Type 0 where
  rectangle : (p1 p2 : ℤ × ℤ) (color : Colour) (thickness : ℤ) → Draw
  put_text : Caption → (origin : ℤ × ℤ) (color : Colour) → Draw

-- `max(x, 0)`
abbrev pub at_least_zero : ℤ → ℤ
at_least_zero x = if leb_ℤ x (pos 0) then pos 0 else x

module _ (F : Floats) where
  pub record Box : Type 0 where
    pub bbox : BoundingBox F
    pub caption : Caption
    pub in_danger_zone : Bool

  module _ (int : F.Float → ℤ) (text_size : Caption → ℤ × ℤ) where
    abbrev pub color_of : Bool → Colour
    color_of true = danger_box_color
    color_of false = default_box_color

    -- The body of the loop over the boxes.
    unfoldable pub draw_box : Box → List Draw
    unfolding ◌+ℤ◌ ◌-ℤ◌
    draw_box b =
        let color = color_of b.in_danger_zone in
        let x = int b.bbox.left in
        let y = at_least_zero (int b.bbox.top -ℤ pos 8) in
        let (text_w, text_h) = text_size b.caption in
        rectangle (x, int b.bbox.top) (int b.bbox.right, int b.bbox.bottom) color (pos 2)
        ∷ rectangle (x, y -ℤ text_h -ℤ pos 4) (x +ℤ text_w +ℤ pos 4, y +ℤ pos 2) color (negsuc 0)
        ∷ put_text b.caption (x +ℤ pos 2, y) text_color
        ∷ []

    unfoldable pub annotate : List Box → List Draw
    unfolding draw_box
    annotate [] = []
    annotate (b ∷ bs) = draw_box b ++ annotate bs

  module _ (w : World F) where
    -- What a track appends to `boxes_to_draw`, if its step comes so far.
    unfoldable pub box_of :
        (zones : List (ℕ × Zone F)) → ℕ × TrackedObject F → Pipeline F → List Box
    box_of zones (track_id, o) s =
        elim (get_or_create w.others s.camera_id track_id s.next_uuid s.cats) [
          | raise e ↦ []
          | ok (t, cat_id, cat) ↦ elim (matched_zone F o.centroid zones) [
            | raise e ↦ []
            | ok zone ↦
                record {
                  bbox = o.bbox;
                  caption = record { label = cat.label; track_id = track_id };
                  in_danger_zone = is_some F w zone;
                }
                ∷ []
          ]
        ]

    -- `boxes_to_draw` behind the loop over the tracks; it is read only if no step has raised.
    unfoldable pub boxes_to_draw :
        (camera_id : String) (raws : List (RawDetection F)) (zones : List (ℕ × Zone F))
        → List (ℕ × TrackedObject F)
        → Pipeline F
        → List Box
    unfolding box_of
    boxes_to_draw camera_id raws zones [] s = []
    boxes_to_draw camera_id raws zones (e ∷ es) s =
        box_of zones e s
        ++ boxes_to_draw camera_id raws zones es (process_track F w camera_id raws zones e s).1
