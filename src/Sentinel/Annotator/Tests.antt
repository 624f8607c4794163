-- ===== src/Sentinel/Annotator/Tests.antt =====
-- The picture of a cat in a zone.
use cat_sentinel.Prelude.{◌≡◌, refl, true, [], ◌∷◌}
use cat_sentinel.Prelude.Int.{ℤ, pos, negsuc, ◌+ℤ◌, ◌-ℤ◌}
use cat_sentinel.Prelude.Floats.{scaled}
use cat_sentinel.Sentinel.Zones.{list_active_for_camera}
use cat_sentinel.Sentinel.Tracker.{in_order}
use cat_sentinel.Sentinel.Cats.{numbered}
use cat_sentinel.Sentinel.Pipeline.{track_frame}
use cat_sentinel.Sentinel.Pipeline.Tests.{box, cat_seen, world, known, known_after, known_frame}
use cat_sentinel.Sentinel.Annotator.{
  Caption, rectangle, put_text, danger_box_color, text_color, draw_box, annotate, boxes_to_draw,
}
use cat_sentinel.Sentinel.Annotator.Drawn.{AreDrawn, frame_body-AreDrawn}

abbrev int : scaled.Float → ℤ
unfolding scaled
int x = x

abbrev text_size : Caption → ℤ × ℤ
text_size caption = (pos 40, pos 10)

abbrev caption : Caption
caption = record { label = numbered 1; track_id = 1 }

-- The caption stands below the upper edge of the frame.
red_box :
    draw_box scaled int text_size (record { bbox = box; caption = caption; in_danger_zone = true })
    ≡ rectangle (pos 0, pos 0) (pos 10, pos 10) danger_box_color (pos 2)
      ∷ rectangle (pos 0, negsuc 13) (pos 44, pos 2) danger_box_color (negsuc 0)
      ∷ put_text caption (pos 2, pos 0) text_color
      ∷ []
unfolding scaled box int draw_box ◌+ℤ◌ ◌-ℤ◌
red_box = refl

frame_body-AreDrawn_example :
    let s1 = track_frame scaled world in_order (cat_seen ∷ []) known in
    AreDrawn scaled int text_size world s1.tracker.objects known.detections known_after.detections (
      annotate scaled int text_size (
        boxes_to_draw scaled world known.camera_id
          (cat_seen ∷ [])
          (list_active_for_camera scaled known.camera_id known.zones)
          s1.tracker.objects
          s1))
frame_body-AreDrawn_example =
    frame_body-AreDrawn scaled int text_size world in_order (cat_seen ∷ []) known known_after
      known_frame
