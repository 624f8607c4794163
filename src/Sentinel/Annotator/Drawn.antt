-- ===== src/Sentinel/Annotator/Drawn.antt =====
-- The picture of a frame and its rows.
use cat_sentinel.Prelude.{
  ℕ, ◌≡◌, ◌∙◌, refl, ap, subst, Bool, true, false, Bool-cases, inl, inr, if◌then◌else◌, String,
  List, [], ◌∷◌, ◌++◌, ok, arith,
}
use cat_sentinel.Prelude.Int.{ℤ, pos, negsuc, ◌+ℤ◌, ◌-ℤ◌, leb_ℤ}
use cat_sentinel.Prelude.Floats.{Floats}
use cat_sentinel.Sentinel.Zones.{Zone, list_active_for_camera}
use cat_sentinel.Sentinel.Tracker.{SetOrder, TrackedObject}
use cat_sentinel.Sentinel.Cats.{Label}
use cat_sentinel.Sentinel.Detector.{RawDetection}
use cat_sentinel.Sentinel.Pipeline.{
  Detection, Pipeline, World, process_track, process_tracks, track_frame, frame_body,
}
use cat_sentinel.Sentinel.Pipeline.Rows.{
  process_track_row, first_track_went, no_track_went, tracks_went,
}
use cat_sentinel.Sentinel.Annotator.{
  Caption, Draw, rectangle, put_text, at_least_zero, draw_box, annotate, box_of, boxes_to_draw,
}

module _ (F : Floats) (int : F.Float → ℤ) (text_size : Caption → ℤ × ℤ) (w : World F) where
  -- Blue, green, red: a pure red, and a green.
  abbrev pub red_or_green : (in_danger_zone : Bool) → ℕ × ℕ × ℕ
  red_or_green true = (0, 0, 255)
  red_or_green false = (0, 200, 0)

  -- The upper edge of the box less eight pixels, or the upper edge of the picture.
  abbrev pub baseline : ℤ → ℤ
  baseline top = if leb_ℤ top (pos 8) then pos 0 else top -ℤ pos 8

  -- The picture of a row: its box as a frame of two pixels, and white, on a filled rectangle of the same
  -- colour, the label and the number of the track.
  abbrev pub picture_of : Detection F → (label : Label) (track_id : ℕ) → List Draw
  picture_of d label track_id =
      let caption : Caption = record { label = label; track_id = track_id } in
      let left = int d.bbox.left in
      let top = int d.bbox.top in
      let line = baseline top in
      rectangle (left, top) (int d.bbox.right, int d.bbox.bottom) (red_or_green d.in_danger_zone)
        (pos 2)
      ∷ rectangle (left, line -ℤ (text_size caption).1 -ℤ pos 4)
          (left +ℤ (text_size caption).0 +ℤ pos 4, line +ℤ pos 2) (red_or_green d.in_danger_zone)
          (negsuc 0)
      ∷ put_text caption (left +ℤ pos 2, line) (255, 255, 255)
      ∷ []

  -- From `old` to `new` a row was added for each track, and the calls draw these rows, in the order of the
  -- tracks.
  abbrev pub AreDrawn :
      List (ℕ × TrackedObject F) → (old new : List (Detection F)) → List Draw → Type 0
  AreDrawn [] old new draws = (new ≡ old) × (draws ≡ [])
  AreDrawn (e ∷ es) old new draws =
      (d : Detection F) × (label : Label) × (later : List Draw) × (draws
        ≡ picture_of d label e.0 ++ later)
      × AreDrawn es (d ∷ old) new later

  baseline_lem : (y : ℤ) → at_least_zero (y -ℤ pos 8) ≡ baseline y
  unfolding ◌-ℤ◌
  baseline_lem y = ground arith

  draw_box-picture_of :
      (d : Detection F) (label : Label) (track_id : ℕ)
      → draw_box F int text_size (record {
        bbox = d.bbox;
        caption = record { label = label; track_id = track_id };
        in_danger_zone = d.in_danger_zone;
      })
        ≡ picture_of d label track_id
  unfolding draw_box
  draw_box-picture_of d label track_id = elim (Bool-cases d.in_danger_zone) [
    | inl danger ↦ rw (danger, baseline_lem (int d.bbox.top)) refl
    | inr safe ↦ rw (safe, baseline_lem (int d.bbox.top)) refl
  ]

  box_of_row :
      (camera_id : String) (raws : List (RawDetection F)) (zones : List (ℕ × Zone F)) (id : ℕ)
      (o : TrackedObject F) (s s' : Pipeline F)
      → process_track F w camera_id raws zones (id, o) s ≡ (ok tt, s')
      → (d : Detection F) × (label : Label) × (s'.detections ≡ d ∷ s.detections)
        × (box_of F w zones (id, o) s
            ≡ record {
              bbox = d.bbox;
              caption = record { label = label; track_id = id };
              in_danger_zone = d.in_danger_zone;
            }
              ∷ [])
  unfolding box_of
  box_of_row camera_id raws zones id o s s' h =
      let (d, (_, box, _, zone, flag, _), added, ((t, cat_id, cat), got, _)) =
        process_track_row F w camera_id raws zones id o s s' h in
      (d, cat.label, added, ground (arith, got, zone, box, flag))

  process_tracks-AreDrawn :
      (camera_id : String) (raws : List (RawDetection F)) (zones : List (ℕ × Zone F))
      (es : List (ℕ × TrackedObject F)) (s s' : Pipeline F)
      → process_tracks F w camera_id raws zones es s ≡ (ok tt, s')
      → AreDrawn es s.detections s'.detections
          (annotate F int text_size (boxes_to_draw F w camera_id raws zones es s))
  unfolding annotate boxes_to_draw
  process_tracks-AreDrawn camera_id raws zones [] s s' h =
      (no_track_went F w camera_id raws zones s s' h, refl)
  process_tracks-AreDrawn camera_id raws zones ((id, o) ∷ es) s s' h =
      let r = process_track F w camera_id raws zones (id, o) s in
      let (e, rest) = first_track_went F w camera_id raws zones id o es s s' h in
      let (d, label, added, box) = box_of_row camera_id raws zones id o s r.1 e in
      let drawn = process_tracks-AreDrawn camera_id raws zones es r.1 s' rest in
      (
        d,
        label,
        annotate F int text_size (boxes_to_draw F w camera_id raws zones es r.1),
        ap (λ bs. annotate F int text_size (bs ++ boxes_to_draw F w camera_id raws zones es r.1))
              box
            ∙ ap
                (λ ds.
                  ds ++ annotate F int text_size (boxes_to_draw F w camera_id raws zones es r.1))
                (draw_box-picture_of d label id),
        subst
            (λ ds.
              AreDrawn es ds s'.detections
                (annotate F int text_size (boxes_to_draw F w camera_id raws zones es r.1)))
            added drawn,
      )

  -- The picture of a frame that goes through shows exactly the rows that the frame adds, in the order of
  -- the tracks: each with its box, red (0, 0, 255) if the row says that the cat is in a danger zone and
  -- green (0, 200, 0) otherwise, and above the box, or at the upper edge of the picture, a label and the
  -- number of its track in white on that colour.
  pub frame_body-AreDrawn :
      (S : SetOrder) (raws : List (RawDetection F)) (s s' : Pipeline F)
      → frame_body F w S raws s ≡ (ok tt, s')
      → let s1 = track_frame F w S raws s in
        AreDrawn s1.tracker.objects s.detections s'.detections (
          annotate F int text_size (
            boxes_to_draw F w s.camera_id raws
              (list_active_for_camera F s.camera_id s.zones)
              s1.tracker.objects
              s1))
  frame_body-AreDrawn S raws s s' h =
      let (s2, went, same) = tracks_went F w S raws s s' h in
      subst
        (λ ds. AreDrawn (track_frame F w S raws s).tracker.objects s.detections ds (
          annotate F int text_size (
            boxes_to_draw F w s.camera_id raws (list_active_for_camera F s.camera_id s.zones)
              (track_frame F w S raws s).tracker.objects (track_frame F w S raws s))))
        same
        (process_tracks-AreDrawn s.camera_id raws (list_active_for_camera F s.camera_id s.zones)
          (track_frame F w S raws s).tracker.objects (track_frame F w S raws s) s2 went)
