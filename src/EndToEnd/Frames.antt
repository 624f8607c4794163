-- ===== src/EndToEnd/Frames.antt =====
-- From the camera's buffer (Camera/Viewer) over the HTTP stream (Sentinel/Mjpeg) to the pipeline
-- (Sentinel/Runner).
use mathlib.Core.List.{append-nil}
use cat_sentinel.Prelude.{
  ℕ, suc, ◌≤◌, ◌<◌, ◌≡◌, ap, ◌∙◌, Bool, List, [], ◌∷◌, map, Option, none, some, length,
  length-append, arith,
}
use cat_sentinel.Prelude.Floats.{Floats}
use cat_sentinel.Camera.Bridge.{RtspCamera}
use cat_sentinel.Camera.Viewer.{mjpeg_generator}
use cat_sentinel.Camera.Viewer.Polled.{squeeze, met, IsJpeg, feed_all-mjpeg_generator}
use cat_sentinel.Sentinel.Mjpeg.{Bytes, feed_all}
use cat_sentinel.Sentinel.Mjpeg.Stream.{concat}
use cat_sentinel.Sentinel.Tracker.{SetOrder}
use cat_sentinel.Sentinel.Pipeline.{World}
use cat_sentinel.Sentinel.Runner.{decoded_frames, Connection, Loop, run_forever}
use cat_sentinel.Sentinel.Runner.Frames.{
  length-map-some, looks_of, frames_of, process_all, run_forever-all,
}

-- A connection whose body comes in these chunks, as the stream client reads it.
abbrev pub read_from : (chunks : List Bytes) (fails : Bool) → Connection
read_from chunks fails = record { raw_jpegs = (feed_all [] chunks).0; fails = fails }

module _ {Image : Type 0} (decode : Bytes → Option Image) where
  length-decoded_frames-le : (raws : List Bytes) → length (decoded_frames decode raws) ≤ length raws
  unfolding decoded_frames
  length-decoded_frames-le [] = omega arith
  length-decoded_frames-le (r ∷ rs) = ground (arith, length-decoded_frames-le rs)

  length-looks_of-le :
      (c : Connection) → length (looks_of decode (c ∷ [])) ≤ suc (length c.raw_jpegs)
  unfolding looks_of
  length-looks_of-le c =
      let fs = decoded_frames decode c.raw_jpegs in
      omega (
        arith,
        length-append (map some fs) [],
        length-map-some fs,
        length-decoded_frames-le c.raw_jpegs,
      )

module _ (F : Floats) (S : SetOrder) {Image : Type 0} (decode : Bytes → Option Image)
    (meets : (n : ℕ) → Image → World F) where
  -- Over one connection to the camera, with more clear looks at the stop flag than frames to be
  -- sent, and however its bytes are cut into chunks: the pipeline processes, in order, each frame
  -- that the camera's generator met while the camera was running and that decodes, and of equal
  -- neighbours one; if no image that the camera shows has an end marker inside its body.
  pub run_forever-mjpeg_generator :
      (jpeg_of : ℕ → Bytes) (states : List RtspCamera) (chunk : Bytes) (chunks : List Bytes)
      (fails : Bool) (l : Loop F)
      → ((n : ℕ) → IsJpeg (jpeg_of n))
      → concat (chunk ∷ chunks) ≡ concat (mjpeg_generator jpeg_of none states)
      → length (squeeze (met jpeg_of states)) < l.checks
      → (run_forever F S decode meets (read_from (chunk ∷ chunks) fails ∷ []) l).pipeline
        ≡ process_all F S decode meets l.processed
            (decoded_frames decode (squeeze (met jpeg_of states)))
            l.pipeline
  unfolding frames_of
  run_forever-mjpeg_generator jpeg_of states chunk chunks fails l jpegs sent enough =
      let c = read_from (chunk ∷ chunks) fails in
      let same = feed_all-mjpeg_generator jpeg_of states chunk chunks jpegs sent in
      let few = length-looks_of-le decode c in
      (run_forever-all F S decode meets (c ∷ []) l (omega (arith, few, ap length same, enough))).0
      ∙ ap (λ fs. process_all F S decode meets l.processed fs l.pipeline)
          (append-nil (decoded_frames decode c.raw_jpegs) ∙ ap (decoded_frames decode) same)
