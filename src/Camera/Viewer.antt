-- ===== src/Camera/Viewer.antt =====
-- `_mjpeg_generator` of camera/app/camera/router.py, `GET /video`: the polling of the camera. Each round
-- meets the camera as its thread has left it (both calls of a round one state), so a run is over the list
-- of those states; `jpeg_of` gives the bytes that a state names by a number.
pub mod Polled
mod Tests
use cat_sentinel.Prelude.{
  ℕ, Bool, true, false, ◌&&◌, List, [], ◌∷◌, Option, none, some, ◌==◌, if◌then◌else◌,
}
use cat_sentinel.Camera.Bridge.{RtspCamera, is_running}
use cat_sentinel.Sentinel.Mjpeg.{Bytes, part}

-- Equality of two `bytes`.
abbrev pub same_bytes : Bytes → Bytes → Bool
same_bytes [] [] = true
same_bytes [] (y ∷ ys) = false
same_bytes (x ∷ xs) [] = false
same_bytes (x ∷ xs) (y ∷ ys) = x == y && same_bytes xs ys

-- `frame != last_sent`
unfoldable pub is_new : (last_sent : Option Bytes) → Bytes → Bool
is_new none frame = true
is_new (some last) frame = if same_bytes frame last then false else true

module _ (jpeg_of : ℕ → Bytes) where
  -- `camera.get_frame()`
  unfoldable pub get_frame : RtspCamera → Option Bytes
  get_frame c = elim c.latest_jpeg [ none ↦ none | some jpeg ↦ some (jpeg_of jpeg) ]

  -- The parts that the generator yields over the rounds.
  unfoldable pub mjpeg_generator : (last_sent : Option Bytes) → List RtspCamera → List Bytes
  unfolding get_frame is_new is_running
  mjpeg_generator last [] = []
  mjpeg_generator last (c ∷ cs) =
      let unchanged = mjpeg_generator last cs in
      let sent = mjpeg_generator (get_frame c) cs in
      if is_running c
      then (elim (get_frame c) [
        | none ↦ unchanged
        | some frame ↦ if is_new last frame then part frame ∷ sent else unchanged
      ])
      else []
