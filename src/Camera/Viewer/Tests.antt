-- ===== src/Camera/Viewer/Tests.antt =====
-- A live stream of three states of the camera, the first two with the same frame.
use cat_sentinel.Prelude.{ℕ, ◌≡◌, refl, sym, ap, true, List, [], ◌∷◌, none, some}
use cat_sentinel.Camera.Bridge.{RtspCamera, new_camera, is_running}
use cat_sentinel.Sentinel.Mjpeg.{Bytes, framed, part}
use cat_sentinel.Sentinel.Mjpeg.Stream.{concat}
use cat_sentinel.Camera.Viewer.{get_frame, is_new, mjpeg_generator}
use cat_sentinel.Camera.Viewer.Polled.{squeeze, met}

abbrev jpeg_of : ℕ → Bytes
jpeg_of n = framed (n ∷ [])

abbrev showing : ℕ → RtspCamera
unfolding new_camera
showing n = record new_camera { thread_alive = true; latest_jpeg = some n }

-- The last state is that of a camera that has been stopped.
abbrev states : List RtspCamera
states =
    record new_camera { thread_alive = true }
    ∷ showing 1
    ∷ showing 1
    ∷ showing 2
    ∷ new_camera
    ∷ showing 3
    ∷ []

squeezed : squeeze (met jpeg_of states) ≡ jpeg_of 1 ∷ jpeg_of 2 ∷ []
unfolding squeeze met get_frame is_running new_camera showing
squeezed = refl

-- Cut at the end of the first part.
two_parts : mjpeg_generator jpeg_of none states ≡ part (jpeg_of 1) ∷ part (jpeg_of 2) ∷ []
unfolding mjpeg_generator get_frame is_running new_camera is_new showing
two_parts = refl

sent :
    concat (part (jpeg_of 1) ∷ part (jpeg_of 2) ∷ []) ≡ concat (mjpeg_generator jpeg_of none states)
sent = ap concat (sym two_parts)
