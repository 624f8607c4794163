-- ===== src/Camera/Lifespan/Tests.antt =====
-- An application that is shut down during a recording, with a flush that raises.
use cat_sentinel.Prelude.{◌≡◌, refl, true, false, List, [], ◌∷◌, none, ok, raise}
use cat_sentinel.Camera.Errors.{motor_error}
use cat_sentinel.Camera.Bridge.{Ends, all_well}
use cat_sentinel.Camera.Bridge.Keeps.{Step, opened, recording_started, was_reset}
use cat_sentinel.Camera.Lifespan.{lifespan}
use cat_sentinel.Camera.Lifespan.Shutdown.{lifespan_lem}

abbrev steps : List Step
steps = opened ∷ recording_started true 2 "a.mp4" ∷ was_reset all_well ∷ []

abbrev flush_raises : Ends
flush_raises = record all_well { flushes = false }

lifespan_lem_example :
    ((lifespan (ok tt) flush_raises steps).1.camera.thread_alive ≡ false)
    × ((lifespan (ok tt) flush_raises steps).1.camera.unjoined ≡ 0)
    × ((lifespan (ok tt) flush_raises steps).1.camera.output ≡ none)
    × ((lifespan (ok tt) flush_raises steps).1.reconciling ≡ false)
    × ((lifespan (raise motor_error) flush_raises steps).0 ≡ raise motor_error)
    × ((lifespan (raise motor_error) flush_raises steps).1.camera.thread_alive ≡ true)
lifespan_lem_example = lifespan_lem flush_raises steps motor_error refl refl (refl, tt)
