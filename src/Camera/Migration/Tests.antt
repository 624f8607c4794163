-- ===== src/Camera/Migration/Tests.antt =====
-- The status of a new recording.
use cat_sentinel.Prelude.{◌≡◌, refl, true, false, none}
use cat_sentinel.Camera.Recordings.{recording}
use cat_sentinel.Camera.Migration.{upgrade, name_of, value_of}
use cat_sentinel.Camera.Migration.Labels.{labels_of, takes, takes-stored}

takes-stored_example :
    (takes (labels_of "recording_status" upgrade none) (name_of recording) ≡ false)
    × (takes (labels_of "recording_status" upgrade none) (value_of recording) ≡ true)
takes-stored_example = takes-stored name_of (λ s. refl) recording
