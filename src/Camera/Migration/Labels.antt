-- ===== src/Camera/Migration/Labels.antt =====
-- The texts that the model stores, against the type that the migration creates.
use cat_sentinel.Prelude.{
  ◌≡◌, refl, ap, ◌∙◌, String, Bool, true, false, List, [], ◌∷◌, Option, none, some, ite, str_dec,
}
use cat_sentinel.Camera.Recordings.{RecordingStatus, recording, completed, failed, missing}
use cat_sentinel.Camera.Migration.{
  Operation, create_enum, drop_enum, create_table, create_index, drop_index, drop_table, upgrade,
  name_of, value_of,
}

-- The labels of an enum type in the database behind some operations; `none` if there is no such type.
unfoldable pub labels_of :
    (name : String) → List Operation → Option (List String) → Option (List String)
labels_of name [] at = at
labels_of name (create_enum other labels checkfirst ∷ os) none =
    labels_of name os (ite (str_dec other name) (some labels) none)
labels_of name (create_enum other labels checkfirst ∷ os) (some old) = labels_of name os (some old)
labels_of name (drop_enum other checkfirst ∷ os) at =
    labels_of name os (ite (str_dec other name) none at)
labels_of name (create_table table columns ∷ os) at = labels_of name os at
labels_of name (create_index index table column unique ∷ os) at = labels_of name os at
labels_of name (drop_index index table ∷ os) at = labels_of name os at
labels_of name (drop_table table ∷ os) at = labels_of name os at

-- A value that the column takes: one of the labels of its type.
unfoldable pub takes : Option (List String) → String → Bool
takes none stored = false
takes (some []) stored = false
takes (some (label ∷ labels)) stored = ite (str_dec stored label) true (takes (some labels) stored)

name_refused :
    (s : RecordingStatus) → takes (labels_of "recording_status" upgrade none) (name_of s) ≡ false
unfolding takes labels_of upgrade name_of str_dec
name_refused recording = refl
name_refused completed = refl
name_refused failed = refl
name_refused missing = refl

value_taken :
    (s : RecordingStatus) → takes (labels_of "recording_status" upgrade none) (value_of s) ≡ true
unfolding takes labels_of upgrade value_of str_dec
value_taken recording = refl
value_taken completed = refl
value_taken failed = refl
value_taken missing = refl

-- On a database without the type `recording_status`, the upgrade creates one that takes the value of each
-- status; but it takes the stored text of none, if a status is stored by the name of its member.
pub takes-stored :
    (stored : RecordingStatus → String)
    → ((s : RecordingStatus) → stored s ≡ name_of s)
    → (s : RecordingStatus)
    → let labels = labels_of "recording_status" upgrade none in
      (takes labels (stored s) ≡ false) × (takes labels (value_of s) ≡ true)
takes-stored stored by_name s = (
  ap (takes (labels_of "recording_status" upgrade none)) (by_name s) ∙ name_refused s,
  value_taken s,
)
