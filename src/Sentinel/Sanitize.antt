-- ===== src/Sentinel/Sanitize.antt =====
-- `_sanitize` of cat-sentinel/app/core/exceptions.py, which makes the answer to an invalid request
-- fit for JSON. `str_float` is Python's `str` of a float; an exception is given by its text. A tuple
-- is a list to it; what it returns as it is and JSON has no form for, such as the bytes of a body that is
-- not JSON, is `other`.
pub mod Encodable
mod Tests
use cat_sentinel.Prelude.{String, Bool, true, false, ◌&&◌, if◌then◌else◌}
use cat_sentinel.Prelude.Int.{ℤ}
use cat_sentinel.Prelude.Floats.{Floats}

module _ (F : Floats) where
  mutual
    pub data Value : Type 0 where
      none_value : Value
      boolean : Bool → Value
      integer : ℤ → Value
      float_value : F.Float → Value
      text : String → Value
      exception : (message : String) → Value
      list_value : Elements → Value
      dict_value : Entries → Value
      other : Value

    pub data Elements : Type 0 where
      no_elements : Elements
      element : Value → Elements → Elements

    pub data Entries : Type 0 where
      no_entries : Entries
      entry : (key : String) → Value → Entries → Entries

  module _ (str_float : F.Float → String) where
    mutual
      pub sanitize : Value → Value
      sanitize (float_value x) = if F.finite x then float_value x else text (str_float x)
      sanitize (exception message) = text message
      sanitize (dict_value es) = dict_value (sanitize_entries es)
      sanitize (list_value vs) = list_value (sanitize_elements vs)
      sanitize none_value = none_value
      sanitize (boolean b) = boolean b
      sanitize (integer n) = integer n
      sanitize (text s) = text s
      sanitize other = other

      pub sanitize_elements : Elements → Elements
      sanitize_elements no_elements = no_elements
      sanitize_elements (element v vs) = element (sanitize v) (sanitize_elements vs)

      pub sanitize_entries : Entries → Entries
      sanitize_entries no_entries = no_entries
      sanitize_entries (entry key v es) = entry key (sanitize v) (sanitize_entries es)

  -- What `json.dumps(..., allow_nan=False)` encodes without an exception.
  mutual
    pub encodable : Value → Bool
    encodable (float_value x) = F.finite x
    encodable (exception message) = false
    encodable (list_value vs) = encodable_elements vs
    encodable (dict_value es) = encodable_entries es
    encodable none_value = true
    encodable (boolean b) = true
    encodable (integer n) = true
    encodable (text s) = true
    encodable other = false

    pub encodable_elements : Elements → Bool
    encodable_elements no_elements = true
    encodable_elements (element v vs) = encodable v && encodable_elements vs

    pub encodable_entries : Entries → Bool
    encodable_entries no_entries = true
    encodable_entries (entry key v es) = encodable v && encodable_entries es

  -- Nothing in the value, at any depth, is `other`.
  mutual
    pub is_known : Value → Bool
    is_known (list_value vs) = are_known vs
    is_known (dict_value es) = entries_known es
    is_known other = false
    is_known (float_value x) = true
    is_known (exception message) = true
    is_known none_value = true
    is_known (boolean b) = true
    is_known (integer n) = true
    is_known (text s) = true

    pub are_known : Elements → Bool
    are_known no_elements = true
    are_known (element v vs) = is_known v && are_known vs

    pub entries_known : Entries → Bool
    entries_known no_entries = true
    entries_known (entry key v es) = is_known v && entries_known es
