-- ===== src/Sentinel/Sanitize/Tests.antt =====
-- A zone's body with an infinite coordinate, over floats of which a negative one is not finite.
use cat_sentinel.Prelude.{◌≡◌, String, Bool, true, false}
use cat_sentinel.Prelude.Int.{ℤ, pos, negsuc}
use cat_sentinel.Prelude.Floats.{Floats, scaled}
use cat_sentinel.Sentinel.Sanitize.{
  Value, float_value, text, exception, list_value, dict_value, no_elements, element, no_entries,
  entry, other, sanitize, encodable, is_known,
}
use cat_sentinel.Sentinel.Sanitize.Encodable.{encodable-sanitize}

abbrev finite : ℤ → Bool
finite (pos n) = true
finite (negsuc n) = false

abbrev floats : Floats
unfolding scaled
floats = record scaled { finite = finite }

abbrev str_float : floats.Float → String
str_float x = "inf"

abbrev body : Value floats
unfolding floats scaled
body =
    dict_value
      (entry "x" (float_value (negsuc 0)) (entry "error" (exception "not finite") no_entries))

encodable-sanitize_example : encodable floats (sanitize floats str_float body) ≡ true
unfolding is_known body
encodable-sanitize_example = encodable-sanitize floats str_float body

-- The body of a request that is not JSON.
bytes_fail : encodable floats (sanitize floats str_float other) ≡ false
unfolding is_known
bytes_fail = encodable-sanitize floats str_float other

abbrev sound : Value floats
unfolding floats scaled
sound = list_value (element (float_value (pos 3)) (element (text "a") no_elements))
