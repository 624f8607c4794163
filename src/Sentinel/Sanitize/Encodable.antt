-- ===== src/Sentinel/Sanitize/Encodable.antt =====
-- Which sanitized bodies encode, and that a body that encodes is not changed.
use cat_sentinel.Prelude.{◌≡◌, refl, ap, String, true, arith, Bool-cases, inl, inr}
use cat_sentinel.Prelude.Floats.{Floats}
use cat_sentinel.Sentinel.Sanitize.{
  Value, Elements, Entries, none_value, boolean, integer, float_value, text, exception, list_value,
  dict_value, no_elements, element, no_entries, entry, other, sanitize, sanitize_elements,
  sanitize_entries, encodable, encodable_elements, encodable_entries, is_known, are_known,
  entries_known,
}

module _ (F : Floats) (str_float : F.Float → String) where
  mutual
    unfolding sanitize encodable is_known

    encodes : (v : Value F) → encodable F (sanitize F str_float v) ≡ is_known F v
    encodes (float_value x) = elim (Bool-cases (F.finite x)) [
      | inl h ↦ ground (arith, h)
      | inr h ↦ ground (arith, h)
    ]
    encodes (exception message) = refl
    encodes (list_value vs) = encodes_elements vs
    encodes (dict_value es) = encodes_entries es
    encodes none_value = refl
    encodes (boolean b) = refl
    encodes (integer n) = refl
    encodes (text s) = refl
    encodes other = refl

    encodes_elements :
        (vs : Elements F) → encodable_elements F (sanitize_elements F str_float vs) ≡ are_known F vs
    encodes_elements no_elements = refl
    encodes_elements (element v vs) = cc (encodes v, encodes_elements vs)

    encodes_entries :
        (es : Entries F)
        → encodable_entries F (sanitize_entries F str_float es) ≡ entries_known F es
    encodes_entries no_entries = refl
    encodes_entries (entry key v es) = cc (encodes v, encodes_entries es)

  mutual
    unfolding sanitize encodable

    stays : (v : Value F) → encodable F v ≡ true → sanitize F str_float v ≡ v
    stays (float_value x) h = ground (arith, h)
    stays (exception message) h = absurd (ground (arith, h))
    stays (list_value vs) h = ap list_value (stays_elements vs h)
    stays (dict_value es) h = ap dict_value (stays_entries es h)
    stays none_value h = refl
    stays (boolean b) h = refl
    stays (integer n) h = refl
    stays (text s) h = refl
    stays other h = refl

    stays_elements :
        (vs : Elements F) → encodable_elements F vs ≡ true → sanitize_elements F str_float vs ≡ vs
    stays_elements no_elements h = refl
    stays_elements (element v vs) h = ground (arith, h, stays v, stays_elements vs)

    stays_entries :
        (es : Entries F) → encodable_entries F es ≡ true → sanitize_entries F str_float es ≡ es
    stays_entries no_entries h = refl
    stays_entries (entry key v es) h = ground (arith, h, stays v, stays_entries es)

  -- What `_sanitize` makes of the body of the request and of the errors of its validation encodes as JSON
  -- exactly if nothing in them, at any depth, is a value that it does not know: infinite and undefined
  -- floats and exceptions do encode then, and the bytes of a body that is not JSON do not.
  pub encodable-sanitize : (v : Value F) → encodable F (sanitize F str_float v) ≡ is_known F v
  encodable-sanitize v = encodes v

  -- A value that encodes as JSON as it is comes back unchanged.
  pub sanitize-encodable : (v : Value F) → encodable F v ≡ true → sanitize F str_float v ≡ v
  sanitize-encodable v h = stays v h
