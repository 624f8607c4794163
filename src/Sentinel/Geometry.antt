-- ===== src/Sentinel/Geometry.antt =====
-- `point_in_polygon` of cat-sentinel/app/zones/service.py.
pub mod Walk
pub mod Parity
pub mod Outside
mod Tests
use cat_sentinel.Prelude.{
  ℕ, zero, suc, ◌+◌, ◌%◌, Bool, true, false, not, ◌&&◌, ◌||◌, List, [], ◌∷◌, Option, none, some,
  length, get_elem?, ltb, if◌then◌else◌,
}
use cat_sentinel.Prelude.Floats.{Floats, float_min, float_max}

module _ (F : Floats) where
  open F use {Float, add, sub, mul, div, lt, le, eq}

  abbrev pub Point : Type 0
  Point = Float × Float

  -- The four tests of the `if`, in the source's order.
  pub spans : Point → Point → Point → Bool
  unfolding float_min float_max
  spans p a b =
      lt (float_min F a.1 b.1) p.1
      && le p.1 (float_max F a.1 b.1)
      && le p.0 (float_max F a.0 b.0)
      && not (eq a.1 b.1)

  -- `(y - y1) * (x2 - x1) / (y2 - y1) + x1`; `none` is the division by zero.
  pub x_intersect : Point → Point → Point → Option Float
  x_intersect p a b = elim (div (mul (sub p.1 a.1) (sub b.0 a.0)) (sub b.1 a.1)) [
    | none ↦ none
    | some q ↦ some (add q a.0)
  ]

  -- One round of the loop: `inside` after the edge from `a` to `b`.
  pub cross_edge : Point → Point → Point → Bool → Option Bool
  unfolding spans x_intersect
  cross_edge p a b inside =
      if spans p a b
      then elim (x_intersect p a b) [
        | none ↦ none
        | some cut ↦ some (if eq a.0 b.0 || le p.0 cut then not inside else inside)
      ]
      else some inside

  -- The rest of `for i in range(1, n + 1)`, with `rounds` rounds to go; `none` is an exception
  -- (of the division, or of an index out of range).
  pub edge_loop : List Point → Point → (rounds i : ℕ) → Point → Bool → Option Bool
  unfolding cross_edge
  edge_loop polygon p zero i prev inside = some inside
  edge_loop polygon p (suc rounds) i prev inside = elim (get_elem? polygon (i % length polygon)) [
    | none ↦ none
    | some next ↦ elim (cross_edge p prev next inside) [
      | none ↦ none
      | some inside' ↦ edge_loop polygon p rounds (i + 1) next inside'
    ]
  ]

  unfoldable pub point_in_polygon : Point → List Point → Option Bool
  unfolding edge_loop
  point_in_polygon p polygon =
      if ltb (length polygon) 3 then some false else elim (get_elem? polygon 0) [
        | none ↦ none
        | some first ↦ edge_loop polygon p (length polygon) 1 first false
      ]
