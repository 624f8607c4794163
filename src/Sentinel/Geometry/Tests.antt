-- ===== src/Sentinel/Geometry/Tests.antt =====
-- Runs of `point_in_polygon` on a square and on the concave zone of test_zone_geometry.py, in whole
-- units, and the theorems at those inputs.
use cat_sentinel.Prelude.{
  ℕ, ◌≡◌, refl, true, false, List, [], ◌∷◌, ◌++◌, some, arith, inr, ltb, length, if◌then◌else◌,
}
use cat_sentinel.Prelude.Int.{pos}
use cat_sentinel.Prelude.Floats.{scaled, scaled_order, float_min, float_max}
use cat_sentinel.Sentinel.Geometry.{Point, spans, x_intersect, point_in_polygon}
use cat_sentinel.Sentinel.Geometry.Walk.{walk, point_in_polygon-walk}
use cat_sentinel.Sentinel.Geometry.Parity.{RingCutsRight}
use cat_sentinel.Sentinel.Geometry.Outside.{point_in_polygon_outside}

abbrev at_point : ℕ → ℕ → Point scaled
unfolding scaled
at_point x y = (pos x, pos y)

abbrev square_rest : List (Point scaled)
square_rest = at_point 10 0 ∷ at_point 10 10 ∷ at_point 0 10 ∷ []

abbrev square : List (Point scaled)
square = at_point 0 0 ∷ square_rest

inside_square : point_in_polygon scaled (at_point 5 5) square ≡ some true
unfolding point_in_polygon scaled
inside_square = refl

right_of_square : point_in_polygon scaled (at_point 15 5) square ≡ some false
unfolding point_in_polygon scaled
right_of_square = refl

two_points : point_in_polygon scaled (at_point 0 0) (at_point 0 0 ∷ at_point 1 1 ∷ []) ≡ some false
unfolding point_in_polygon
two_points = refl

point_in_polygon-walk_example : point_in_polygon scaled (at_point 5 5) square ≡ (
    if ltb (length square) 3
    then some false
    else walk scaled (at_point 5 5) (at_point 0 0) (square_rest ++ at_point 0 0 ∷ []) false)
point_in_polygon-walk_example =
    point_in_polygon-walk scaled (at_point 5 5) (at_point 0 0) square_rest

-- A triangle, and a point left of it, at a height where the ray meets two edges.
abbrev triangle : List (Point scaled)
triangle = at_point 10 0 ∷ at_point 20 10 ∷ at_point 10 20 ∷ []

left_cuts : RingCutsRight scaled (at_point 3 5) triangle
unfolding spans x_intersect scaled float_min float_max
left_cuts = (
  λ on. (pos 15, refl, refl),
  (λ on. absurd (ground (arith, on)), (λ on. (pos 10, refl, refl), tt)),
)

point_in_polygon_outside_example : point_in_polygon scaled (at_point 3 5) triangle ≡ some false
unfolding scaled
point_in_polygon_outside_example =
    point_in_polygon_outside scaled scaled_order (at_point 3 5) triangle
      (inr (inr (inr (refl, ((refl, refl), ((refl, refl), ((refl, refl), tt))), left_cuts))))
