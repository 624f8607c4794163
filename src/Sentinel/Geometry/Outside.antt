-- ===== src/Sentinel/Geometry/Outside.antt =====
-- Points that no polygon contains, and a vertex that changes nothing.
use cat_sentinel.Prelude.{
  ◌≤◌, ◌≡◌, refl, Bool, true, false, List, [], ◌∷◌, ◌++◌, none, some, arith, inl, inr, Option-cases,
  length, length-append, All, All-append, ◌⊎◌,
}
use mathlib.Core.List.{append_assoc}
use cat_sentinel.Prelude.Floats.{Floats, FiniteLaws, OrderLaws}
use cat_sentinel.Sentinel.Geometry.{Point, spans, cross_edge, point_in_polygon}
use cat_sentinel.Sentinel.Geometry.Parity.{RightOf, RingCutsRight, ring_left}
use cat_sentinel.Sentinel.Geometry.Walk.{walk, IsFinite, point_in_polygon-walk}

module _ (F : Floats) where
  -- The vertex `v` is not below the point, or it is below it, or it is left of it.
  abbrev pub NotBelow : Point F → Point F → Type 0
  NotBelow p v = F.lt v.1 p.1 ≡ false

  abbrev pub NotAbove : Point F → Point F → Type 0
  NotAbove p v = F.le p.1 v.1 ≡ false

  abbrev pub LeftOf : Point F → Point F → Type 0
  LeftOf p v = F.le p.0 v.0 ≡ false

  -- No vertex is left of the point, all is finite, and each edge that spans the height of the point is
  -- computed to cut it right of the point: exact arithmetic does, and a rounding must not undo it.
  abbrev pub IsLeft : Point F → List (Point F) → Type 0
  IsLeft p polygon = (F.finite p.1 ≡ true) × All (RightOf F p) polygon × RingCutsRight F p polygon

  -- The point is outside the bounding box: on its lower edge or below, above it, right of it, or on its
  -- left edge or left of it.
  abbrev pub IsOutsideBox : Point F → List (Point F) → Type 0
  IsOutsideBox p polygon =
      All (NotBelow p) polygon
      ⊎ (All (NotAbove p) polygon ⊎ (All (LeftOf p) polygon ⊎ IsLeft p polygon))

  not-spans-NotBelow : (p a b : Point F) → NotBelow p a → NotBelow p b → spans F p a b ≡ false
  unfolding spans
  not-spans-NotBelow p a b ha hb = ground arith

  not-spans-NotAbove : (p a b : Point F) → NotAbove p a → NotAbove p b → spans F p a b ≡ false
  unfolding spans
  not-spans-NotAbove p a b ha hb = ground arith

  not-spans-LeftOf : (p a b : Point F) → LeftOf p a → LeftOf p b → spans F p a b ≡ false
  unfolding spans
  not-spans-LeftOf p a b ha hb = ground arith

  -- A walk whose edges all fail the tests leaves `inside` as it was.
  walk_outside :
      (p : Point F) (Side : Point F → Type 0)
      → ((a b : Point F) → Side a → Side b → spans F p a b ≡ false)
      → (prev : Point F) (rest : List (Point F)) (inside : Bool) → Side prev
      → All Side rest
      → walk F p prev rest inside ≡ some inside
  unfolding walk cross_edge
  walk_outside p Side misses prev [] inside hp hr = refl
  walk_outside p Side misses prev (v ∷ rest) inside hp hr =
      rw (walk, cross_edge, misses prev v hp hr.0)
        (walk_outside p Side misses v rest inside hr.0 hr.1)

  ring_outside :
      (p : Point F) (Side : Point F → Type 0)
      → ((a b : Point F) → Side a → Side b → spans F p a b ≡ false)
      → (polygon : List (Point F)) → All Side polygon
      → point_in_polygon F p polygon ≡ some false
  unfolding point_in_polygon
  ring_outside p Side misses [] h = refl
  ring_outside p Side misses (first ∷ rest) h =
      let around =
        walk_outside p Side misses first (rest ++ first ∷ []) false h.0
          (All-append Side rest (first ∷ []) h.1 (h.0, tt)) in
      ground (arith, point_in_polygon-walk F p first rest, around)

  -- A point outside the bounding box of the vertices is in no polygon, on each of the four sides, whatever
  -- the form of the polygon. Below, above and right of the box nothing is assumed of the float comparisons,
  -- so a point with a NaN coordinate counts as outside too. Left of it the heights are finite, finite floats
  -- are in order, and no rounding has moved a cut of an edge to the left of the point.
  pub point_in_polygon_outside :
      (laws : OrderLaws F) (p : Point F) (polygon : List (Point F))
      → IsOutsideBox p polygon
      → point_in_polygon F p polygon ≡ some false
  point_in_polygon_outside laws p polygon (inl h) =
      ring_outside p (NotBelow p) (not-spans-NotBelow p) polygon h
  point_in_polygon_outside laws p polygon (inr (inl h)) =
      ring_outside p (NotAbove p) (not-spans-NotAbove p) polygon h
  point_in_polygon_outside laws p polygon (inr (inr (inl h))) =
      ring_outside p (LeftOf p) (not-spans-LeftOf p) polygon h
  point_in_polygon_outside laws p polygon (inr (inr (inr (fin, all, cuts)))) =
      ring_left F laws p fin polygon all cuts

  walk-append :
      (p prev v : Point F) (rest more : List (Point F)) (inside : Bool)
      → walk F p prev (rest ++ v ∷ more) inside ≡ elim (walk F p prev (rest ++ v ∷ []) inside) [
        | none ↦ none
        | some inside' ↦ walk F p v more inside'
      ]
  unfolding walk
  walk-append p prev v [] more inside = ground arith
  walk-append p prev v (w ∷ rest) more inside = elim (Option-cases (cross_edge F p prev w inside)) [
    | inl e ↦ rw (walk, e)
    | inr (b, e) ↦ rw (walk, e) (walk-append p w v rest more b)
  ]

  self_edge :
      (p a : Point F) (inside : Bool)
      → F.eq a.1 a.1 ≡ true
      → cross_edge F p a a inside ≡ some inside
  unfolding cross_edge spans
  self_edge p a inside h = ground arith

  -- The ring is open: to repeat the first vertex at the end changes no answer.
  pub point_in_polygon_closed :
      (laws : FiniteLaws F) (p first : Point F) (rest : List (Point F))
      → 2 ≤ length rest
      → IsFinite F first
      → point_in_polygon F p (first ∷ rest ++ first ∷ []) ≡ point_in_polygon F p (first ∷ rest)
  unfolding walk
  point_in_polygon_closed laws p first rest long fin =
      elim (Option-cases (walk F p first (rest ++ first ∷ []) false)) [
        | inl e ↦ ground (
          arith,
          length-append rest (first ∷ []),
          point_in_polygon-walk F p first rest,
          point_in_polygon-walk F p first (rest ++ first ∷ []),
          append_assoc rest (first ∷ []) (first ∷ []),
          walk-append p first first rest (first ∷ []) false,
        )
        | inr (b, e) ↦ ground (
          arith,
          length-append rest (first ∷ []),
          point_in_polygon-walk F p first rest,
          point_in_polygon-walk F p first (rest ++ first ∷ []),
          append_assoc rest (first ∷ []) (first ∷ []),
          walk-append p first first rest (first ∷ []) false,
          self_edge p first b (laws.eq_refl first.1 fin.1),
        )
      ]
