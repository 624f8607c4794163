-- ===== src/Sentinel/Geometry/Parity.antt =====
-- A point left of a polygon: the ray from it to the right meets the ring an even number of times.
use cat_sentinel.Prelude.{
  ◌≡◌, refl, Bool, true, false, not, List, [], ◌∷◌, ◌++◌, some, arith, inl, inr, Bool-cases, All,
  ◌∙◌, ap,
}
use cat_sentinel.Prelude.Floats.{Floats, OrderLaws, float_min, float_max}
use cat_sentinel.Sentinel.Geometry.{Point, spans, x_intersect, cross_edge, point_in_polygon}
use cat_sentinel.Sentinel.Geometry.Walk.{walk, walk_step, point_in_polygon-walk}

module _ (F : Floats) where
  -- The vertex `v` is not left of the point, and of a finite height.
  abbrev pub RightOf : Point F → Point F → Type 0
  RightOf p v = (F.le p.0 v.0 ≡ true) × (F.finite v.1 ≡ true)

  -- The edge, if it spans the height of the point, is computed to cut it right of the point.
  abbrev pub CutsRight : Point F → (a b : Point F) → Type 0
  CutsRight p a b =
      spans F p a b ≡ true
      → (cut : F.Float) × (x_intersect F p a b ≡ some cut) × (F.le p.0 cut ≡ true)

  abbrev pub EachCutsRight : Point F → Point F → List (Point F) → Type 0
  EachCutsRight p prev [] = Unit
  EachCutsRight p prev (v ∷ rest) = CutsRight p prev v × EachCutsRight p v rest

  -- The edges of the ring.
  abbrev pub RingCutsRight : Point F → List (Point F) → Type 0
  RingCutsRight p [] = Unit
  RingCutsRight p (first ∷ rest) = EachCutsRight p first (rest ++ first ∷ [])

  abbrev is_below : Point F → Point F → Bool
  is_below p v = F.lt v.1 p.1

  -- `inside` behind a path that has gone from one side of the height to another.
  abbrev toggled : (from to inside : Bool) → Bool
  toggled true true inside = inside
  toggled false false inside = inside
  toggled true false inside = not inside
  toggled false true inside = not inside

  toggled_twice : (a b c inside : Bool) → toggled b c (toggled a b inside) ≡ toggled a c inside
  toggled_twice true true true inside = refl
  toggled_twice true true false inside = refl
  toggled_twice true false true true = refl
  toggled_twice true false true false = refl
  toggled_twice true false false inside = refl
  toggled_twice false true true inside = refl
  toggled_twice false true false true = refl
  toggled_twice false true false false = refl
  toggled_twice false false true inside = refl
  toggled_twice false false false inside = refl

  toggled_same : (a inside : Bool) → toggled a a inside ≡ inside
  toggled_same true inside = refl
  toggled_same false inside = refl

  -- An edge whose ends are on two sides of the height.
  abbrev differ : Bool → Bool → Bool
  differ a b = toggled a b false

  module _ (laws : OrderLaws F) (p : Point F) (fin : F.finite p.1 ≡ true) where
    spans-differ :
        (a b : Point F)
        → RightOf p a
        → RightOf p b
        → spans F p a b ≡ differ (is_below p a) (is_below p b)
    unfolding spans float_min float_max
    spans-differ a b (ra, fa) (rb, fb) =
        let la = laws.le_not_lt p.1 a.1 fin fa in
        let lb = laws.le_not_lt p.1 b.1 fin fb in
        elim (Bool-cases (is_below p a)) [
          | inl ba ↦ elim (Bool-cases (is_below p b)) [
            | inl bb ↦ ground (arith, ba, bb, la, lb)
            | inr nb ↦
                let up = laws.lt_le_trans a.1 p.1 b.1 fa fin fb ba nb in
                let distinct = laws.eq_not_lt a.1 b.1 fa fb up in
                elim (Bool-cases (F.lt b.1 a.1)) [
                  | inl down ↦
                      absurd (ground (arith, nb, laws.lt_trans b.1 a.1 p.1 fb fa fin down ba))
                  | inr flat ↦ ground (arith, ba, nb, up, flat, distinct, ra, rb, la, lb)
                ]
          ]
          | inr na ↦ elim (Bool-cases (is_below p b)) [
            | inr nb ↦ ground (arith, na, nb)
            | inl bb ↦
                let up = laws.lt_le_trans b.1 p.1 a.1 fb fin fa bb na in
                let distinct = laws.eq_not_lt b.1 a.1 fb fa up in
                elim (Bool-cases (F.lt a.1 b.1)) [
                  | inl down ↦
                      absurd (ground (arith, na, laws.lt_trans a.1 b.1 p.1 fa fb fin down bb))
                  | inr flat ↦ ground (arith, na, bb, up, flat, distinct, ra, rb, la, lb)
                ]
          ]
        ]

    cross_edge-toggled :
        (a b : Point F) (inside : Bool)
        → RightOf p a
        → RightOf p b
        → CutsRight p a b
        → cross_edge F p a b inside ≡ some (toggled (is_below p a) (is_below p b) inside)
    unfolding cross_edge
    cross_edge-toggled a b inside ra rb cuts =
        let e = spans-differ a b ra rb in
        elim (Bool-cases (spans F p a b)) [
          | inl on ↦
              let (cut, found, right) = cuts on in
              elim (Bool-cases (is_below p a)) [
                | inl ba ↦ ground (arith, on, e, found, right, ba)
                | inr na ↦ ground (arith, on, e, found, right, na)
              ]
          | inr off ↦ elim (Bool-cases (is_below p a)) [
            | inl ba ↦ ground (arith, off, e, ba)
            | inr na ↦ ground (arith, off, e, na)
          ]
        ]

    -- A path to `first`.
    walk-toggled :
        (first prev : Point F) (rest : List (Point F)) (inside : Bool)
        → RightOf p first
        → RightOf p prev
        → All (RightOf p) rest
        → EachCutsRight p prev (rest ++ first ∷ [])
        → walk F p prev (rest ++ first ∷ []) inside
          ≡ some (toggled (is_below p prev) (is_below p first) inside)
    unfolding walk
    walk-toggled first prev [] inside rf rp all (c, cs) =
        rw (walk, cross_edge-toggled prev first inside rp rf c) refl
    walk-toggled first prev (v ∷ rest) inside rf rp (rv, all) (c, cs) =
        let b = toggled (is_below p prev) (is_below p v) inside in
        walk_step F p prev v (rest ++ first ∷ []) inside b
          (cross_edge-toggled prev v inside rp rv c)
        ∙ walk-toggled first v rest b rf rv all cs
        ∙ ap some (toggled_twice (is_below p prev) (is_below p v) (is_below p first) inside)

    pub ring_left :
        (polygon : List (Point F))
        → All (RightOf p) polygon
        → RingCutsRight p polygon
        → point_in_polygon F p polygon ≡ some false
    unfolding point_in_polygon
    ring_left [] all cuts = refl
    ring_left (first ∷ rest) (rf, all) cuts =
        let around = walk-toggled first first rest false rf rf all cuts in
        ground (
          arith,
          point_in_polygon-walk F p first rest,
          around,
          toggled_same (is_below p first) false,
        )
