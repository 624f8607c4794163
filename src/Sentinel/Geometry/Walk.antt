-- ===== src/Sentinel/Geometry/Walk.antt =====
-- The index loop of `point_in_polygon` against a walk round the ring of edges.
use mathlib.Core.List.{append-nil, append_assoc}
use native.Mathlib.Nat.{mod-eq_of_lt}
use cat_sentinel.Prelude.{
  ℕ, suc, ◌+◌, ◌%◌, ◌<◌, ◌≡◌, ◌≢◌, refl, ap, ◌∙◌, Bool, true, false, List, [], ◌∷◌, ◌++◌, Option,
  none, some, sym, arith, inl, inr, Option-cases, Bool-cases, length, ltb, get_elem?,
  get_elem?-append, length-append, All-append, All, if◌then◌else◌,
}
use cat_sentinel.Prelude.Floats.{Floats, FiniteLaws}
use cat_sentinel.Sentinel.Geometry.{
  Point, spans, x_intersect, cross_edge, edge_loop, point_in_polygon,
}

module _ (F : Floats) where
  open F use {Float}

  -- From vertex to vertex along a path, toggling at each edge.
  unfoldable pub walk : Point F → Point F → List (Point F) → Bool → Option Bool
  walk p prev [] inside = some inside
  walk p prev (next ∷ rest) inside = elim (cross_edge F p prev next inside) [
    | none ↦ none
    | some inside' ↦ walk p next rest inside'
  ]

  pub walk_step :
      (p prev v : Point F) (rest : List (Point F)) (inside b : Bool)
      → cross_edge F p prev v inside ≡ some b
      → walk p prev (v ∷ rest) inside ≡ walk p v rest b
  unfolding walk
  walk_step p prev v rest inside b h = rw (walk, h)

  edge_loop_step :
      (polygon : List (Point F)) (p prev v : Point F) (rounds i : ℕ) (inside b : Bool)
      → get_elem? polygon (i % length polygon) ≡ some v
      → cross_edge F p prev v inside ≡ some b
      → edge_loop F polygon p (suc rounds) i prev inside ≡ edge_loop F polygon p rounds (i + 1) v b
  unfolding edge_loop
  edge_loop_step polygon p prev v rounds i inside b found done = rw (edge_loop, found, done)

  module _ (first : Point F) (polygon : List (Point F)) where
    -- The index after the last wraps to the first vertex.
    get_last :
        (seen : List (Point F))
        → polygon ≡ first ∷ seen
        → get_elem? polygon (suc (length seen) % length polygon) ≡ some first
    get_last seen e =
        let wraps : suc (length seen) % suc (length seen) ≡ 0 = grind arith in rw (e, wraps)

    -- An index below the length is itself, and finds the vertex that stands behind `seen`.
    get_next :
        (seen : List (Point F)) (v : Point F) (rest : List (Point F))
        → polygon ≡ first ∷ seen ++ v ∷ rest
        → get_elem? polygon (suc (length seen) % length polygon) ≡ some v
    get_next seen v rest e =
        let below : suc (length seen) < suc (length (seen ++ v ∷ rest)) =
          omega (arith, length-append seen (v ∷ rest)) in
        rw (e, mod-eq_of_lt below) (get_elem?-append (first ∷ seen) v rest)

    -- The loop from index `i` on, `length seen` vertices behind the first, is the walk of the rest.
    edge_loop-walk :
        (p prev : Point F) (seen rest : List (Point F)) (i : ℕ) (inside : Bool)
        → polygon ≡ first ∷ seen ++ rest
        → i ≡ suc (length seen)
        → edge_loop F polygon p (suc (length rest)) i prev inside
          ≡ walk p prev (rest ++ first ∷ []) inside
    unfolding edge_loop walk
    edge_loop-walk p prev seen [] i inside e h =
        let found = get_last seen (e ∙ ap (◌∷◌ first) (append-nil seen)) in rw (h, edge_loop, found)
    edge_loop-walk p prev seen (v ∷ rest) i inside e h =
        let next : (b : Bool)
            → edge_loop F polygon p (suc (length rest)) (i + 1) v b
              ≡ walk p v (rest ++ first ∷ []) b =
          λ b.
            edge_loop-walk p v (seen ++ v ∷ []) rest (i + 1) b
              (e ∙ ap (◌∷◌ first) (sym (append_assoc seen (v ∷ []) rest)))
              (omega (arith, length-append seen (v ∷ []))) in
        elim (Option-cases (cross_edge F p prev v inside)) [
          | inl raises ↦ rw (h, edge_loop, walk, get_next seen v rest e, raises)
          | inr (b, done) ↦
              edge_loop_step polygon p prev v (suc (length rest)) i inside b
                (rw h (get_next seen v rest e)) done
              ∙ next b
              ∙ sym (walk_step p prev v (rest ++ first ∷ []) inside b done)
        ]

  -- The index loop is the walk round the ring of edges, back to the first vertex: no index is out of
  -- range. A list of fewer than three vertices contains nothing.
  pub point_in_polygon-walk :
      (p first : Point F) (rest : List (Point F))
      → point_in_polygon F p (first ∷ rest) ≡ (
          if ltb (length (first ∷ rest)) 3
          then some false
          else walk p first (rest ++ first ∷ []) false)
  unfolding point_in_polygon
  point_in_polygon-walk p first rest = elim (Bool-cases (ltb (suc (length rest)) 3)) [
    | inl short ↦ rw short
    | inr long ↦
        rw long (edge_loop-walk first (first ∷ rest) p first [] rest 1 false refl (omega arith))
  ]

  abbrev pub IsFinite : Point F → Type 0
  IsFinite v = (F.finite v.0 ≡ true) × (F.finite v.1 ≡ true)

  module _ (laws : FiniteLaws F) where
    -- The test `y1 != y2` keeps the division away from 0.
    cross_edge-ne-none :
        (p a b : Point F) (inside : Bool)
        → IsFinite a
        → IsFinite b
        → cross_edge F p a b inside ≢ none
    unfolding cross_edge spans x_intersect
    cross_edge-ne-none p a b inside ha hb =
        ground (arith, laws.div_some (F.mul (F.sub p.1 a.1) (F.sub b.0 a.0)) a.1 b.1 ha.1 hb.1)

    pub cross_edge_total :
        (p a b : Point F) (inside : Bool)
        → IsFinite a
        → IsFinite b
        → (r : Bool) × (cross_edge F p a b inside ≡ some r)
    cross_edge_total p a b inside ha hb = elim (Option-cases (cross_edge F p a b inside)) [
      | inl e ↦ absurd (cross_edge-ne-none p a b inside ha hb e)
      | inr r ↦ r
    ]

    pub walk_total :
        (p prev : Point F) (rest : List (Point F)) (inside : Bool)
        → IsFinite prev
        → All IsFinite rest
        → (r : Bool) × (walk p prev rest inside ≡ some r)
    unfolding walk
    walk_total p prev [] inside hp hr = (inside, refl)
    walk_total p prev (v ∷ rest) inside hp hr =
        let (b, done) = cross_edge_total p prev v inside hp hr.0 in
        let (r, ends) = walk_total p v rest b hr.0 hr.1 in (r, rw (walk, done) ends)

    -- On a polygon with finite coordinates the test returns, for every point: no division by zero and
    -- no index out of range. A polygon with no vertex is allowed.
    pub point_in_polygon_total :
        (p : Point F) (polygon : List (Point F))
        → All IsFinite polygon
        → (r : Bool) × (point_in_polygon F p polygon ≡ some r)
    unfolding point_in_polygon
    point_in_polygon_total p [] h = (false, refl)
    point_in_polygon_total p (first ∷ rest) h = elim (Bool-cases (ltb (length (first ∷ rest)) 3)) [
      | inl short ↦ (false, rw short)
      | inr long ↦
          let ring = All-append IsFinite rest (first ∷ []) h.1 (h.0, tt) in
          let (r, ends) = walk_total p first (rest ++ first ∷ []) false h.0 ring in
          (r, rw (point_in_polygon-walk p first rest, long) ends)
    ]
