-- ===== src/Sentinel/Alerts/Cooldown.antt =====
-- The cooldown between two alerts for the same cat and zone.
use cat_sentinel.Prelude.{
  ℕ, ◌+◌, ◌≤◌, ◌≡◌, ◌↔◌, ◌≢◌, ◌∙◌, sym, refl, inl, inr, true, List, [], ◌∷◌, some, arith, lookup,
  lookup-insert_self, lookup-insert_ne, Bool-cases, All, All-map,
}
use cat_sentinel.Sentinel.Alerts.{
  Pair, same_pair, AlertCooldownTracker, should_fire, mark_fired, Visit, fired_visits,
}

-- The clock does not run backwards between the two calls of a visit.
abbrev pub IsForward : Visit → Type 0
IsForward v = v.check ≤ v.mark

-- Any two visits of the list to the same pair are at least `cooldown` apart.
abbrev pub IsSpaced : ℕ → List Visit → Type 0
IsSpaced cooldown [] = Unit
IsSpaced cooldown (v ∷ vs) =
    All (λ w. w.pair ≡ v.pair → v.mark + cooldown ≤ w.check) vs × IsSpaced cooldown vs

pub cooldown-mark_fired :
    (t : AlertCooldownTracker) (p : Pair) (now : ℕ)
    → (mark_fired t p now).cooldown_seconds ≡ t.cooldown_seconds
unfolding mark_fired
cooldown-mark_fired t p now = refl

pub last-mark_fired_self :
    (t : AlertCooldownTracker) (p : Pair) (now : ℕ)
    → lookup same_pair p (mark_fired t p now).last_fired ≡ some now
unfolding mark_fired
last-mark_fired_self t p now = lookup-insert_self same_pair p now t.last_fired

pub last-mark_fired_ne :
    (t : AlertCooldownTracker) (p q : Pair) (now : ℕ)
    → p ≢ q
    → lookup same_pair p (mark_fired t q now).last_fired ≡ lookup same_pair p t.last_fired
unfolding mark_fired
last-mark_fired_ne t p q now n = lookup-insert_ne same_pair p q now t.last_fired n

-- A pair that fired fires again exactly when the cooldown has passed since; one that never fired, at
-- once; and what fires for another pair is of no effect.
pub should_fire-mark_fired :
    (t : AlertCooldownTracker) (p q : Pair) (fired now : ℕ)
    → ((should_fire (mark_fired t p fired) p now ≡ true) ↔ (fired + t.cooldown_seconds ≤ now))
      × (p ≢ q → should_fire (mark_fired t p fired) q now ≡ should_fire t q now)
unfolding should_fire mark_fired
should_fire-mark_fired t p q fired now = (
  (
    λ h. ground (arith, lookup-insert_self same_pair p fired t.last_fired),
    λ h. ground (arith, lookup-insert_self same_pair p fired t.last_fired),
  ),
  λ n. ground (arith, lookup-insert_ne same_pair q p fired t.last_fired (λ e. n (sym e))),
)

pub waited :
    (t : AlertCooldownTracker) (p : Pair) (last check : ℕ)
    → lookup same_pair p t.last_fired ≡ some last
    → should_fire t p check ≡ true
    → last + t.cooldown_seconds ≤ check
unfolding should_fire
waited t p last check e h = ground arith

-- After a pair fired at `last`, what fires for it comes no sooner than the cooldown allows.
fired_visits-after :
    (t : AlertCooldownTracker) (p : Pair) (last : ℕ) (vs : List Visit)
    → All IsForward vs
    → lookup same_pair p t.last_fired ≡ some last
    → All (λ w. w.pair ≡ p → last + t.cooldown_seconds ≤ w.check) (fired_visits t vs)
unfolding fired_visits
fired_visits-after t p last [] f e = tt
fired_visits-after t p last (v ∷ vs) f e = elim (Bool-cases (should_fire t v.pair v.check)) [
  | inr waits ↦ rw (fired_visits, waits) (fired_visits-after t p last vs f.1 e)
  | inl fires ↦
      rw (fired_visits, fires)
        (elim (same_pair p v.pair) [
          | yes same ↦
              let gap = waited t p last v.check e (rw same fires) in
              let last' : lookup same_pair p (mark_fired t v.pair v.mark).last_fired ≡ some v.mark =
                rw same (last-mark_fired_self t v.pair v.mark) in
              (
                (λ _. gap),
                All-map _
                    (λ w later is_p.
                      omega (arith, later is_p, gap, f.0, cooldown-mark_fired t v.pair v.mark))
                    (fired_visits-after (mark_fired t v.pair v.mark) p v.mark vs f.1 last'),
              )
          | no other ↦
              let last' = last-mark_fired_ne t p v.pair v.mark other ∙ e in
              (
                (λ same. absurd (other (sym same))),
                All-map _
                    (λ w later is_p. omega (arith, later is_p, cooldown-mark_fired t v.pair v.mark))
                    (fired_visits-after (mark_fired t v.pair v.mark) p last vs f.1 last'),
              )
        ])
]

-- However often the pipeline asks, two alerts for the same cat and zone are at least `cooldown_seconds`
-- apart, from the mark of the one to the check of the other, if the clock does not run backwards.
pub fired_visits-IsSpaced :
    (t : AlertCooldownTracker) (vs : List Visit)
    → All IsForward vs
    → IsSpaced t.cooldown_seconds (fired_visits t vs)
unfolding fired_visits
fired_visits-IsSpaced t [] f = tt
fired_visits-IsSpaced t (v ∷ vs) f = elim (Bool-cases (should_fire t v.pair v.check)) [
  | inr waits ↦ rw (fired_visits, waits) (fired_visits-IsSpaced t vs f.1)
  | inl fires ↦
      let t' = mark_fired t v.pair v.mark in
      rw (fired_visits, fires)
        (
          All-map _ (λ w later same. omega (arith, later same, cooldown-mark_fired t v.pair v.mark))
              (fired_visits-after t' v.pair v.mark vs f.1 (last-mark_fired_self t v.pair v.mark)),
          rw (cooldown-mark_fired t v.pair v.mark) at (fired_visits-IsSpaced t' vs f.1),
        )
]
