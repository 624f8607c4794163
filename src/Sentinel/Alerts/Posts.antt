-- ===== src/Sentinel/Alerts/Posts.antt =====
-- What a sequence of alerts does to the cooldown, when a call of `AlertService.fire` may also raise: then
-- `mark_fired` is not reached.
use cat_sentinel.Prelude.{
  ℕ, ◌+◌, ◌≤◌, ◌≡◌, ◌∙◌, Bool, true, List, [], ◌∷◌, ◌++◌, some, arith, lookup, if◌then◌else◌, inl,
  inr, Bool-cases, All, All-map,
}
use cat_sentinel.Sentinel.Alerts.{Pair, same_pair, AlertCooldownTracker, should_fire, mark_fired}
use cat_sentinel.Sentinel.Alerts.Cooldown.{
  cooldown-mark_fired, last-mark_fired_self, last-mark_fired_ne, waited,
}

-- An alert: when the cooldown was asked, when it was marked, and whether `fire` came back, so that it was.
pub record Post : Type 0 where
  pub pair : Pair
  pub check : ℕ
  pub mark : ℕ
  pub came_back : Bool

-- Behind an alert that came back, any other for the same pair waits for the cooldown.
abbrev pub AreSpaced : ℕ → List Post → Type 0
AreSpaced cooldown [] = Unit
AreSpaced cooldown (v ∷ vs) =
    (v.came_back ≡ true → All (λ w. w.pair ≡ v.pair → v.mark + cooldown ≤ w.check) vs)
    × AreSpaced cooldown vs

abbrev pub marked_by : Post → AlertCooldownTracker → AlertCooldownTracker
marked_by v t = if v.came_back then mark_fired t v.pair v.mark else t

-- Each alert was due when it was raised, and the trackers are those between the alerts.
abbrev pub Follows : List Post → AlertCooldownTracker → AlertCooldownTracker → Type 0
Follows [] t t' = t' ≡ t
Follows (v ∷ vs) t t' =
    (should_fire t v.pair v.check ≡ true) × (v.check ≤ v.mark) × Follows vs (marked_by v t) t'

pub append-Follows :
    (vs ws : List Post) (t t' t'' : AlertCooldownTracker)
    → Follows vs t t'
    → Follows ws t' t''
    → Follows (vs ++ ws) t t''
append-Follows [] ws t t' t'' f g = ground (arith, f, g)
append-Follows (v ∷ vs) ws t t' t'' (due, forward, f) g =
    (due, forward, append-Follows vs ws (marked_by v t) t' t'' f g)

cooldown-marked_by :
    (v : Post) (t : AlertCooldownTracker) → (marked_by v t).cooldown_seconds ≡ t.cooldown_seconds
cooldown-marked_by v t = elim (Bool-cases v.came_back) [
  | inl e ↦ rw e (cooldown-mark_fired t v.pair v.mark)
  | inr e ↦ rw e
]

-- A mark of a pair is only replaced by a later one.
later_mark :
    (v : Post) (t : AlertCooldownTracker) (p : Pair) (last : ℕ)
    → should_fire t v.pair v.check ≡ true
    → v.check ≤ v.mark
    → lookup same_pair p t.last_fired ≡ some last
    → (last' : ℕ) × (lookup same_pair p (marked_by v t).last_fired ≡ some last') × (last ≤ last')
later_mark v t p last due forward e = elim (Bool-cases v.came_back) [
  | inr lost ↦ rw lost (last, e, omega arith)
  | inl back ↦ rw back (elim (same_pair p v.pair) [
    | yes same ↦
        let gap = waited t p last v.check e (rw same due) in
        (v.mark, rw same (last-mark_fired_self t v.pair v.mark), omega (arith, gap, forward))
    | no other ↦ (last, last-mark_fired_ne t p v.pair v.mark other ∙ e, omega arith)
  ])
]

-- Once a pair was marked at `last`, its next alert comes no sooner than the cooldown allows.
Follows-after :
    (vs : List Post) (t t' : AlertCooldownTracker) (p : Pair) (last : ℕ)
    → Follows vs t t'
    → lookup same_pair p t.last_fired ≡ some last
    → All (λ w. w.pair ≡ p → last + t.cooldown_seconds ≤ w.check) vs
Follows-after [] t t' p last f e = tt
Follows-after (v ∷ vs) t t' p last (due, forward, f) e =
    let (last', e', later) = later_mark v t p last due forward e in
    (
      (λ same. waited t p last v.check e (rw (← same) due)),
      All-map _ (λ w apart is_p. omega (arith, apart is_p, later, cooldown-marked_by v t))
          (Follows-after vs (marked_by v t) t' p last' f e'),
    )

-- Alerts that were due one after another are spaced.
pub Follows-AreSpaced :
    (vs : List Post) (t t' : AlertCooldownTracker)
    → Follows vs t t'
    → AreSpaced t.cooldown_seconds vs
Follows-AreSpaced [] t t' f = tt
Follows-AreSpaced (v ∷ vs) t t' (due, forward, f) = (
  (λ back. rw (cooldown-marked_by v t) at (
      Follows-after vs (marked_by v t) t' v.pair v.mark f
        (rw back (last-mark_fired_self t v.pair v.mark)))),
  rw (cooldown-marked_by v t) at (Follows-AreSpaced vs (marked_by v t) t' f),
)
