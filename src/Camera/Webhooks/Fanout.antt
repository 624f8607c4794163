-- ===== src/Camera/Webhooks/Fanout.antt =====
-- A failed delivery does not stop the fan-out, and only deliveries that succeed are counted.
use cat_sentinel.Prelude.{
  ℕ, suc, ◌+◌, ◌≡◌, refl, ◌∙◌, ◌⊎◌, String, Bool, List, [], ◌∷◌, ◌++◌, map, none, arith, ok, raise,
  keep, if◌then◌else◌, ℕ_discrete, lookup, erase, Distinct, lookup-erase_self, lookup-erase_ne, ◌≢◌,
  Option-cases, inl, inr,
}
use mathlib.Core.List.{append_assoc, append-nil}
use cat_sentinel.Camera.Errors.{not_found}
use cat_sentinel.Camera.Webhooks.{
  Subscription, Subscriptions, wants, post_each, post_matching, notify_all, delete,
}

abbrev pub urls : List (ℕ × Subscription) → List String
urls = map (λ (_, s). s.url)

-- How many of these URLs take a POST, given those posted to before.
abbrev pub delivered : (List String → String → Bool) → List String → List String → ℕ
delivered delivers posted [] = 0
delivered delivers posted (u ∷ us) =
    (if delivers posted u then 1 else 0) + delivered delivers (posted ++ u ∷ []) us

pair_eq : {A B : Type 0} {a a' : A} {b b' : B} → a ≡ a' → b ≡ b' → ◌≡◌ {A = A × B} (a, b) (a', b')
pair_eq p q = cc (p, q)

post_each_lem :
    (delivers : List String → String → Bool) (posted : List String) (n : ℕ)
    (subs : List (ℕ × Subscription))
    → post_each delivers posted n subs
      ≡ (posted ++ urls subs, n + delivered delivers posted (urls subs))
unfolding post_each
post_each_lem delivers posted n [] = ground (arith, append-nil posted)
post_each_lem delivers posted n ((i, s) ∷ subs) =
    post_each_lem delivers (posted ++ s.url ∷ []) (if delivers posted s.url then suc n else n) subs
    ∙ pair_eq (append_assoc posted (s.url ∷ []) (urls subs)) (ground arith)

post_matching_lem :
    (delivers : List String → String → Bool) (subs : List (ℕ × Subscription))
    → post_matching delivers subs ≡ (urls subs, delivered delivers [] (urls subs))
unfolding post_matching
post_matching_lem delivers [] = refl
post_matching_lem delivers (s ∷ subs) =
    post_each_lem delivers [] 0 (s ∷ subs) ∙ pair_eq refl (omega arith)

-- Every subscription that wants the event's type, and no other, gets one POST, in the order of the
-- subscriptions and whatever became of the earlier ones; the number that `notify_all` returns is that
-- of the POSTs that went through.
pub notify_all_lem :
    (delivers : List String → String → Bool) (event_type : String) (subs : Subscriptions)
    → notify_all delivers event_type subs ≡ (
      urls (keep (wants event_type) subs),
      delivered delivers [] (urls (keep (wants event_type) subs)),
    )
unfolding notify_all
notify_all_lem delivers event_type subs = post_matching_lem delivers (keep (wants event_type) subs)

-- A deleted subscription gets no event: its key is gone, the others are as they were, and deleting it
-- again is a 404; a key that is not there is a 404 at once.
pub delete_cases :
    (id : ℕ) (subs : Subscriptions)
    → Distinct ℕ_discrete subs
    → ((lookup ℕ_discrete id subs ≡ none) × (delete id subs ≡ raise not_found))
      ⊎ ((subs' : Subscriptions) × (delete id subs ≡ ok subs')
          × (delete id subs' ≡ raise not_found)
          × ((j : ℕ) → j ≢ id → lookup ℕ_discrete j subs' ≡ lookup ℕ_discrete j subs))
unfolding delete
delete_cases id subs d = elim (Option-cases (lookup ℕ_discrete id subs)) [
  | inl e ↦ inl (e, ground (arith, e))
  | inr (s, e) ↦ inr (
    erase ℕ_discrete id subs,
    ground (arith, e),
    ground (arith, lookup-erase_self ℕ_discrete id subs d),
    λ j ne. lookup-erase_ne ℕ_discrete j id subs ne,
  )
]
