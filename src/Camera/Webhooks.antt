-- ===== src/Camera/Webhooks.antt =====
-- Webhook subscriptions and the fan-out of events, camera/app/webhooks/service.py. `delivers` says
-- whether the POST to a URL ends without an exception, after the POSTs made before it.
pub mod Fanout
mod Tests
use cat_sentinel.Prelude.{
  ℕ, suc, ◌+◌, String, Bool, true, false, List, [], ◌∷◌, ◌++◌, Option, none, some, Outcome, ok,
  raise, ℕ_discrete, Dict, lookup, insert, erase, keep, str_dec, if◌then◌else◌, ite,
}
use cat_sentinel.Camera.Errors.{CameraError, not_found}

pub record Subscription : Type 0 where
  pub url : String
  -- `none` is None: every event.
  pub event_types : Option (List String)

-- `_subscriptions`
abbrev pub Subscriptions : Type 0
Subscriptions = Dict ℕ Subscription

-- `WebhookService.create`; `sub_id` is the new uuid.
unfoldable pub create : (sub_id : ℕ) → Subscription → Subscriptions → Subscriptions
create sub_id sub subs = insert ℕ_discrete sub_id sub subs

-- `WebhookService.list_all`: the dict's values, in its order.
unfoldable pub list_all : Subscriptions → List (ℕ × Subscription)
list_all subs = subs

unfoldable pub delete : ℕ → Subscriptions → Outcome CameraError Subscriptions
delete webhook_id subs = elim (lookup ℕ_discrete webhook_id subs) [
  | none ↦ raise not_found
  | some _ ↦ ok (erase ℕ_discrete webhook_id subs)
]

-- `x in xs`
unfoldable pub is_in : String → List String → Bool
is_in x [] = false
is_in x (y ∷ ys) = ite (str_dec x y) true (is_in x ys)

unfoldable pub wants : String → ℕ × Subscription → Bool
unfolding is_in
wants event_type (_, sub) = elim sub.event_types [
  | none ↦ true
  | some types ↦ is_in event_type types
]

-- The loop `for sub in matching`: the URLs posted to, in order, and `notified`.
unfoldable pub post_each :
    (delivers : List String → String → Bool)
    → (posted : List String) (notified : ℕ) → List (ℕ × Subscription)
    → List String × ℕ
post_each delivers posted notified [] = (posted, notified)
post_each delivers posted notified ((_, sub) ∷ subs) =
    let now_posted = posted ++ sub.url ∷ [] in
    let now_notified = if delivers posted sub.url then suc notified else notified in
    post_each delivers now_posted now_notified subs

-- From `if not matching` on.
unfoldable pub post_matching :
    (delivers : List String → String → Bool) → List (ℕ × Subscription) → List String × ℕ
unfolding post_each
post_matching delivers [] = ([], 0)
post_matching delivers (s ∷ ss) = post_each delivers [] 0 (s ∷ ss)

-- `WebhookService.notify_all` of an event of this type.
unfoldable pub notify_all :
    (delivers : List String → String → Bool) → String → Subscriptions → List String × ℕ
unfolding wants post_matching
notify_all delivers event_type subs = post_matching delivers (keep (wants event_type) subs)
