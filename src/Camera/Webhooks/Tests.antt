-- ===== src/Camera/Webhooks/Tests.antt =====
-- Two subscribers, one of which takes no POST.
use cat_sentinel.Prelude.{refl, str_dec, ◌≡◌, String, Bool, true, false, List, [], ◌∷◌, none, some}
use cat_sentinel.Camera.Webhooks.{Subscriptions, notify_all, wants, is_in, post_matching, post_each}

abbrev subscriptions : Subscriptions
subscriptions =
    (1, record { url = "http://a"; event_types = none })
    ∷ (2, record { url = "http://b"; event_types = some ("cat_detected" ∷ []) })
    ∷ (3, record { url = "http://c"; event_types = some ("other" ∷ []) })
    ∷ []

-- Only the first POST fails.
abbrev after_one : List String → String → Bool
after_one [] url = false
after_one (u ∷ us) url = true

first_fails : notify_all after_one "cat_detected" subscriptions ≡ ("http://a" ∷ "http://b" ∷ [], 1)
unfolding notify_all wants is_in post_matching post_each str_dec
first_fails = refl
