-- ===== src/Sentinel/Broadcaster/Tests.antt =====
-- A slow client of the broadcaster.
use cat_sentinel.Prelude.{ℕ, ◌≡◌, refl, List, [], ◌∷◌, some, lookup, ℕ_discrete, arith}
use cat_sentinel.Sentinel.Broadcaster.{
  Event, published, subscribed, got, run, new_broadcaster, step, publish, subscribe, get_frame,
  get_from, offer, full,
}
use cat_sentinel.Sentinel.Broadcaster.Newest.{IsValid, run-IsValid}

abbrev slow_client : List Event
slow_client =
    published (1 ∷ [])
    ∷ subscribed
    ∷ published (2 ∷ [])
    ∷ published (3 ∷ [])
    ∷ subscribed
    ∷ got 0
    ∷ published (4 ∷ [])
    ∷ []

-- The client has lost the second frame, and has the two newest.
slow_client_keeps :
    (run slow_client (new_broadcaster 2)).subscribers
    ≡ (0, (3 ∷ []) ∷ (4 ∷ []) ∷ []) ∷ (1, (3 ∷ []) ∷ (4 ∷ []) ∷ []) ∷ []
unfolding run new_broadcaster step publish subscribe get_frame get_from offer full lookup
    cat_sentinel.Prelude.insert ℕ_discrete
slow_client_keeps = refl

run-IsValid_example : IsValid (run slow_client (new_broadcaster 2))
run-IsValid_example = run-IsValid 2 slow_client (omega arith)
