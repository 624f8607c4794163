-- ===== src/Camera/Gateway/Key.antt =====
-- The key of `POST /events/trigger`.
use cat_sentinel.Prelude.{
  ℕ, String, ◌≡◌, refl, ap, take, Bool, List, ◌∷◌, Option, none, some, ok, arith, ◌⊎◌, inl, inr,
  str_dec,
}
use cat_sentinel.Prelude.Floats.{Floats}
use cat_sentinel.Camera.Errors.{status_code}
use cat_sentinel.Camera.Events.{EventTrigger, EventRecord}
use cat_sentinel.Camera.Events.Log.{NeverRaises, ingest_accepts}
use cat_sentinel.Camera.Ptz.{Move}
use cat_sentinel.Camera.Gateway.{
  require_api_key, Gateway, trigger_event, answered, dispatch, webhook_fanout, trigger, serve,
}

module _ (Json : Type 0) (F : Floats) (number : Json → String → Option F.Float)
    (accepts : List (Move F) → Move F → Bool) (full_circle : F.Float)
    (delivers : List String → String → Bool) where
  -- The settings have no key, or an empty one, or the header has it.
  abbrev pub Allowed : (events_api_key x_api_key : Option String) → Type 0
  Allowed events_api_key x_api_key =
      (events_api_key ≡ none)
      ⊎ ((events_api_key ≡ some "")
          ⊎ ((key : String) × (events_api_key ≡ some key) × (x_api_key ≡ some key)))

  -- The trigger was accepted and is the newest record of the log.
  abbrev pub IsAccepted : EventTrigger Json → ℕ × Gateway Json F → Type 0
  IsAccepted t (status, g) =
      (status ≡ 202)
      × (r : EventRecord Json) × (rest : List (EventRecord Json)) × (r.trigger ≡ t)
      × (g.log ≡ r ∷ rest)

  dispatch-NeverRaises :
      NeverRaises
        (dispatch Json F number accepts full_circle delivers)
        (webhook_fanout Json F number accepts full_circle delivers)
  unfolding dispatch
  dispatch-NeverRaises c p w = (_, refl)

  accepted :
      (key x_api_key : Option String) (t : EventTrigger Json) (g : Gateway Json F)
      → require_api_key key x_api_key ≡ ok tt
      → IsAccepted t (serve Json F number accepts full_circle delivers key (trigger x_api_key t) g)
  unfolding serve trigger_event answered
  accepted key x_api_key t g e =
      let (a, ends, _, log) =
        ingest_accepts (dispatch Json F number accepts full_circle delivers)
          (webhook_fanout Json F number accepts full_circle delivers) dispatch-NeverRaises
          g.command_map t g.log g.world in
      (
        ground (arith, e, ends),
        record {
          trigger = t;
          command_dispatched = a.command_dispatched;
          command_success = a.command_success;
        },
        take 499 g.log,
        refl,
        ground (arith, e, ends, log),
      )

  -- A trigger whose key is the one of the settings, or for which they have none, is answered with 202 and
  -- is the newest record of the log behind it. Any other is answered with 401 and changes nothing: no command
  -- is dispatched, nothing is logged, and no webhook is told.
  pub serve-trigger :
      (key x_api_key : Option String) (t : EventTrigger Json) (g : Gateway Json F)
      → let r = serve Json F number accepts full_circle delivers key (trigger x_api_key t) g in
        (Allowed key x_api_key × IsAccepted t r) ⊎ (¬ Allowed key x_api_key × (r ≡ (401, g)))
  unfolding serve trigger_event require_api_key status_code
  serve-trigger none x_api_key t g = inl (inl refl, accepted none x_api_key t g refl)
  serve-trigger (some key) none t g = elim (str_dec key "") [
    | yes e ↦ inl (inr (inl (ap some e)), accepted (some key) none t g (ground (arith, e)))
    | no n ↦ inr (
      λ a. elim a [
        | inl h ↦ ground (arith, h)
        | inr (inl h) ↦ n (ground (arith, h))
        | inr (inr (k, h, h')) ↦ ground (arith, h')
      ],
      ground (arith, n),
    )
  ]
  serve-trigger (some key) (some x) t g = elim (str_dec key "") [
    | yes e ↦ inl (inr (inl (ap some e)), accepted (some key) (some x) t g (ground (arith, e)))
    | no n ↦ elim (str_dec x key) [
      | yes e ↦ inl (
        inr (inr (key, refl, ap some e)),
        accepted (some key) (some x) t g (ground (arith, n, e)),
      )
      | no differ ↦ inr (
        λ a. elim a [
          | inl h ↦ ground (arith, h)
          | inr (inl h) ↦ n (ground (arith, h))
          | inr (inr (k, h, h')) ↦ differ (ground (arith, h, h'))
        ],
        ground (arith, n, differ),
      )
    ]
  ]
