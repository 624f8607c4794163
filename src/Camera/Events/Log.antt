-- ===== src/Camera/Events/Log.antt =====
-- What the event log holds, and that a webhook cannot fail a request.
use cat_sentinel.Prelude.{
  ℕ, zero, suc, ◌≤◌, ◌≡◌, refl, ap, sym, ◌∙◌, String, Bool, List, [], ◌∷◌, map, Option, none, some,
  arith, Outcome, ok, raise, length, take, length-take, take_all,
}
use cat_sentinel.Camera.Events.{
  max_events, Mapping, Mappings, EventTrigger, EventRecord, resolve, record_event, Ingested,
  log_and_notify, after_dispatch, ingest_resolved, ingest, ingest_all,
}

-- `xs` put in front of `ys` one by one.
abbrev pub newest_first {ℓ} : {A : Type ℓ} → List A → List A → List A
newest_first [] ys = ys
newest_first (x ∷ xs) ys = newest_first xs (x ∷ ys)

module _ {A : Type 0} where
  take-take : (m n : ℕ) (xs : List A) → m ≤ n → take m (take n xs) ≡ take m xs
  take-take zero n xs h = refl
  take-take (suc m) zero xs h = absurd (omega (arith, h))
  take-take (suc m) (suc n) [] h = refl
  take-take (suc m) (suc n) (x ∷ xs) h = ap (λ r. x ∷ r) (take-take m n xs (omega (arith, h)))

  take-cons_take : (n : ℕ) (x : A) (xs : List A) → take n (x ∷ take n xs) ≡ take n (x ∷ xs)
  take-cons_take zero x xs = refl
  take-cons_take (suc n) x xs = ap (λ r. x ∷ r) (take-take n (suc n) xs (omega arith))

  -- What a bounded log drops early does not come back.
  take-newest_first :
      (n : ℕ) (xs ys : List A) → take n (newest_first xs (take n ys)) ≡ take n (newest_first xs ys)
  take-newest_first n [] ys = take-take n n ys (omega arith)
  take-newest_first n (x ∷ xs) ys =
      sym (take-newest_first n xs (x ∷ take n ys))
      ∙ ap (λ r. take n (newest_first xs r)) (take-cons_take n x ys)
      ∙ take-newest_first n xs (x ∷ ys)

map-take : {A B : Type 0} (f : A → B) (n : ℕ) (xs : List A) → map f (take n xs) ≡ take n (map f xs)
map-take f zero xs = refl
map-take f (suc n) [] = refl
map-take f (suc n) (x ∷ xs) = ap (λ r. f x ∷ r) (map-take f n xs)

module _ {Json World E : Type 0} (dispatch : String → Json → World → Outcome E Bool × World)
    (webhook_fanout : EventTrigger Json → World → Outcome E ℕ × World) where
  -- The dispatcher keeps its contract: it does not raise.
  abbrev pub NeverRaises : Type 0
  NeverRaises = (c : String) (p : Json) (w : World) → (b : Bool) × ((dispatch c p w).0 ≡ ok b)

  abbrev pub mapped_command : Option (Mapping Json) → Option String
  mapped_command none = none
  mapped_command (some m) = some m.command

  -- The answer to a request and the log behind it, when this command is mapped.
  abbrev pub IsAnswered :
      EventTrigger Json
      → Option String
      → List (EventRecord Json)
      → Outcome E (Ingested Json) × List (EventRecord Json) × World
      → Type 0
  IsAnswered t command log end =
      (a : Ingested Json) × (end.0 ≡ ok a)
      × (a.command_dispatched ≡ command)
      × (end.1
          ≡ take max_events (
              record {
                trigger = t;
                command_dispatched = a.command_dispatched;
                command_success = a.command_success;
              }
              ∷ log))

  after_dispatch-IsAnswered :
      (t : EventTrigger Json) (c : String) (d : Outcome E Bool × World)
      (log : List (EventRecord Json)) (b : Bool)
      → d.0 ≡ ok b
      → IsAnswered t (some c) log (after_dispatch Json dispatch webhook_fanout t c d log)
  unfolding after_dispatch log_and_notify record_event
  after_dispatch-IsAnswered t c (ok success, w) log b h = (_, refl, refl, refl)
  after_dispatch-IsAnswered t c (raise e, w) log b h = absurd (ground (arith, h))

  ingest_resolved-IsAnswered :
      NeverRaises
      → (t : EventTrigger Json) (o : Option (Mapping Json)) (log : List (EventRecord Json))
        (w : World)
      → IsAnswered t (mapped_command o) log (ingest_resolved Json dispatch webhook_fanout t o log w)
  unfolding ingest_resolved log_and_notify record_event
  ingest_resolved-IsAnswered never t none log w = (_, refl, refl, refl)
  ingest_resolved-IsAnswered never t (some m) log w =
      let (b, e) = never m.command m.params w in
      after_dispatch-IsAnswered t m.command (dispatch m.command m.params w) log b e

  -- When the dispatcher never raises, every trigger is accepted, whatever the webhooks do; the answer
  -- names the command that is mapped to the event's type, if any, and the log gets the trigger in
  -- front, with that command and its success, and is cut to 500 records.
  pub ingest_accepts :
      NeverRaises
      → (maps : Mappings Json) (t : EventTrigger Json) (log : List (EventRecord Json)) (w : World)
      → IsAnswered t
          (mapped_command (resolve Json t.event_type maps))
          log
          (ingest Json dispatch webhook_fanout maps t log w)
  unfolding ingest
  ingest_accepts never maps t log w =
      ingest_resolved-IsAnswered never t (resolve Json t.event_type maps) log w

  logged :
      NeverRaises
      → (maps : Mappings Json) (ts : List (EventTrigger Json)) (log : List (EventRecord Json))
        (w : World)
      → length log ≤ max_events
      → map (λ r. r.trigger) (ingest_all Json dispatch webhook_fanout maps ts log w).0
        ≡ take max_events (newest_first ts (map (λ r. r.trigger) log))
  unfolding ingest_all
  logged never maps [] log w h =
      ap (map (λ r. r.trigger)) (sym (take_all max_events log h))
      ∙ map-take (λ r. r.trigger) max_events log
  logged never maps (t ∷ ts) log w h =
      let (a, _, _, e) = ingest_accepts never maps t log w in
      let end = ingest Json dispatch webhook_fanout maps t log w in
      let new : EventRecord Json = record {
        trigger = t;
        command_dispatched = a.command_dispatched;
        command_success = a.command_success;
      } in
      logged never maps ts end.1 end.2
        (omega (arith, ap length e, length-take max_events (new ∷ log)))
      ∙ ap (λ r. take max_events (newest_first ts r))
          (ap (map (λ r. r.trigger)) e ∙ map-take (λ r. r.trigger) max_events (new ∷ log))
      ∙ take-newest_first max_events ts (t ∷ map (λ r. r.trigger) log)

  -- When the dispatcher never raises, the log that starts empty has the triggers of the last 500
  -- requests at most, the newest first, whatever the webhooks do.
  pub ingest_all_log :
      NeverRaises
      → (maps : Mappings Json) (ts : List (EventTrigger Json)) (w : World)
      → map (λ r. r.trigger) (ingest_all Json dispatch webhook_fanout maps ts [] w).0
        ≡ take max_events (newest_first ts [])
  ingest_all_log never maps ts w = logged never maps ts [] w (omega arith)
