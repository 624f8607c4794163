-- ===== src/Sentinel/Broadcaster/Newest.antt =====
-- No queue grows past its bound, and a client that is slow loses the oldest frames, not the newest.
use cat_sentinel.Prelude.{
  ℕ, ◌≤◌, ◌<◌, ◌≡◌, ◌≢◌, refl, ◌⊎◌, inl, inr, List, [], ◌∷◌, ◌++◌, map, Option, none, some, arith,
  ℕ_discrete, Dict, lookup, insert, Distinct, insert-Distinct, erase-Distinct, lookup-insert_self,
  lookup-insert_ne, lookup-erase_ne, lookup-erase_self, ◌∙◌, sym, subst, length, length-append,
  length-drop, ap, drop,
}
use cat_sentinel.Sentinel.Mjpeg.{Bytes}
use cat_sentinel.Sentinel.Broadcaster.{
  Queue, Broadcaster, full, offer, publish, first_frames, subscribe, unsubscribe, get_frame,
  get_from, Event, published, subscribed, unsubscribed, got, step, run, new_broadcaster,
}

abbrev pub last : Queue → Option Bytes
last [] = none
last (x ∷ []) = some x
last (x ∷ y ∷ r) = last (y ∷ r)

-- A queue within its bound that is empty or ends in the latest frame.
pub record IsCurrent (size : ℕ) (latest : Option Bytes) (queue : Queue) : Type 0 where
  pub bounded : length queue ≤ size
  pub newest : (queue ≡ []) ⊎ (last queue ≡ latest)

-- Every queue of the broadcaster is current.
pub record IsValid (b : Broadcaster) : Type 0 where
  pub positive : 0 < b.max_queue_size
  pub distinct : Distinct ℕ_discrete b.subscribers
  pub current :
      (i : ℕ) (queue : Queue)
      → lookup ℕ_discrete i b.subscribers ≡ some queue
      → IsCurrent b.max_queue_size b.latest_frame queue

last-append : (queue : Queue) (frame : Bytes) → last (queue ++ frame ∷ []) ≡ some frame
last-append [] frame = refl
last-append (x ∷ []) frame = refl
last-append (x ∷ y ∷ r) frame = last-append (y ∷ r) frame

-- A publication puts the frame last, and drops the oldest frame of a full queue.
offer_cases :
    (size : ℕ) (frame : Bytes) (queue : Queue)
    → 0 < size
    → length queue ≤ size
    → ((length queue < size) × (offer size frame queue ≡ queue ++ frame ∷ []))
      ⊎ ((length queue ≡ size) × (offer size frame queue ≡ drop 1 queue ++ frame ∷ []))
unfolding offer full
offer_cases size frame [] p h = ground arith
offer_cases size frame (x ∷ r) p h = ground arith

offer-IsCurrent :
    (size : ℕ) (frame : Bytes) (queue : Queue)
    → 0 < size
    → length queue ≤ size
    → IsCurrent size (some frame) (offer size frame queue)
offer-IsCurrent size frame queue p h = elim (offer_cases size frame queue p h) [
  | inl (room, e) ↦ record {
    bounded = omega (arith, room, ap length e, length-append queue (frame ∷ []));
    newest = inr (ap last e ∙ last-append queue frame);
  }
  | inr (no_room, e) ↦ record {
    bounded = omega (
      arith,
      no_room,
      p,
      ap length e,
      length-append (drop 1 queue) (frame ∷ []),
      length-drop 1 queue,
    );
    newest = inr (ap last e ∙ last-append (drop 1 queue) frame);
  }
]

lookup-map :
    (f : Queue → Queue) (i : ℕ) (d : Dict ℕ Queue) (queue : Queue)
    → lookup ℕ_discrete i (map (λ (j, q). (j, f q)) d) ≡ some queue
    → (q : Queue) × (lookup ℕ_discrete i d ≡ some q) × (queue ≡ f q)
unfolding lookup
lookup-map f i [] queue h = cc h
lookup-map f i ((j, q) ∷ d) queue h = elim (ℕ_discrete i j) [
  | yes e ↦ (q, ground (arith, e), ground (arith, h, e))
  | no ne ↦
      let (q', e', same) = lookup-map f i d queue (ground (arith, h, ne)) in
      (q', ground (arith, e', ne), same)
]

lookup-map-none :
    (f : Queue → Queue) (i : ℕ) (d : Dict ℕ Queue)
    → lookup ℕ_discrete i d ≡ none
    → lookup ℕ_discrete i (map (λ (j, q). (j, f q)) d) ≡ none
unfolding lookup
lookup-map-none f i [] h = refl
lookup-map-none f i ((j, q) ∷ d) h = ground (arith, lookup-map-none f i d)

map-Distinct :
    (f : Queue → Queue) (d : Dict ℕ Queue)
    → Distinct ℕ_discrete d
    → Distinct ℕ_discrete (map (λ (j, q). (j, f q)) d)
map-Distinct f [] h = tt
map-Distinct f ((j, q) ∷ d) (h, hs) = (lookup-map-none f j d h, map-Distinct f d hs)

publish-IsValid : (frame : Bytes) (b : Broadcaster) → IsValid b → IsValid (publish frame b)
unfolding publish
publish-IsValid frame b v = record {
  positive = v.positive;
  distinct = map-Distinct (offer b.max_queue_size frame) b.subscribers v.distinct;
  current = λ i queue h.
      let (q, e, same) = lookup-map (offer b.max_queue_size frame) i b.subscribers queue h in
      subst (IsCurrent b.max_queue_size (some frame)) (sym same)
        (offer-IsCurrent b.max_queue_size frame q v.positive (v.current i q e).bounded);
}

-- A queue of the dict after one entry is written is the written one or an old one.
lookup-insert_cases :
    (i k : ℕ) (v queue : Queue) (d : Dict ℕ Queue)
    → lookup ℕ_discrete i (insert ℕ_discrete k v d) ≡ some queue
    → (queue ≡ v) ⊎ (lookup ℕ_discrete i d ≡ some queue)
lookup-insert_cases i k v queue d h = elim (ℕ_discrete i k) [
  | yes e ↦ inl (cc (h, e, lookup-insert_self ℕ_discrete k v d))
  | no ne ↦ inr (sym (lookup-insert_ne ℕ_discrete i k v d ne) ∙ h)
]

first_frames-IsCurrent :
    (size : ℕ) (latest : Option Bytes) → 0 < size → IsCurrent size latest (first_frames latest)
first_frames-IsCurrent size none p = record { bounded = omega arith; newest = inl refl }
first_frames-IsCurrent size (some frame) p = record {
  bounded = omega (arith, p);
  newest = inr refl;
}

subscribe-IsValid : (b : Broadcaster) → IsValid b → IsValid (subscribe b).1
unfolding subscribe
subscribe-IsValid b v = record {
  positive = v.positive;
  distinct =
      insert-Distinct ℕ_discrete b.next_queue (first_frames b.latest_frame) b.subscribers
        v.distinct;
  current = λ i queue h.
      elim (lookup-insert_cases i b.next_queue (first_frames b.latest_frame) queue b.subscribers
        h) [
          | inl e ↦
              subst (IsCurrent b.max_queue_size b.latest_frame) (sym e)
                (first_frames-IsCurrent b.max_queue_size b.latest_frame v.positive)
          | inr e ↦ v.current i queue e
        ];
}

unsubscribe-IsValid : (k : ℕ) (b : Broadcaster) → IsValid b → IsValid (unsubscribe k b)
unfolding unsubscribe
unsubscribe-IsValid k b v = record {
  positive = v.positive;
  distinct = erase-Distinct ℕ_discrete k b.subscribers v.distinct;
  current = λ i queue h. elim (ℕ_discrete i k) [
    | yes e ↦ absurd (cc (h, e, lookup-erase_self ℕ_discrete k b.subscribers v.distinct))
    | no ne ↦ v.current i queue (sym (lookup-erase_ne ℕ_discrete i k b.subscribers ne) ∙ h)
  ];
}

later-IsCurrent :
    (size : ℕ) (latest : Option Bytes) (frame : Bytes) (later : Queue)
    → IsCurrent size latest (frame ∷ later)
    → IsCurrent size latest later
later-IsCurrent size latest frame [] c = record { bounded = omega arith; newest = inl refl }
later-IsCurrent size latest frame (x ∷ r) c = record {
  bounded = omega (arith, c.bounded);
  newest = ground (arith, c.newest);
}

get_from-IsValid :
    (k : ℕ) (b : Broadcaster) (o : Option Queue)
    → lookup ℕ_discrete k b.subscribers ≡ o
    → IsValid b
    → IsValid (get_from k b o).1
unfolding get_from
get_from-IsValid k b none e v = v
get_from-IsValid k b (some []) e v = v
get_from-IsValid k b (some (frame ∷ later)) e v = record {
  positive = v.positive;
  distinct = insert-Distinct ℕ_discrete k later b.subscribers v.distinct;
  current = λ i queue h. elim (lookup-insert_cases i k later queue b.subscribers h) [
    | inl same ↦ subst (IsCurrent b.max_queue_size b.latest_frame) (sym same) (
        later-IsCurrent b.max_queue_size b.latest_frame frame later (v.current k (frame ∷ later) e))
    | inr old ↦ v.current i queue old
  ];
}

get_frame-IsValid : (k : ℕ) (b : Broadcaster) → IsValid b → IsValid (get_frame k b).1
unfolding get_frame
get_frame-IsValid k b v = get_from-IsValid k b (lookup ℕ_discrete k b.subscribers) refl v

step-IsValid : (e : Event) (b : Broadcaster) → IsValid b → IsValid (step e b)
unfolding step
step-IsValid (published frame) b v = publish-IsValid frame b v
step-IsValid subscribed b v = subscribe-IsValid b v
step-IsValid (unsubscribed k) b v = unsubscribe-IsValid k b v
step-IsValid (got k) b v = get_frame-IsValid k b v

run_new : (es : List Event) (b : Broadcaster) → IsValid b → IsValid (run es b)
unfolding run
run_new [] b v = v
run_new (e ∷ es) b v = run_new es (step e b) (step-IsValid e b v)

none_found : (i : ℕ) (queue : Queue) → lookup ℕ_discrete i [] ≢ some queue
unfolding lookup
none_found i queue h = cc h

new_broadcaster-IsValid : (size : ℕ) → 0 < size → IsValid (new_broadcaster size)
unfolding new_broadcaster
new_broadcaster-IsValid size p = record {
  positive = p;
  distinct = tt;
  current = λ i queue h. absurd (none_found i queue h);
}

-- Whatever the pipeline and the clients do, in whatever order: when the queues have a positive size,
-- no subscriber's queue is longer than that size, and it is empty or its last frame is the latest
-- frame that was published.
pub run-IsValid : (size : ℕ) (es : List Event) → 0 < size → IsValid (run es (new_broadcaster size))
run-IsValid size es p = run_new es (new_broadcaster size) (new_broadcaster-IsValid size p)
