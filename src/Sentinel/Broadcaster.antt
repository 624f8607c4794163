-- ===== src/Sentinel/Broadcaster.antt =====
-- The fan-out of annotated frames, cat-sentinel/app/streaming/broadcaster.py, and its use by the
-- streaming route. The lock makes each operation one step; a queue is named by its identity.
pub mod Newest
mod Tests
use cat_sentinel.Prelude.{
  ℕ, suc, ◌+◌, Bool, true, false, ◌&&◌, List, [], ◌∷◌, ◌++◌, map, Option, none, some, ℕ_discrete,
  Dict, lookup, insert, erase, length, drop, ltb, leb, if◌then◌else◌,
}
use cat_sentinel.Sentinel.Mjpeg.{Bytes}

abbrev pub Queue : Type 0
Queue = List Bytes

pub record Broadcaster : Type 0 where
  pub max_queue_size : ℕ
  pub subscribers : Dict ℕ Queue
  pub latest_frame : Option Bytes
  -- The identity of the next queue object.
  pub next_queue : ℕ

pub new_broadcaster : ℕ → Broadcaster
new_broadcaster max_queue_size = record {
  max_queue_size = max_queue_size;
  subscribers = [];
  latest_frame = none;
  next_queue = 0;
}

-- `asyncio.Queue.full`: a queue of size 0 is never full.
pub full : (max_queue_size : ℕ) → Queue → Bool
full max_queue_size queue = ltb 0 max_queue_size && leb max_queue_size (length queue)

-- The body of the loop in `publish`: the oldest frame goes when the queue is full, and a frame that
-- finds the queue full still is dropped.
pub offer : (max_queue_size : ℕ) → Bytes → Queue → Queue
unfolding full
offer max_queue_size jpeg_bytes queue =
    let room = if full max_queue_size queue then drop 1 queue else queue in
    if full max_queue_size room then room else room ++ jpeg_bytes ∷ []

pub publish : Bytes → Broadcaster → Broadcaster
unfolding offer
publish jpeg_bytes b = record {
  max_queue_size = b.max_queue_size;
  subscribers = map (λ (i, queue). (i, offer b.max_queue_size jpeg_bytes queue)) b.subscribers;
  latest_frame = some jpeg_bytes;
  next_queue = b.next_queue;
}

abbrev pub first_frames : Option Bytes → Queue
first_frames none = []
first_frames (some frame) = frame ∷ []

pub subscribe : Broadcaster → ℕ × Broadcaster
subscribe b = (
  b.next_queue,
  record {
    max_queue_size = b.max_queue_size;
    subscribers = insert ℕ_discrete b.next_queue (first_frames b.latest_frame) b.subscribers;
    latest_frame = b.latest_frame;
    next_queue = suc b.next_queue;
  },
)

pub unsubscribe : ℕ → Broadcaster → Broadcaster
unsubscribe queue b = record {
  max_queue_size = b.max_queue_size;
  subscribers = erase ℕ_discrete queue b.subscribers;
  latest_frame = b.latest_frame;
  next_queue = b.next_queue;
}

-- `await queue.get()` of a client: the oldest frame; a client of an empty queue waits.
pub get_from : ℕ → Broadcaster → Option Queue → Option Bytes × Broadcaster
get_from queue b none = (none, b)
get_from queue b (some []) = (none, b)
get_from queue b (some (frame ∷ later)) = (
  some frame,
  record {
    max_queue_size = b.max_queue_size;
    subscribers = insert ℕ_discrete queue later b.subscribers;
    latest_frame = b.latest_frame;
    next_queue = b.next_queue;
  },
)

pub get_frame : ℕ → Broadcaster → Option Bytes × Broadcaster
unfolding get_from
get_frame queue b = get_from queue b (lookup ℕ_discrete queue b.subscribers)

-- What the pipeline and the clients do to the shared broadcaster, in any order.
pub data Event : Type 0 where
  published : Bytes → Event
  subscribed : Event
  unsubscribed : ℕ → Event
  got : ℕ → Event

pub step : Event → Broadcaster → Broadcaster
unfolding publish subscribe unsubscribe get_frame
step (published jpeg_bytes) b = publish jpeg_bytes b
step subscribed b = (subscribe b).1
step (unsubscribed queue) b = unsubscribe queue b
step (got queue) b = (get_frame queue b).1

pub run : List Event → Broadcaster → Broadcaster
unfolding step
run [] b = b
run (e ∷ es) b = run es (step e b)
