-- ===== src/Hub/Stream.antt =====
-- The proxy of the annotated stream: hub/app/stream (service, router) and the handlers of
-- hub/app/core/exceptions.py. The HTTP client and the viewer are arguments: how `send` ends, what the
-- upstream body yields and how it ends, and how many chunks the viewer takes.
pub mod Proxied
mod Tests
use cat_sentinel.Prelude.{
  ℕ, zero, suc, Bool, true, false, List, [], ◌∷◌, Option, none, some, Outcome, ok, raise, leb,
  if◌then◌else◌,
}
use cat_sentinel.Sentinel.Mjpeg.{Bytes}
use cat_sentinel.Hub.Trackers.{HubError, upstream_service_error, other_error}

-- The handlers; an exception without one is a 500.
unfoldable pub status_code : HubError → ℕ
status_code upstream_service_error = 502
status_code _ = 500

-- An open `httpx.Response` of `stream=True`.
pub record Upstream : Type 0 where
  pub status : ℕ
  -- What `aiter_bytes` yields, and whether it then raises.
  pub chunks : List Bytes
  pub breaks : Bool
  pub closed : Bool

-- How `client.send` ends; the last is an exception that `except` does not name.
pub data Sent : Type 0 where
  response : Upstream → Sent
  connect_error timeout other_exception : Sent

-- `response.is_error`: a status from 400 to 599.
unfoldable pub is_error : ℕ → Bool
is_error status = if leb 400 status then leb status 599 else false

abbrev pub aclose : Upstream → Upstream
aclose u = record u { closed = true }

-- `open_annotated_stream`: what it returns, and the response that was opened.
unfoldable pub open_annotated_stream : Sent → Outcome HubError Upstream × Option Upstream
unfolding is_error
open_annotated_stream connect_error = (raise upstream_service_error, none)
open_annotated_stream timeout = (raise upstream_service_error, none)
open_annotated_stream other_exception = (raise other_error, none)
open_annotated_stream (response u) =
    if is_error u.status then (raise upstream_service_error, some (aclose u)) else (ok u, some u)

-- How the body ends for the server: the upstream's end, its exception, or GeneratorExit when the viewer
-- has gone.
pub data StreamEnd : Type 0 where
  completed broken disconnected : StreamEnd

-- `async for chunk in response.aiter_bytes(): yield chunk`, for a viewer who takes `takes` chunks.
unfoldable pub iter_chunks : (takes : ℕ) → List Bytes → (breaks : Bool) → List Bytes × StreamEnd
iter_chunks zero chunks breaks = ([], disconnected)
iter_chunks (suc takes) [] true = ([], broken)
iter_chunks (suc takes) [] false = ([], completed)
iter_chunks (suc takes) (chunk ∷ chunks) breaks =
    let (sent, end) = iter_chunks takes chunks breaks in (chunk ∷ sent, end)

-- `iter_annotated_stream`, with its `finally`.
unfoldable pub iter_annotated_stream : (takes : ℕ) → Upstream → (List Bytes × StreamEnd) × Upstream
unfolding iter_chunks
iter_annotated_stream takes u = (iter_chunks takes u.chunks u.breaks, aclose u)

-- The route from `open_annotated_stream` on. The generator's `finally` stands only once the server has
-- begun to iterate: `begun` is false for a viewer who has gone before that.
unfoldable pub after_open :
    (begun : Bool) (takes : ℕ)
    → Outcome HubError Upstream × Option Upstream
    → Outcome ℕ (List Bytes × StreamEnd) × Option Upstream
unfolding iter_annotated_stream status_code
after_open begun takes (raise e, opened) = (raise (status_code e), opened)
after_open true takes (ok u, opened) =
    (ok (iter_annotated_stream takes u).0, some (iter_annotated_stream takes u).1)
after_open false takes (ok u, opened) = (ok ([], disconnected), some u)

-- `GET /stream/annotated`: a status of failure, or the body and how it ended; and the response that was
-- opened.
unfoldable pub stream_annotated :
    (begun : Bool) (takes : ℕ) → Sent → Outcome ℕ (List Bytes × StreamEnd) × Option Upstream
unfolding open_annotated_stream after_open
stream_annotated begun takes s = after_open begun takes (open_annotated_stream s)
