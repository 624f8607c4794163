-- ===== src/Hub/Stream/Proxied.antt =====
-- What a viewer gets through the proxy, and when the upstream connection is closed.
use cat_sentinel.Prelude.{
  ℕ, zero, suc, ◌≡◌, refl, Bool, true, false, List, [], ◌∷◌, Option, none, some, ok, raise, ltb,
  length, take, arith, Bool-cases, inl, inr, if◌then◌else◌,
}
use cat_sentinel.Sentinel.Mjpeg.{Bytes}
use cat_sentinel.Hub.Stream.{
  Upstream, Sent, response, connect_error, timeout, other_exception, is_error,
  open_annotated_stream, StreamEnd, completed, broken, disconnected, status_code, after_open,
  iter_chunks, iter_annotated_stream, stream_annotated,
}

-- A connection that was opened has been closed.
abbrev pub IsClosed : Option Upstream → Type 0
IsClosed none = Unit
IsClosed (some u) = u.closed ≡ true

-- Whatever the upstream answers and however its body ends, and whenever the viewer goes once the server
-- has begun to send: no upstream connection stays open.
pub stream_annotated-IsClosed : (takes : ℕ) (s : Sent) → IsClosed (stream_annotated true takes s).1
unfolding stream_annotated after_open open_annotated_stream iter_annotated_stream
stream_annotated-IsClosed takes connect_error = tt
stream_annotated-IsClosed takes timeout = tt
stream_annotated-IsClosed takes other_exception = tt
stream_annotated-IsClosed takes (response u) = elim (Bool-cases (is_error u.status)) [
  | inl e ↦ ground (arith, e)
  | inr e ↦ ground (arith, e)
]

-- How the body of an upstream ends for a viewer who takes so many chunks.
abbrev pub end_of : (takes : ℕ) → Upstream → StreamEnd
end_of takes u =
    if ltb (length u.chunks) takes then (if u.breaks then broken else completed) else disconnected

iter_chunks_lem :
    (takes : ℕ) (chunks : List Bytes) (breaks : Bool)
    → iter_chunks takes chunks breaks ≡ (
      take takes chunks,
      if ltb (length chunks) takes then (if breaks then broken else completed) else disconnected,
    )
unfolding iter_chunks
iter_chunks_lem zero chunks breaks = ground arith
iter_chunks_lem (suc takes) [] true = ground arith
iter_chunks_lem (suc takes) [] false = ground arith
iter_chunks_lem (suc takes) (chunk ∷ chunks) breaks =
    ground (arith, iter_chunks_lem takes chunks breaks)

-- The answer of the proxy to each answer of the upstream: 502 if it cannot be reached in time or
-- answers with a status of failure, 500 for any other exception, and otherwise its chunks, unchanged and
-- in order, as many as the viewer takes, with the upstream's own end if the viewer stays for it.
pub stream_annotated_lem :
    (takes : ℕ) (u : Upstream)
    → ((stream_annotated true takes connect_error).0 ≡ raise 502)
      × ((stream_annotated true takes timeout).0 ≡ raise 502)
      × ((stream_annotated true takes other_exception).0 ≡ raise 500)
      × ((stream_annotated true takes (response u)).0
          ≡ (if is_error u.status then raise 502 else ok (take takes u.chunks, end_of takes u)))
unfolding stream_annotated after_open open_annotated_stream iter_annotated_stream status_code
stream_annotated_lem takes u = (
  refl,
  refl,
  refl,
  elim (Bool-cases (is_error u.status)) [
    | inl e ↦ ground (arith, e)
    | inr e ↦ ground (arith, e, iter_chunks_lem takes u.chunks u.breaks)
  ],
)
