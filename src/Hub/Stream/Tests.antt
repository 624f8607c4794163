-- ===== src/Hub/Stream/Tests.antt =====
-- Two chunks, of which the viewer takes one.
use cat_sentinel.Prelude.{◌≡◌, refl, true, false, [], ◌∷◌, some}
use cat_sentinel.Hub.Stream.{
  Upstream, response, is_error, stream_annotated, open_annotated_stream, after_open,
}
use cat_sentinel.Hub.Stream.Proxied.{IsClosed, stream_annotated-IsClosed}

abbrev upstream : Upstream
upstream = record {
  status = 200;
  chunks = (1 ∷ 2 ∷ []) ∷ (3 ∷ []) ∷ [];
  breaks = false;
  closed = false;
}

stream_annotated-IsClosed_example : IsClosed (stream_annotated true 1 (response upstream)).1
stream_annotated-IsClosed_example = stream_annotated-IsClosed 1 (response upstream)

-- A viewer who goes before the server begins to send leaves the connection open.
leaked : (stream_annotated false 0 (response upstream)).1 ≡ some upstream
unfolding stream_annotated open_annotated_stream after_open is_error
leaked = refl
