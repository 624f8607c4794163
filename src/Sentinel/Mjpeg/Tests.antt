-- ===== src/Sentinel/Mjpeg/Tests.antt =====
-- Streams of two images for the reader and the writer of the multipart stream.
use cat_sentinel.Prelude.{◌≡◌, refl, List, [], ◌∷◌, ◌++◌, map, arith}
use cat_sentinel.Sentinel.Mjpeg.{
  Bytes, until_eoi, framed, digits, drain, part, part_start, feed, feed_all,
}
use cat_sentinel.Sentinel.Mjpeg.Stream.{concat, Runs, drain-Runs, feed_all-concat}
use cat_sentinel.Sentinel.Mjpeg.RoundTrip.{stream_of, feed_all-stream_of}

abbrev images : List Bytes
images = (1 ∷ 2 ∷ []) ∷ (0xff ∷ 0xd8 ∷ 5 ∷ []) ∷ []

abbrev two_parts : Bytes
unfolding part digits
two_parts = stream_of images

-- The first chunk, up to the middle of the first end marker.
abbrev first : Bytes
first = part_start ++ (54 ∷ 13 ∷ 10 ∷ 13 ∷ 10 ∷ 0xff ∷ 0xd8 ∷ 1 ∷ 2 ∷ 0xff ∷ [])

abbrev second : Bytes
unfolding part digits
second = 0xd9 ∷ 13 ∷ 10 ∷ part (framed (0xff ∷ 0xd8 ∷ 5 ∷ []))

cuts : concat (first ∷ second ∷ []) ≡ two_parts
unfolding part digits
cuts = refl

feed_all-stream_of_example : (feed_all [] (first ∷ second ∷ [])).0 ≡ map framed images
unfolding until_eoi part two_parts
feed_all-stream_of_example = feed_all-stream_of images first (second ∷ []) (refl, (refl, tt)) cuts

feed_all-concat_example : feed_all [] (first ∷ second ∷ []) ≡ feed [] (concat (first ∷ second ∷ []))
feed_all-concat_example = feed_all-concat [] first (second ∷ [])

drain-Runs_example : Runs first (drain 80 first)
drain-Runs_example = drain-Runs 80 first (omega arith)
