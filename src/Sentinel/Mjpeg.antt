-- ===== src/Sentinel/Mjpeg.antt =====
-- The multipart JPEG stream between the services: what `_mjpeg_generator` writes
-- (camera/app/camera/router.py, cat-sentinel/app/streaming/router.py) and what
-- `RatSentinelStreamClient.frames` reads (cat-sentinel/app/streaming/client.py). Bytes are numbers.
pub mod Chunks
pub mod Stream
pub mod RoundTrip
mod Tests
use cat_sentinel.Prelude.{
  ℕ, zero, suc, ◌+◌, ◌/◌, ◌%◌, Bool, true, false, ◌&&◌, List, [], ◌∷◌, ◌++◌, Option, none, some,
  length, ◌==◌, if◌then◌else◌, ltb,
}

abbrev pub Bytes : Type 0
Bytes = List ℕ

-- What stands behind the first start marker (0xFF 0xD8): `buffer[buffer.find(_JPEG_SOI) + 2 :]`.
pub after_soi : Bytes → Option Bytes
after_soi [] = none
after_soi (x ∷ []) = none
after_soi (x ∷ y ∷ r) = if x == 0xff && y == 0xd8 then some r else after_soi (y ∷ r)

abbrev pub prepend : ℕ → Option (Bytes × Bytes) → Option (Bytes × Bytes)
prepend x none = none
prepend x (some (body, rest)) = some (x ∷ body, rest)

-- What stands before and behind the first end marker (0xFF 0xD9).
unfoldable pub until_eoi : Bytes → Option (Bytes × Bytes)
until_eoi [] = none
until_eoi (x ∷ []) = none
until_eoi (x ∷ y ∷ r) =
    if x == 0xff && y == 0xd9 then some ([], r) else prepend x (until_eoi (y ∷ r))

-- `buffer[-2:]` of a longer buffer.
pub last_two : Bytes → Bytes
last_two (x ∷ y ∷ z ∷ r) = last_two (y ∷ z ∷ r)
last_two r = r

abbrev pub framed : Bytes → Bytes
framed body = 0xff ∷ 0xd8 ∷ body ++ 0xff ∷ 0xd9 ∷ []

-- How a round of the loop `while True` over the buffer ends: with `break`, or with a frame and the
-- buffer of the next round.
pub data Round : Type 0 where
  breaks : (buffer : Bytes) → Round
  yields : (frame buffer : Bytes) → Round

unfoldable pub round : Bytes → Round
unfolding after_soi until_eoi last_two
round buffer = elim (after_soi buffer) [
  | none ↦ breaks (last_two buffer)
  | some open_frame ↦ elim (until_eoi open_frame) [
    | none ↦ breaks (0xff ∷ 0xd8 ∷ open_frame)
    | some (body, rest) ↦ yields (framed body) rest
  ]
]

-- The loop on fuel: the frames that it yields, and the buffer that it leaves. A round that goes on takes
-- four bytes off, so the length of the buffer is enough fuel.
pub drain : (fuel : ℕ) → Bytes → List Bytes × Bytes
unfolding round
drain zero buffer = ([], buffer)
drain (suc fuel) buffer = elim (round buffer) [
  | breaks left ↦ ([], left)
  | yields frame rest ↦ let (frames, left) = drain fuel rest in (frame ∷ frames, left)
]

-- One round of `async for chunk`.
pub feed : Bytes → Bytes → List Bytes × Bytes
unfolding drain
feed buffer chunk = drain (length (buffer ++ chunk)) (buffer ++ chunk)

-- The frames of a whole stream, and the buffer at its end.
pub feed_all : Bytes → List Bytes → List Bytes × Bytes
unfolding feed
feed_all buffer [] = ([], buffer)
feed_all buffer (c ∷ cs) =
    let (frames, left) = feed buffer c in
    let (more, end) = feed_all left cs in (frames ++ more, end)

-- `str(n).encode()`: the digits of `n`. Fuel `n` is enough, since `n / 10 < n` once `n` is positive.
pub digits : (fuel : ℕ) → ℕ → Bytes
digits zero n = (48 + n) ∷ []
digits (suc fuel) n =
    let higher = digits fuel (n / 10) in
    if ltb n 10 then (48 + n) ∷ [] else higher ++ ((48 + n % 10) ∷ [])

-- `--frame\r\nContent-Type: image/jpeg\r\nContent-Length: `.
abbrev pub part_start : Bytes
part_start =
    45 ∷ 45 ∷ 102 ∷ 114 ∷ 97 ∷ 109 ∷ 101 ∷ 13 ∷ 10 ∷ 67 ∷ 111 ∷ 110 ∷ 116 ∷ 101 ∷ 110 ∷ 116 ∷ 45
    ∷ 84 ∷ 121 ∷ 112 ∷ 101 ∷ 58 ∷ 32 ∷ 105 ∷ 109 ∷ 97 ∷ 103 ∷ 101 ∷ 47 ∷ 106 ∷ 112 ∷ 101 ∷ 103 ∷ 13
    ∷ 10 ∷ 67 ∷ 111 ∷ 110 ∷ 116 ∷ 101 ∷ 110 ∷ 116 ∷ 45 ∷ 76 ∷ 101 ∷ 110 ∷ 103 ∷ 116 ∷ 104 ∷ 58 ∷ 32
    ∷ []

-- One part of the multipart stream, as `yield` sends it.
pub part : (frame : Bytes) → Bytes
unfolding digits
part frame =
    let size = length frame in
    part_start ++ digits size size ++ (13 ∷ 10 ∷ 13 ∷ 10 ∷ []) ++ frame ++ (13 ∷ 10 ∷ [])
