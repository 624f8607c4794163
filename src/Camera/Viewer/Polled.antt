-- ===== src/Camera/Viewer/Polled.antt =====
-- What a viewer of the live stream gets, from the camera's buffer to the reader of the stream.
use cat_sentinel.Prelude.{
  ℕ, ◌≡◌, refl, sym, ap, ◌∙◌, subst, true, List, [], ◌∷◌, map, Option, none, some, if◌then◌else◌,
  arith, inl, inr, Bool-cases, Option-cases, All,
}
use cat_sentinel.Camera.Bridge.{RtspCamera, is_running}
use cat_sentinel.Sentinel.Mjpeg.{Bytes, part, framed, feed_all}
use cat_sentinel.Sentinel.Mjpeg.Stream.{concat}
use cat_sentinel.Sentinel.Mjpeg.RoundTrip.{NoEnd, feed_all-stream_of}
use cat_sentinel.Camera.Viewer.{same_bytes, is_new, get_frame, mjpeg_generator}

-- A list without its repetitions: of equal neighbours one stays.
unfoldable pub squeeze : List Bytes → List Bytes
squeeze [] = []
squeeze (x ∷ []) = x ∷ []
squeeze (x ∷ y ∷ r) = let rest = squeeze (y ∷ r) in if same_bytes y x then rest else x ∷ rest

same_bytes-eq : (xs ys : Bytes) → same_bytes xs ys ≡ true → xs ≡ ys
same_bytes-eq [] [] h = refl
same_bytes-eq [] (y ∷ ys) h = absurd (ground (arith, h))
same_bytes-eq (x ∷ xs) [] h = absurd (ground (arith, h))
same_bytes-eq (x ∷ xs) (y ∷ ys) h = ground (arith, h, same_bytes-eq xs ys)

-- The frames after the last one sent that the generator sends.
unsent : (last_sent : Option Bytes) → List Bytes → List Bytes
unfolding is_new
unsent last [] = []
unsent last (f ∷ fs) =
    let unchanged = unsent last fs in
    let sent = unsent (some f) fs in if is_new last f then f ∷ sent else unchanged

unsent-squeeze :
    (last : Bytes) (fs : List Bytes) → squeeze (last ∷ fs) ≡ last ∷ unsent (some last) fs
unfolding squeeze unsent is_new
unsent-squeeze last [] = refl
unsent-squeeze last (f ∷ fs) =
    ground (arith, unsent-squeeze last fs, unsent-squeeze f fs, same_bytes-eq f last)

unsent-none : (fs : List Bytes) → unsent none fs ≡ squeeze fs
unfolding unsent is_new squeeze
unsent-none [] = refl
unsent-none (f ∷ fs) = sym (unsent-squeeze f fs)

module _ (jpeg_of : ℕ → Bytes) where
  -- The frames that the rounds met while the camera was running.
  unfoldable pub met : List RtspCamera → List Bytes
  unfolding get_frame is_running
  met [] = []
  met (c ∷ cs) =
      let rest = met cs in
      if is_running c then (elim (get_frame jpeg_of c) [ none ↦ rest | some f ↦ f ∷ rest ]) else []

  mjpeg_generator-unsent :
      (last : Option Bytes) (cs : List RtspCamera)
      → mjpeg_generator jpeg_of last cs ≡ map part (unsent last (met cs))
  unfolding mjpeg_generator met unsent
  mjpeg_generator-unsent last [] = refl
  mjpeg_generator-unsent last (c ∷ cs) = elim (Bool-cases (is_running c)) [
    | inr over ↦ ground (arith, over)
    | inl running ↦ elim (Option-cases (get_frame jpeg_of c)) [
      | inl e ↦ ground (arith, running, e, mjpeg_generator-unsent last cs)
      | inr (f, e) ↦
          ground
            (arith, running, e, mjpeg_generator-unsent last cs, mjpeg_generator-unsent (some f) cs)
    ]
  ]

  -- The generator sends one part for each frame that it meets, in order, and none twice in a row.
  pub mjpeg_generator-squeeze :
      (cs : List RtspCamera) → mjpeg_generator jpeg_of none cs ≡ map part (squeeze (met cs))
  mjpeg_generator-squeeze cs = mjpeg_generator-unsent none cs ∙ ap (map part) (unsent-none (met cs))

-- A JPEG image whose body has no end marker of its own.
abbrev pub IsJpeg : Bytes → Type 0
IsJpeg f = (body : Bytes) × (f ≡ framed body) × NoEnd body

squeeze-All : (P : Bytes → Type 0) (fs : List Bytes) → All P fs → All P (squeeze fs)
unfolding squeeze
squeeze-All P [] a = tt
squeeze-All P (x ∷ []) a = a
squeeze-All P (x ∷ y ∷ r) (p, ps) =
    let rest = squeeze-All P (y ∷ r) ps in
    elim (Bool-cases (same_bytes y x)) [
      | inl same ↦ subst (All P) {x = squeeze (y ∷ r)} (ground (arith, same)) rest
      | inr other ↦ subst (All P) {x = x ∷ squeeze (y ∷ r)} (ground (arith, other)) (p, rest)
    ]

bodies_of :
    (fs : List Bytes)
    → All IsJpeg fs
    → (bodies : List Bytes) × (fs ≡ map framed bodies) × All NoEnd bodies
bodies_of [] a = ([], refl, tt)
bodies_of (f ∷ fs) ((b, e, n), jpegs) =
    let (bs, e', ns) = bodies_of fs jpegs in (b ∷ bs, cc (e, e'), (n, ns))

met-All :
    (jpeg_of : ℕ → Bytes) (P : Bytes → Type 0) (cs : List RtspCamera)
    → ((n : ℕ) → P (jpeg_of n))
    → All P (met jpeg_of cs)
unfolding met get_frame
met-All jpeg_of P [] h = tt
met-All jpeg_of P (c ∷ cs) h =
    let rest = met-All jpeg_of P cs h in
    elim (Bool-cases (is_running c)) [
      | inr over ↦ subst (All P) {x = []} (ground (arith, over)) tt
      | inl running ↦ elim (Option-cases c.latest_jpeg) [
        | inl e ↦ subst (All P) {x = met jpeg_of cs} (ground (arith, running, e)) rest
        | inr (n, e) ↦
            subst (All P) {x = jpeg_of n ∷ met jpeg_of cs} (ground (arith, running, e)) (h n, rest)
      ]
    ]

parts_of_bodies :
    (bodies : List Bytes) → map part (map framed bodies) ≡ map (λ b. part (framed b)) bodies
parts_of_bodies [] = refl
parts_of_bodies (b ∷ bs) = cc (parts_of_bodies bs)

-- What cat-sentinel's reader yields of the camera's live stream, however it is cut into chunks: the
-- frames that the generator met while the camera was running, in order, and of
-- equal neighbours one; if no image has an end marker inside its body.
pub feed_all-mjpeg_generator :
    (jpeg_of : ℕ → Bytes) (cs : List RtspCamera) (chunk : Bytes) (chunks : List Bytes)
    → ((n : ℕ) → IsJpeg (jpeg_of n))
    → concat (chunk ∷ chunks) ≡ concat (mjpeg_generator jpeg_of none cs)
    → (feed_all [] (chunk ∷ chunks)).0 ≡ squeeze (met jpeg_of cs)
feed_all-mjpeg_generator jpeg_of cs chunk chunks jpegs sent =
    let fs = squeeze (met jpeg_of cs) in
    let (bodies, e, no_end) =
      bodies_of fs (squeeze-All IsJpeg (met jpeg_of cs) (met-All jpeg_of IsJpeg cs jpegs)) in
    let parts : mjpeg_generator jpeg_of none cs ≡ map (λ b. part (framed b)) bodies =
      mjpeg_generator-squeeze jpeg_of cs ∙ ap (map part) e ∙ parts_of_bodies bodies in
    feed_all-stream_of bodies chunk chunks no_end (sent ∙ ap concat parts) ∙ sym e
