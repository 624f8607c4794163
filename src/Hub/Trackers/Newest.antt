-- ===== src/Hub/Trackers/Newest.antt =====
-- Which detection of a cat the hub shows.
use cat_sentinel.Prelude.{
  ℕ, ◌≡◌, refl, ◌≤◌, subst, >>=-eq-ok, sym, inl, inr, String, List, [], ◌∷◌, Option, none, some,
  arith, ok, raise, All, All-map, get_elem?, suc, str_dec, Dict, lookup, lookup-insert_self,
  lookup-insert_ne, ltb, Bool-cases, Option-cases, Outcome-cases,
}
use cat_sentinel.Hub.Trackers.{
  Datetime, JsonDetection, Latest, parse_captured_at, is_newer, keep_newer, add_latest,
  latest_by_cat, list_active_trackers, get, answered, key_error,
}

module _ (Box : Type 0) (fromisoformat : String → Option Datetime) where
  -- The entry of the cat is at least as new as `t`.
  abbrev pub Shows : String → ℕ → Latest Box → Type 0
  Shows cat_id t latest =
      (e : ℕ × JsonDetection Box) × (lookup str_dec cat_id latest ≡ some e) × (t ≤ e.0)

  keep_newer-Shows :
      (c : String) (t : ℕ) (d : JsonDetection Box) (latest : Latest Box)
      → Shows c t (keep_newer Box fromisoformat c t d latest)
  keep_newer-Shows c t d latest = elim (Option-cases (lookup str_dec c latest)) [
    | inl absent ↦
        ((t, d), ground (arith, absent, lookup-insert_self str_dec c (t, d) latest), omega arith)
    | inr (e, there) ↦ elim (Bool-cases (ltb e.0 t)) [
      | inl newer ↦ (
        (t, d),
        ground (arith, there, newer, lookup-insert_self str_dec c (t, d) latest),
        omega arith,
      )
      | inr older ↦ (e, ground (arith, there, older), ground (arith, older))
    ]
  ]

  keep_newer-later :
      (c c' : String) (t t' : ℕ) (d : JsonDetection Box) (latest : Latest Box)
      → Shows c t latest
      → Shows c t (keep_newer Box fromisoformat c' t' d latest)
  keep_newer-later c c' t t' d latest (e, there, le) = elim (str_dec c c') [
    | yes same ↦ elim (Bool-cases (ltb e.0 t')) [
      | inl newer ↦ (
        (t', d),
        ground (arith, there, same, newer, lookup-insert_self str_dec c' (t', d) latest),
        ground (arith, le, newer),
      )
      | inr older ↦ (e, ground (arith, there, same, older), le)
    ]
    | no differ ↦ elim (Bool-cases (is_newer Box fromisoformat t' (lookup str_dec c' latest))) [
      | inl newer ↦
          (e, ground (arith, there, newer, lookup-insert_ne str_dec c c' (t', d) latest differ), le)
      | inr older ↦ (e, ground (arith, there, older), le)
    ]
  ]

  -- What a successful round has read of the detection.
  abbrev pub Reads : JsonDetection Box → String → ℕ → Type 0
  Reads d c t =
      (raw : String) × (d.cat_id ≡ some c)
      × (d.captured_at ≡ some raw)
      × (parse_captured_at Box fromisoformat raw ≡ ok t)

  add_latest-Reads :
      (d : JsonDetection Box) (latest latest' : Latest Box)
      → add_latest Box fromisoformat d latest ≡ ok latest'
      → (c : String) × (t : ℕ) × Reads d c t × (latest' ≡ keep_newer Box fromisoformat c t d latest)
  unfolding add_latest
  add_latest-Reads d latest latest' h = elim (Option-cases d.cat_id) [
    | inl e ↦ absurd (ground (arith, e, h))
    | inr (c, e) ↦ elim (Option-cases d.captured_at) [
      | inl e' ↦ absurd (ground (arith, e, e', h))
      | inr (raw, e') ↦ elim (Outcome-cases (parse_captured_at Box fromisoformat raw)) [
        | inr (x, e'') ↦ absurd (ground (arith, e, e', e'', h))
        | inl (t, e'') ↦ (c, t, (raw, e, e', e''), ground (arith, e, e', e'', h))
      ]
    ]
  ]

  latest_keeps :
      (ds : List (JsonDetection Box)) (latest latest' : Latest Box) (c : String) (t : ℕ)
      → latest_by_cat Box fromisoformat ds latest ≡ ok latest'
      → Shows c t latest
      → Shows c t latest'
  unfolding latest_by_cat
  latest_keeps [] latest latest' c t h s = subst (Shows c t) (ground (arith, h)) s
  latest_keeps (d ∷ ds) latest latest' c t h s =
      let (m, e, rest) =
        >>=-eq-ok (add_latest Box fromisoformat d latest) (latest_by_cat Box fromisoformat ds) h in
      let (c', t', reads, kept) = add_latest-Reads d latest m e in
      latest_keeps ds m latest' c t rest
        (subst (Shows c t) (sym kept) (keep_newer-later c c' t t' d latest s))

  -- Each entry holds a detection of its cat that `P` holds of, under the time of that detection.
  abbrev pub Holds : (JsonDetection Box → Type 0) → Latest Box → Type 0
  Holds P latest =
      (c : String) (e : ℕ × JsonDetection Box)
      → lookup str_dec c latest ≡ some e
      → Reads e.1 c e.0 × P e.1

  keep_newer-Holds :
      (P : JsonDetection Box → Type 0) (c : String) (t : ℕ) (d : JsonDetection Box)
      (latest : Latest Box)
      → Reads d c t
      → P d
      → Holds P latest
      → Holds P (keep_newer Box fromisoformat c t d latest)
  keep_newer-Holds P c t d latest reads p h c' e there =
      elim (Bool-cases (is_newer Box fromisoformat t (lookup str_dec c latest))) [
        | inr older ↦ h c' e (ground (arith, there, older))
        | inl newer ↦ elim (str_dec c' c) [
          | no differ ↦
              h c' e
                (ground (arith, there, newer, lookup-insert_ne str_dec c' c (t, d) latest differ))
          | yes same ↦
              let mine : some (t, d) ≡ some e =
                ground (arith, there, newer, same, lookup-insert_self str_dec c (t, d) latest) in
              subst (λ x. elim x [ none ↦ Unit {0} | some y ↦ Reads y.1 c' y.0 × P y.1 ]) mine
                (subst (λ k. Reads d k t) (sym same) reads, p)
        ]
      ]

  latest_by_cat-Holds :
      (P : JsonDetection Box → Type 0) (ds : List (JsonDetection Box)) (latest latest' : Latest Box)
      → latest_by_cat Box fromisoformat ds latest ≡ ok latest'
      → All P ds
      → Holds P latest
      → Holds P latest'
  unfolding latest_by_cat
  latest_by_cat-Holds P [] latest latest' h all k = subst (Holds P) (ground (arith, h)) k
  latest_by_cat-Holds P (d ∷ ds) latest latest' h (p, all) k =
      let (m, e, rest) =
        >>=-eq-ok (add_latest Box fromisoformat d latest) (latest_by_cat Box fromisoformat ds) h in
      let (c, t, reads, kept) = add_latest-Reads d latest m e in
      latest_by_cat-Holds P ds m latest' rest all
        (subst (Holds P) (sym kept) (keep_newer-Holds P c t d latest reads p k))

  -- `d` is one of `ds`.
  abbrev pub IsOneOf : List (JsonDetection Box) → JsonDetection Box → Type 0
  IsOneOf ds d = (i : ℕ) × (get_elem? ds i ≡ some d)

  all-IsOneOf : (ds : List (JsonDetection Box)) → All (IsOneOf ds) ds
  all-IsOneOf [] = tt
  all-IsOneOf (d ∷ ds) = ((0, refl), All-map ds (λ x (i, e). (suc i, e)) (all-IsOneOf ds))

  latest_by_cat-Reads :
      (ds : List (JsonDetection Box)) (latest latest' : Latest Box)
      → latest_by_cat Box fromisoformat ds latest ≡ ok latest'
      → All (λ d. (c : String) × (t : ℕ) × Reads d c t × Shows c t latest') ds
  unfolding latest_by_cat
  latest_by_cat-Reads [] latest latest' h = tt
  latest_by_cat-Reads (d ∷ ds) latest latest' h =
      let (m, e, rest) =
        >>=-eq-ok (add_latest Box fromisoformat d latest) (latest_by_cat Box fromisoformat ds) h in
      let (c', t', reads, kept) = add_latest-Reads d latest m e in
      (
        (
          c',
          t',
          reads,
          latest_keeps ds m latest' c' t' rest
              (subst (Shows c' t') (sym kept) (keep_newer-Shows c' t' d latest)),
        ),
        latest_by_cat-Reads ds m latest' rest,
      )

  -- When the hub reads its detections without an error, it holds an entry for each cat that was detected,
  -- and no detection of that cat is newer than the entry's time; and each entry holds one of the detections
  -- that were read, which is of the entry's cat and has the entry's time.
  pub latest_by_cat-Shows :
      (ds : List (JsonDetection Box)) (latest : Latest Box)
      → latest_by_cat Box fromisoformat ds [] ≡ ok latest
      → All (λ d. (c : String) × (t : ℕ) × Reads d c t × Shows c t latest) ds
        × Holds (IsOneOf ds) latest
  unfolding lookup
  latest_by_cat-Shows ds latest h = (
    latest_by_cat-Reads ds [] latest h,
    latest_by_cat-Holds (IsOneOf ds) ds [] latest h (all-IsOneOf ds)
        (λ c e none_there. absurd (ground (arith, none_there))),
  )

  -- A detection without `captured_at`, which is what cat-sentinel's own answer has, fails the whole
  -- request with a KeyError, whatever detections follow.
  pub list_active_trackers_no_time :
      (cats : Dict String (Option String)) (d : JsonDetection Box) (ds : List (JsonDetection Box))
      (c : String) (now : ℕ)
      → d.cat_id ≡ some c
      → d.captured_at ≡ none
      → list_active_trackers Box fromisoformat (answered cats) (answered (d ∷ ds)) now
        ≡ raise key_error
  unfolding list_active_trackers get latest_by_cat add_latest
  list_active_trackers_no_time cats d ds c now e e' = ground (arith, e, e')
