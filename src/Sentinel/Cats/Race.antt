-- ===== src/Sentinel/Cats/Race.antt =====
-- `get_or_create` under a race, and that identities are unique.
use cat_sentinel.Prelude.{
  ℕ, String, ◌≡◌, refl, inl, inr, true, none, some, arith, ℕ_discrete, Distinct, insert-Distinct,
  Bool-cases, Option-cases, ok, sym, ap, ◌≢◌, ◌∙◌, lookup-insert_self,
}
use cat_sentinel.Prelude.Tables.{
  Table, find, put, commit, taken, find_by, Unique, put-Unique, taken_witness, find_by_found,
  find_by_absent, find-put,
}
use cat_sentinel.Sentinel.Zones.{patched}
use cat_sentinel.Sentinel.Cats.{
  Cat, CatUpdate, key, key_dec, get, get_by_track_id, new_cat, get_or_create, update, patch_cat,
}

-- No two cats are the same track of a camera.
pub record IsValid (t : Table Cat) : Type 0 where
  pub distinct : Distinct ℕ_discrete t
  pub unique : Unique key key_dec t

-- The row of a track is found by its key.
pub get_by_track_id_found :
    (camera_id : String) (track_id id : ℕ) (c : Cat) (t : Table Cat)
    → IsValid t
    → find id t ≡ some c
    → key c ≡ (camera_id, track_id)
    → get_by_track_id camera_id track_id t ≡ some (id, c)
unfolding get_by_track_id
get_by_track_id_found camera_id track_id id c t v found is_key =
    elim (Option-cases (find_by key key_dec (camera_id, track_id) t)) [
      | inl absent ↦
          absurd (find_by_absent key key_dec (camera_id, track_id) t id c absent found is_key)
      | inr ((id', c'), e) ↦
          let (is_key', found') =
            find_by_found key key_dec (camera_id, track_id) t id' c' v.distinct e in
          let same : id' ≡ id = v.unique id' id c' c found' found (is_key' ∙ sym is_key) in
          ground arith
    ]

pub get_or_create_hit :
    (others : Table Cat → Table Cat) (camera_id : String) (track_id id j : ℕ) (c : Cat)
    (t : Table Cat)
    → get_by_track_id camera_id track_id t ≡ some (j, c)
    → get_or_create others camera_id track_id id t ≡ ok (t, j, c)
unfolding get_or_create
get_or_create_hit others camera_id track_id id j c t h = ground arith

get_or_create_lost :
    (others : Table Cat → Table Cat) (camera_id : String) (track_id id j : ℕ) (c : Cat)
    (t : Table Cat)
    → get_by_track_id camera_id track_id t ≡ none
    → taken key key_dec id (camera_id, track_id) (others t) ≡ true
    → get_by_track_id camera_id track_id (others t) ≡ some (j, c)
    → get_or_create others camera_id track_id id t ≡ ok (others t, j, c)
unfolding get_or_create commit
get_or_create_lost others camera_id track_id id j c t absent lost again = ground arith

abbrev pub Belongs : String → ℕ → Table Cat × ℕ × Cat → Type 0
Belongs camera_id track_id (t', id, c) =
    IsValid t' × (find id t' ≡ some c) × (c.camera_id ≡ camera_id) × (c.track_id ≡ track_id)

-- Whatever other sessions commit in between, `get_or_create` returns, with a row of the track asked for
-- that is in the table, and the table has one row for each track.
pub get_or_create_returns :
    (others : Table Cat → Table Cat) (camera_id : String) (track_id id : ℕ) (t : Table Cat)
    → IsValid t
    → IsValid (others t)
    → (r : Table Cat × ℕ × Cat) × (get_or_create others camera_id track_id id t ≡ ok r)
      × Belongs camera_id track_id r
unfolding get_or_create get_by_track_id commit
get_or_create_returns others camera_id track_id id t v v' =
    let c = new_cat camera_id track_id in
    elim (Option-cases (get_by_track_id camera_id track_id t)) [
      | inr ((id0, c0), e) ↦
          let (is_key, found) =
            find_by_found key key_dec (camera_id, track_id) t id0 c0 v.distinct e in
          (
            (t, id0, c0),
            get_or_create_hit others camera_id track_id id id0 c0 t e,
            (v, found, ground arith, ground arith),
          )
      | inl absent ↦ elim (Bool-cases (taken key key_dec id (camera_id, track_id) (others t))) [
        | inr free ↦ (
          (put id c (others t), id, c),
          ground arith,
          (
            record {
              distinct = insert-Distinct ℕ_discrete id c (others t) v'.distinct;
              unique = put-Unique key key_dec id c (others t) v'.unique free;
            },
            lookup-insert_self ℕ_discrete id c (others t),
            refl,
            refl,
          ),
        )
        | inl lost ↦
            let (j, w, found, is_key, other) =
              taken_witness key key_dec id (camera_id, track_id) (others t) v'.distinct lost in
            let again = get_by_track_id_found camera_id track_id j w (others t) v' found is_key in
            (
              (others t, j, w),
              get_or_create_lost others camera_id track_id id j w t absent lost again,
              (v', found, ground arith, ground arith),
            )
      ]
    ]

-- Every row of the one table is in the other, with its camera and its track.
abbrev pub Grows : Table Cat → Table Cat → Type 0
Grows t t' =
    (j : ℕ) (c : Cat) → find j t ≡ some c → (c' : Cat) × (find j t' ≡ some c') × (key c' ≡ key c)

pub put-Grows : (id : ℕ) (c : Cat) (t : Table Cat) → find id t ≡ none → Grows t (put id c t)
put-Grows id c t absent j d found = (d, ground (arith, find-put j id c t), refl)

-- `get_or_create` loses no row, if the other sessions lose none and have not used the new uuid.
pub get_or_create-Grows :
    (others : Table Cat → Table Cat) (camera_id : String) (track_id id : ℕ) (t : Table Cat)
    (r : Table Cat × ℕ × Cat)
    → Grows t (others t)
    → find id (others t) ≡ none
    → get_or_create others camera_id track_id id t ≡ ok r
    → Grows t r.0
      × ((i : ℕ) → i ≢ id → find i t ≡ none → find i (others t) ≡ none → find i r.0 ≡ none)
unfolding get_or_create commit
get_or_create-Grows others camera_id track_id id t r grows unused h =
    let c = new_cat camera_id track_id in
    elim (Option-cases (get_by_track_id camera_id track_id t)) [
      | inr ((id0, c0), e) ↦
          let same : r.0 ≡ t = ground arith in
          (λ j d found. (d, ap (find j) same ∙ found, refl), λ i n a b. ap (find i) same ∙ a)
      | inl absent ↦ elim (Bool-cases (taken key key_dec id (camera_id, track_id) (others t))) [
        | inr free ↦
            let same : r.0 ≡ put id c (others t) = ground arith in
            (
              λ j d found.
                  let (d', kept, is_key) = grows j d found in
                  let (d'', kept', is_key') = put-Grows id c (others t) unused j d' kept in
                  (d'', ap (find j) same ∙ kept', is_key' ∙ is_key),
              λ i n a b. ap (find i) same ∙ ground (arith, find-put i id c (others t)),
            )
        | inl lost ↦
            let same : r.0 ≡ others t = ground arith in
            (
              λ j d found.
                  let (d', kept, is_key) = grows j d found in (d', ap (find j) same ∙ kept, is_key),
              λ i n a b. ap (find i) same ∙ b,
            )
      ]
    ]

-- Once a track has its cat, every later call returns that cat and changes nothing, and a session that
-- lost the race returns the winner's row.
pub get_or_create_agrees :
    (others others' : Table Cat → Table Cat) (camera_id : String) (track_id id id' : ℕ)
    (t : Table Cat) (r : Table Cat × ℕ × Cat)
    → IsValid t
    → IsValid (others t)
    → get_or_create others camera_id track_id id t ≡ ok r
    → get_or_create others' camera_id track_id id' r.0 ≡ ok r
get_or_create_agrees others others' camera_id track_id id id' t r v v' h =
    let (r', e, (valid, found, on_camera, of_track)) =
      get_or_create_returns others camera_id track_id id t v v' in
    let same : r' ≡ r = ground arith in
    let again =
      get_by_track_id_found camera_id track_id r'.1 r'.2 r'.0 valid found (ground arith) in
    let hit = get_or_create_hit others' camera_id track_id id' r'.1 r'.2 r'.0 again in
    rw (← same) hit

-- A valid update that sets the label alone keeps the identity: the camera, the track and, if the body
-- leaves it out, whether the cat is active.
pub patch_cat_identity :
    (id : ℕ) (payload : CatUpdate) (c : Cat) (t t' : Table Cat) (c' : Cat)
    → find id t ≡ some c
    → patch_cat id payload t ≡ ok (t', c')
    → (c'.camera_id ≡ c.camera_id)
      × (c'.track_id ≡ c.track_id)
      × (some c'.is_active ≡ patched (some c.is_active) payload.is_active)
      × (some c'.label ≡ patched (some c.label) payload.label)
      × (get id t' ≡ ok c')
unfolding patch_cat get update commit
patch_cat_identity id payload c t t' c' found h =
    ground (arith, lookup-insert_self ℕ_discrete id c' t)
