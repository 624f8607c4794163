-- ===== src/Sentinel/Cats/Tests.antt =====
-- Runs of `get_or_create`, and the theorems at those inputs.
use cat_sentinel.Prelude.{
  ℕ, ◌≡◌, refl, [], ◌∷◌, arith, ℕ_discrete, lookup, insert, str_dec, pair_dec, ok,
}
use cat_sentinel.Prelude.Tables.{Table, commit, taken, find_by}
use cat_sentinel.Sentinel.Zones.{unset, given}
use cat_sentinel.Sentinel.Cats.{Cat, CatUpdate, chosen, new_cat, get_or_create, get, patch_cat}
use cat_sentinel.Sentinel.Cats.Race.{IsValid, Belongs, get_or_create_returns}

program : Unit {0}
unfolding get_or_create get patch_cat ℕ_discrete lookup insert str_dec pair_dec taken commit find_by
program = tt

-- Another session adds the same track between the read and the commit.
abbrev rival : Table Cat → Table Cat
rival _ = (7, new_cat "default" 1) ∷ []

lost_race : get_or_create rival "default" 1 9 [] ≡ ok (rival [], 7, new_cat "default" 1)
unfolding program
lost_race = refl

empty-IsValid : IsValid []
unfolding program
empty-IsValid = record { distinct = tt; unique = λ i j v w e f q. cc e }

rival-IsValid : IsValid (rival [])
unfolding program
rival-IsValid = record { distinct = (refl, tt); unique = λ i j v w e f q. ground arith }

get_or_create_returns_example :
    (r : Table Cat × ℕ × Cat) × (get_or_create rival "default" 1 9 [] ≡ ok r)
    × Belongs "default" 1 r
get_or_create_returns_example =
    get_or_create_returns rival "default" 1 9 [] empty-IsValid rival-IsValid

abbrev whiskers : Cat
whiskers = record (new_cat "default" 1) { label = chosen "Whiskers" }

abbrev rename : CatUpdate
rename = record { label = given (chosen "Whiskers"); is_active = unset }

renamed : patch_cat 7 rename (rival []) ≡ ok ((7, whiskers) ∷ [], whiskers)
unfolding program
renamed = refl
