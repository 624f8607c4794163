-- ===== src/Prelude/Dicts.antt =====
-- A Python dict in insertion order, over keys with decidable equality.
use mathlib.Core.Path.{◌≡◌, refl}
use mathlib.Core.Logic.{◌≢◌, ite}
use mathlib.Core.List.{List, [], ◌∷◌}
use mathlib.Core.Option.{Option, none, some}
use native.Mathlib.Omega.{arith}

abbrev pub Dict : Type 0 → Type 0 → Type 0
Dict K V = List (K × V)

module _ {K V : Type 0} (dec : Discrete K) where
  -- `d.get(k)`
  unfoldable pub lookup : K → Dict K V → Option V
  lookup k [] = none
  lookup k ((j, v) ∷ d) = ite (dec k j) (some v) (lookup k d)

  -- `d[k] = v`: an old key keeps its place, a new one goes last.
  unfoldable pub insert : K → V → Dict K V → Dict K V
  insert k v [] = (k, v) ∷ []
  insert k v ((j, w) ∷ d) = ite (dec k j) ((j, v) ∷ d) ((j, w) ∷ insert k v d)

  -- `del d[k]`
  unfoldable pub erase : K → Dict K V → Dict K V
  erase k [] = []
  erase k ((j, w) ∷ d) = ite (dec k j) d ((j, w) ∷ erase k d)

  -- No key is listed twice.
  abbrev pub Distinct : Dict K V → Type 0
  Distinct [] = Unit
  Distinct ((k, v) ∷ d) = (lookup k d ≡ none) × Distinct d

  pub lookup-insert_self :
      (key : K) (value : V) (dict : Dict K V) → lookup key (insert key value dict) ≡ some value
  unfolding lookup insert
  lookup-insert_self key value (entry ∷ rest) = ground (arith, lookup-insert_self key value rest)
  lookup-insert_self key value [] = ground arith

  pub lookup-insert_ne :
      (other key : K) (value : V) (dict : Dict K V)
      → other ≢ key
      → lookup other (insert key value dict) ≡ lookup other dict
  unfolding lookup insert
  lookup-insert_ne other key value (entry ∷ rest) differ =
      ground (arith, lookup-insert_ne other key value rest differ)
  lookup-insert_ne other key value [] differ = ground arith

  pub lookup-erase_ne :
      (other key : K) (dict : Dict K V)
      → other ≢ key
      → lookup other (erase key dict) ≡ lookup other dict
  unfolding lookup erase
  lookup-erase_ne other key (entry ∷ rest) differ =
      ground (arith, lookup-erase_ne other key rest differ)
  lookup-erase_ne other key [] differ = refl

  pub lookup-erase_self :
      (key : K) (dict : Dict K V) → Distinct dict → lookup key (erase key dict) ≡ none
  unfolding lookup erase
  lookup-erase_self key (entry ∷ rest) distinct =
      ground (arith, lookup-erase_self key rest distinct.1)
  lookup-erase_self key [] distinct = refl

  pub insert-Distinct : (k : K) (v : V) (d : Dict K V) → Distinct d → Distinct (insert k v d)
  unfolding lookup insert
  insert-Distinct k v [] h = (refl, tt)
  insert-Distinct k v (e ∷ d) h =
      ground (arith, insert-Distinct k v d h.1, lookup-insert_ne e.0 k v d)

  pub erase-Distinct : (k : K) (d : Dict K V) → Distinct d → Distinct (erase k d)
  unfolding lookup erase
  erase-Distinct k [] h = tt
  erase-Distinct k (e ∷ d) h = ground (arith, erase-Distinct k d h.1, lookup-erase_ne e.0 k d)

  pub erase_absent : (k : K) (d : Dict K V) → lookup k d ≡ none → erase k d ≡ d
  unfolding lookup erase
  erase_absent k [] h = refl
  erase_absent k (e ∷ d) h = ground (arith, erase_absent k d)
