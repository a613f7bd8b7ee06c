-- ===== src/Prelude/HashMap.antt =====
-- `std::collections::HashMap` as an association list; a key that is inserted again replaces its value.
use mathlib.Core.Path.{◌≡◌, refl}
use mathlib.Core.Bool.{Bool, true, false}
use mathlib.Core.List.{List, [], ◌∷◌, map}
use mathlib.Core.Option.{Option, none, some}
use mathlib.Core.Logic.{ite, ◌≢◌}
use partymixrust.Prelude.Lists.{All}
use native.Mathlib.Omega.{arith}

abbrev pub HashMap {ℓ} : Type ℓ → Type ℓ → Type ℓ
HashMap K V = List (K × V)

module _ {ℓ} {K V : Type ℓ} where
  abbrev pub values : HashMap K V → List V
  values = map (λ e. e.1)

module _ {ℓ} {K V : Type ℓ} (dec : Discrete K) where
  unfoldable pub get : K → HashMap K V → Option V
  get k [] = none
  get k ((j, v) ∷ m) = ite (dec j k) (some v) (get k m)

  abbrev pub contains_key : K → HashMap K V → Bool
  contains_key k m = elim (get k m) [ none ↦ false | some _ ↦ true ]

  unfoldable pub insert : K → V → HashMap K V → HashMap K V
  insert k v [] = (k, v) ∷ []
  insert k v ((j, w) ∷ m) = ite (dec j k) ((k, v) ∷ m) ((j, w) ∷ insert k v m)

  pub get-insert :
      (k j : K) (v : V) (m : HashMap K V) → get j (insert k v m) ≡ ite (dec k j) (some v) (get j m)
  unfolding get insert
  get-insert k j v [] = refl
  get-insert k j v ((i, w) ∷ m) = ground (arith, get-insert k j v m)

  pub get-insert_self : (k : K) (v : V) (m : HashMap K V) → get k (insert k v m) ≡ some v
  get-insert_self k v m = rw (get-insert k k v m) (ground arith)

  pub get-insert_other :
      (k j : K) (v : V) (m : HashMap K V) → k ≢ j → get j (insert k v m) ≡ get j m
  get-insert_other k j v m ne = rw (get-insert k j v m) (ground arith)

  -- What holds of the values and of a new one holds of the values after it is inserted.
  pub All-insert :
      (P : V → Type 0) (k : K) (v : V) (m : HashMap K V)
      → P v
      → All P (values m)
      → All P (values (insert k v m))
  unfolding insert
  All-insert P k v [] hv h = (hv, tt)
  All-insert P k v ((j, w) ∷ m) hv h = elim (dec j k) [
    | yes e ↦ ground arith
    | no ne ↦ ground (arith, All-insert P k v m hv h.1)
  ]
