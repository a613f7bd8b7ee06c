-- ===== src/Prelude/Lists.antt =====
-- Vectors and slices as lists, measured and indexed by native numbers.
use Prim.Native.Nat.{ℕ, zero, suc, ◌+◌, ◌-◌}
use mathlib.Core.Path.{◌≡◌, refl, ap}
use mathlib.Core.List.{List, [], ◌∷◌, ◌++◌, map}
use mathlib.Core.Option.{Option, none, some}
use mathlib.Core.Logic.{◌⊎◌, inl, inr}
use native.Mathlib.Decide.{ℕ_discrete}
use native.Mathlib.Omega.{arith}

-- A byte array `[u8; n]` or `Vec<u8>`.
abbrev pub Bytes : Type 0
Bytes = List ℕ

pub List-discrete {ℓ} : {A : Type ℓ} → Discrete A → Discrete (List A)
List-discrete d = hlevel d

unfoldable pub bytes_discrete : Discrete Bytes
unfolding List-discrete ℕ_discrete
bytes_discrete = List-discrete ℕ_discrete

module _ {ℓ} {A : Type ℓ} where
  abbrev pub length : List A → ℕ
  length [] = 0
  length (x ∷ xs) = suc (length xs)

  abbrev pub take : ℕ → List A → List A
  take zero xs = []
  take (suc n) [] = []
  take (suc n) (x ∷ xs) = x ∷ take n xs

  abbrev pub drop : ℕ → List A → List A
  drop zero xs = xs
  drop (suc n) [] = []
  drop (suc n) (x ∷ xs) = drop n xs

  abbrev pub replicate : ℕ → A → List A
  replicate zero a = []
  replicate (suc n) a = a ∷ replicate n a

  abbrev pub last? : List A → Option A
  last? [] = none
  last? (x ∷ []) = some x
  last? (x ∷ y ∷ ys) = last? (y ∷ ys)

  pub length-append : (xs ys : List A) → length (xs ++ ys) ≡ length xs + length ys
  length-append [] ys = omega arith
  length-append (x ∷ xs) ys = omega (arith, length-append xs ys)

  pub length-drop : (n : ℕ) (xs : List A) → length (drop n xs) ≡ length xs - n
  length-drop zero xs = omega arith
  length-drop (suc n) [] = omega arith
  length-drop (suc n) (x ∷ xs) = omega (arith, length-drop n xs)

  -- Appending after a dropped part.
  pub take-append : (xs ys : List A) → take (length xs) (xs ++ ys) ≡ xs
  take-append [] ys = refl
  take-append (x ∷ xs) ys = ap (λ zs. x ∷ zs) (take-append xs ys)

  pub drop-append : (xs ys : List A) → drop (length xs) (xs ++ ys) ≡ ys
  drop-append [] ys = refl
  drop-append (x ∷ xs) ys = drop-append xs ys

  pub last?-append : (xs : List A) (x : A) → last? (xs ++ x ∷ []) ≡ some x
  last?-append [] x = refl
  last?-append (y ∷ []) x = refl
  last?-append (y ∷ z ∷ zs) x = last?-append (z ∷ zs) x

module _ {ℓ κ} {A : Type ℓ} where
  -- Every element satisfies `P`.
  abbrev pub All : (A → Type κ) → List A → Type κ
  All P [] = Unit
  All P (x ∷ xs) = P x × All P xs

module _ {ℓ} {A : Type ℓ} where
  -- No two elements stand outside `R`, in the order of the list.
  abbrev pub Apart : (A → A → Type 0) → List A → Type ℓ
  Apart R [] = Unit
  Apart R (a ∷ as') = All (R a) as' × Apart R as'

pub All-mono {ℓ κ μ} :
    {A : Type ℓ} (P : A → Type κ) (Q : A → Type μ) (xs : List A)
    → ((a : A) → P a → Q a)
    → All P xs
    → All Q xs
All-mono P Q [] f h = tt
All-mono P Q (x ∷ xs) f h = (f x h.0, All-mono P Q xs f h.1)

pub All-snoc {ℓ κ} :
    {A : Type ℓ} (P : A → Type κ) (xs : List A) (y : A) → All P xs → P y → All P (xs ++ y ∷ [])
All-snoc P [] y h hy = (hy, tt)
All-snoc P (x ∷ xs) y h hy = (h.0, All-snoc P xs y h.1 hy)

pub Apart-snoc {ℓ} :
    {A : Type ℓ} (R : A → A → Type 0) (xs : List A) (y : A)
    → Apart R xs
    → All (λ a. R a y) xs
    → Apart R (xs ++ y ∷ [])
Apart-snoc R [] y h hy = (tt, tt)
Apart-snoc R (x ∷ xs) y h hy = (All-snoc (R x) xs y h.0 hy.0, Apart-snoc R xs y h.1 hy.1)

-- `a` is one of the elements.
abbrev pub Member : {A : Type 0} → A → List A → Type 0
Member a [] = ⊥
Member a (b ∷ bs) = (a ≡ b) ⊎ Member a bs

pub All-middle {ℓ κ} :
    {A : Type ℓ} (P : A → Type κ) (xs : List A) (y : A) (zs : List A) → All P (xs ++ y ∷ zs) → P y
All-middle P [] y zs h = h.0
All-middle P (x ∷ xs) y zs h = All-middle P xs y zs h.1

pub All-of_Member :
    {A : Type 0} (P : A → Type 0) (as' : List A) → ((a : A) → Member a as' → P a) → All P as'
All-of_Member P [] h = tt
All-of_Member P (a ∷ as') h = (h a (inl refl), All-of_Member P as' (λ b m. h b (inr m)))

pub All-of_map :
    {A B : Type 0} (P : B → Type 0) (f : A → B) (as' : List A)
    → All P (map f as')
    → All (λ a. P (f a)) as'
All-of_map P f [] h = tt
All-of_map P f (a ∷ as') h = (h.0, All-of_map P f as' h.1)

pub All-append :
    {A : Type 0} (P : A → Type 0) (xs ys : List A) → All P xs → All P ys → All P (xs ++ ys)
All-append P [] ys h k = k
All-append P (x ∷ xs) ys h k = (h.0, All-append P xs ys h.1 k)

pub All-drop : {A : Type 0} (P : A → Type 0) (n : ℕ) (xs : List A) → All P xs → All P (drop n xs)
All-drop P zero xs h = h
All-drop P (suc n) [] h = h
All-drop P (suc n) (x ∷ xs) h = All-drop P n xs h.1

pub All-Member :
    {A : Type 0} (P : A → Type 0) (as' : List A) (a : A) → All P as' → Member a as' → P a
All-Member P [] a h m = absurd m
All-Member P (b ∷ bs) a h (inl e) = rw e h.0
All-Member P (b ∷ bs) a h (inr m) = All-Member P bs a h.1 m

pub Member-snoc : {A : Type 0} (a b : A) (as' : List A) → Member a as' → Member a (as' ++ b ∷ [])
Member-snoc a b [] m = absurd m
Member-snoc a b (c ∷ as') (inl e) = inl e
Member-snoc a b (c ∷ as') (inr m) = inr (Member-snoc a b as' m)
