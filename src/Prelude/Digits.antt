-- ===== src/Prelude/Digits.antt =====
-- `to_le_bytes` and `to_be_bytes` of an unsigned number, and what the bytes determine.
use partymixrust.Prelude.Lists.{Bytes, length, length-append}
use Prim.Native.Nat.{ℕ, zero, suc, ◌+◌, ◌*◌, ◌/◌, ◌%◌, ◌^◌, ◌<◌}
use mathlib.Core.Path.{◌≡◌, refl, ap, subst}
use mathlib.Core.List.{[], ◌∷◌, ◌++◌}
use native.Mathlib.Omega.{arith}
use native.Mathlib.Nat.{pow-suc}

-- The `n` lower bytes of `v`, the least significant first.
unfoldable pub to_le_bytes : ℕ → ℕ → Bytes
to_le_bytes zero v = []
to_le_bytes (suc n) v = (v % 256) ∷ to_le_bytes n (v / 256)

-- The most significant first.
unfoldable pub to_be_bytes : ℕ → ℕ → Bytes
to_be_bytes zero v = []
to_be_bytes (suc n) v = to_be_bytes n (v / 256) ++ (v % 256) ∷ []

of_be_bytes : ℕ → Bytes → ℕ
of_be_bytes acc [] = acc
of_be_bytes acc (b ∷ bs) = of_be_bytes (acc * 256 + b) bs

of_be_bytes-append :
    (bs : Bytes) (b acc : ℕ) → of_be_bytes acc (bs ++ b ∷ []) ≡ of_be_bytes acc bs * 256 + b
unfolding of_be_bytes
of_be_bytes-append [] b acc = refl
of_be_bytes-append (c ∷ cs) b acc = of_be_bytes-append cs b (acc * 256 + c)

div_below : (n v : ℕ) → v < 256 ^ suc n → v / 256 < 256 ^ n
div_below n v h = let e : v < 256 ^ n * 256 = subst (λ k. v < k) (pow-suc 256 n) h in omega arith

of_be_bytes-to_be_bytes : (n v : ℕ) → v < 256 ^ n → of_be_bytes 0 (to_be_bytes n v) ≡ v
unfolding to_be_bytes of_be_bytes
of_be_bytes-to_be_bytes zero v h = omega arith
of_be_bytes-to_be_bytes (suc n) v h =
    rw (of_be_bytes-append, of_be_bytes-to_be_bytes n (v / 256) (div_below n v h)) (omega arith)

-- Two numbers that fit and have the same bytes are equal.
pub to_be_bytes-injective :
    (n v w : ℕ) → v < 256 ^ n → w < 256 ^ n → to_be_bytes n v ≡ to_be_bytes n w → v ≡ w
to_be_bytes-injective n v w hv hw e =
    omega
      (arith, of_be_bytes-to_be_bytes n v hv, of_be_bytes-to_be_bytes n w hw, ap (of_be_bytes 0) e)

pub length-to_le_bytes : (n v : ℕ) → length (to_le_bytes n v) ≡ n
unfolding to_le_bytes
length-to_le_bytes zero v = refl
length-to_le_bytes (suc n) v = ap suc (length-to_le_bytes n (v / 256))

pub length-to_be_bytes : (n v : ℕ) → length (to_be_bytes n v) ≡ n
unfolding to_be_bytes
length-to_be_bytes zero v = refl
length-to_be_bytes (suc n) v = omega (
  arith,
  length-append (to_be_bytes n (v / 256)) ((v % 256) ∷ []),
  length-to_be_bytes n (v / 256),
)
