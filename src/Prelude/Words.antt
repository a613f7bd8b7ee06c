-- ===== src/Prelude/Words.antt =====
-- Arithmetic of `u64`, in a build where plain `+` and `*` wrap.
use Prim.Native.Nat.{ℕ, ◌+◌, ◌-◌, ◌*◌, ◌%◌, ◌^◌, ◌<◌}
use mathlib.Core.Path.{◌≡◌}
use mathlib.Core.List.{List, [], ◌∷◌, ◌++◌}
use native.Mathlib.Omega.{arith}
use mathlib.Core.Option.{Option, none, some}
use partymixrust.Prelude.Tests.{ltb, if◌then◌else◌}

abbrev pub u64_mod : ℕ
u64_mod = 2 ^ 64

abbrev pub u64_max : ℕ
u64_max = 2 ^ 64 - 1

abbrev pub wrapping_add : ℕ → ℕ → ℕ
wrapping_add a b = (a + b) % u64_mod

abbrev pub wrapping_mul : ℕ → ℕ → ℕ
wrapping_mul a b = a * b % u64_mod

abbrev pub saturating_add : ℕ → ℕ → ℕ
saturating_add a b = if ltb u64_max (a + b) then u64_max else a + b

-- `-` on ℕ stops at 0, as `saturating_sub` does.
abbrev pub saturating_sub : ℕ → ℕ → ℕ
saturating_sub a b = a - b

abbrev pub checked_add : ℕ → ℕ → Option ℕ
checked_add a b = if ltb u64_max (a + b) then none else some (a + b)

abbrev pub checked_sub : ℕ → ℕ → Option ℕ
checked_sub a b = if ltb a b then none else some (a - b)

-- `iter().sum::<u64>()`
unfoldable pub wrapping_sum : List ℕ → ℕ → ℕ
wrapping_sum [] acc = acc
wrapping_sum (x ∷ xs) acc = wrapping_sum xs (wrapping_add acc x)

-- The sum without a bound.
unfoldable pub total : List ℕ → ℕ
total [] = 0
total (x ∷ xs) = x + total xs

pub wrapping_sum-eq-mod :
    (xs : List ℕ) (acc : ℕ) → acc < u64_mod → wrapping_sum xs acc ≡ (acc + total xs) % u64_mod
unfolding wrapping_sum total
wrapping_sum-eq-mod [] acc h = omega arith
wrapping_sum-eq-mod (x ∷ xs) acc h =
    omega (arith, wrapping_sum-eq-mod xs (wrapping_add acc x) (omega arith))

-- Without overflow the wrapping sum is the sum.
pub wrapping_sum-eq-total : (xs : List ℕ) → total xs < u64_mod → wrapping_sum xs 0 ≡ total xs
wrapping_sum-eq-total xs h = omega (arith, wrapping_sum-eq-mod xs 0 (omega arith))

pub total-append : (xs ys : List ℕ) → total (xs ++ ys) ≡ total xs + total ys
unfolding total
total-append [] ys = omega arith
total-append (x ∷ xs) ys = omega (arith, total-append xs ys)
