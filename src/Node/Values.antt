-- ===== src/Node/Values.antt =====
-- The accumulator values after so many blocks, as the histories of mixer_node.rs list them.
use partymixrust.Prelude.{
  ℕ, ℕ_discrete, zero, suc, ◌+◌, ◌-◌, ◌≤◌, ◌<◌, ◌≡◌, refl, ap, ap₂, ◌∙◌, inl, inr, List, [], ◌∷◌,
  ◌++◌, arith, length, drop, Member,
}
use partymixrust.ShieldedCsv.Data.{ToSAccValue}
use partymixrust.ShieldedCsv.Platform.{Platform}
use partymixrust.ShieldedCsv.Primitives.{zero_bytes}
use partymixrust.Node.Reachable.{hashed}

module _ (x : Platform) where
  -- The values after `k` blocks, after one more, and so on.
  unfoldable pub values_from : ℕ → ℕ → List ToSAccValue
  values_from k zero = []
  values_from k (suc n) = hashed x k (zero_bytes 32) ∷ values_from (suc k) n

  values_from-suc :
      (n k : ℕ) → values_from k (suc n) ≡ values_from k n ++ hashed x (k + n) (zero_bytes 32) ∷ []
  unfolding values_from
  values_from-suc zero k = let e : k + 0 ≡ k = omega arith in rw e refl
  values_from-suc (suc n) k =
      let e : suc k + n ≡ k + suc n = omega arith in
      ap (λ vs. hashed x k (zero_bytes 32) ∷ vs) (rw (← e) (values_from-suc n (suc k)))

  pub values_to :
      (n : ℕ) → values_from 0 (suc n) ≡ values_from 0 n ++ hashed x n (zero_bytes 32) ∷ []
  values_to n =
      let e : 0 + n ≡ n = omega arith in
      values_from-suc n 0 ∙ ap (λ k. values_from 0 n ++ hashed x k (zero_bytes 32) ∷ []) e

  pub length-values_from : (n k : ℕ) → length (values_from k n) ≡ n
  unfolding values_from
  length-values_from zero k = refl
  length-values_from (suc n) k = ap suc (length-values_from n (suc k))

  pub drop-values_from :
      (j n k : ℕ) → j ≤ n → drop j (values_from k n) ≡ values_from (k + j) (n - j)
  unfolding values_from
  drop-values_from zero n k h =
      let e : k ≡ k + 0 = omega arith in let e' : n ≡ n - 0 = omega arith in ap₂ values_from e e'
  drop-values_from (suc j) zero k h = absurd (omega arith)
  drop-values_from (suc j) (suc n) k h =
      let e : suc k + j ≡ k + suc j = omega arith in
      let e' : n - j ≡ suc n - suc j = omega arith in
      drop-values_from j n (suc k) (omega arith) ∙ ap₂ values_from e e'

  pub Member-values_from :
      (n k j : ℕ) → k ≤ j → j < k + n → Member (hashed x j (zero_bytes 32)) (values_from k n)
  unfolding values_from
  Member-values_from zero k j h h' = absurd (omega arith)
  Member-values_from (suc n) k j h h' = elim (ℕ_discrete j k) [
    | yes e ↦ inl (ap (λ i. hashed x i (zero_bytes 32)) e)
    | no ne ↦ inr (Member-values_from n (suc k) j (grind arith) (omega arith))
  ]

  pub values_from-Member :
      (n k : ℕ) (v : ToSAccValue)
      → Member v (values_from k n)
      → (j : ℕ) × (k ≤ j) × (j < k + n) × (v ≡ hashed x j (zero_bytes 32))
  unfolding values_from
  values_from-Member zero k v m = absurd m
  values_from-Member (suc n) k v (inl e) = (k, omega arith, omega arith, e)
  values_from-Member (suc n) k v (inr m) =
      let (j, h, h', e) = values_from-Member n (suc k) v m in (j, omega arith, omega arith, e)

  -- No two of the values after up to `n` blocks are the same.
  abbrev pub Different : ℕ → Type 0
  Different n =
      (j k : ℕ) → j ≤ n → k ≤ n → hashed x j (zero_bytes 32) ≡ hashed x k (zero_bytes 32) → j ≡ k
