-- ===== src/Wallet/History.antt =====
-- The list of historic accumulator values of wallet_state.rs.
use partymixrust.Prelude.{
  ℕ, ◌<◌, ◌≡◌, ◌≢◌, refl, true, false, Bool-cases, inl, inr, Option, none, some, [], ◌∷◌, ◌++◌,
  arith, length, drop, last?, last?-append, bytes_discrete, All, All-snoc, All-drop, ltb,
}
use partymixrust.ShieldedCsv.Data.{ToSAccValue}
use partymixrust.ShieldedCsv.Platform.{Platform}
use partymixrust.Wallet.{WalletState, is_last, record_nullifier_accum, trim_nullifier_history}

is_last-true : (v : ToSAccValue) (o : Option ToSAccValue) → is_last v o ≡ true → o ≡ some v
unfolding is_last
is_last-true v none h = cc
is_last-true v (some u) h = elim (bytes_discrete u v) [
  | yes e ↦ rw e
  | no ne ↦ absurd (ground arith)
]

is_last-false : (v : ToSAccValue) (o : Option ToSAccValue) → o ≢ some v → is_last v o ≡ false
unfolding is_last
is_last-false v none h = refl
is_last-false v (some u) h = elim (bytes_discrete u v) [
  | yes e ↦ absurd (h (rw e))
  | no ne ↦ ground arith
]

module _ (x : Platform) (w : WalletState x) where
  -- The value is the last of the history afterwards, whether or not it was added.
  pub last-record :
      (v : ToSAccValue) → last? (record_nullifier_accum x w v).nullifier_accum_history ≡ some v
  unfolding record_nullifier_accum
  last-record v = elim (Bool-cases (is_last v (last? w.nullifier_accum_history))) [
    | inl old ↦ rw old (is_last-true v _ old)
    | inr new ↦ rw new (last?-append w.nullifier_accum_history v)
  ]

  pub record_new :
      (v : ToSAccValue)
      → last? w.nullifier_accum_history ≢ some v
      → record_nullifier_accum x w v
        ≡ record w { nullifier_accum_history = w.nullifier_accum_history ++ v ∷ [] }
  unfolding record_nullifier_accum
  record_new v h = rw (is_last-false v _ h)

  pub trim_lem :
      (n : ℕ)
      → n < length w.nullifier_accum_history
      → trim_nullifier_history x w n
        ≡ record w { nullifier_accum_history = drop n w.nullifier_accum_history }
  unfolding trim_nullifier_history
  trim_lem n h = ground arith

-- What holds of every value of the history still does when it is extended, or cut.
module _ (x : Platform) (P : ToSAccValue → Type 0) where
  pub record_nullifier_accum-All :
      (w : WalletState x) (v : ToSAccValue)
      → P v
      → All P w.nullifier_accum_history
      → All P (record_nullifier_accum x w v).nullifier_accum_history
  unfolding record_nullifier_accum
  record_nullifier_accum-All w v hv h =
      elim (Bool-cases (is_last v (last? w.nullifier_accum_history))) [
        | inl known ↦ rw known h
        | inr new ↦ rw new (All-snoc P w.nullifier_accum_history v h hv)
      ]

  pub trim-All :
      (w : WalletState x) (n : ℕ)
      → All P w.nullifier_accum_history
      → All P (trim_nullifier_history x w n).nullifier_accum_history
  unfolding trim_nullifier_history
  trim-All w n h = elim (Bool-cases (ltb n (length w.nullifier_accum_history))) [
    | inl short ↦ rw short (All-drop P n w.nullifier_accum_history h)
    | inr long ↦ rw long h
  ]
