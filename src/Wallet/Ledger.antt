-- ===== src/Wallet/Ledger.antt =====
-- The liabilities of wallet_state.rs as accounts: `credit_user` and `debit_user` against balances
-- that are plain numbers.
use mathlib.Core.Logic.{ite}
use partymixrust.Prelude.{
  ℕ, ◌+◌, ◌-◌, ◌≤◌, ◌≡◌, refl, ap, ◌∙◌, subst, fun_ext, Bool, true, false, Bool-cases, Option-cases,
  inl, inr, Option, none, some, arith, Bytes, bytes_discrete, ltb, le→ltb-false, if◌then◌else◌,
}
use partymixrust.Prelude.Words.{u64_max, saturating_add}
use partymixrust.Prelude.HashMap
use partymixrust.Prelude.HashMap.{HashMap, get-insert}
use partymixrust.ShieldedCsv.Platform.{Platform}
use partymixrust.Types.{LiabilityEntry, available}
use partymixrust.Wallet.{WalletState, credit_user, debit_user}

-- Each account's balance; `none` is a user without an account.
abbrev pub Accounts : Type 0
Accounts = Bytes → Option ℕ

abbrev pub or_zero : Option ℕ → ℕ
or_zero none = 0
or_zero (some n) = n

abbrev pub assign : Bytes → ℕ → Accounts → Accounts
assign u n f v = ite (bytes_discrete u v) (some n) (f v)

-- The contract of `credit_user`.
abbrev pub credited : Bytes → ℕ → Accounts → Accounts
credited u amount f = assign u (or_zero (f u) + amount) f

abbrev pub pay : Bytes → ℕ → Accounts → Option ℕ → Accounts × Bool
pay u amount f none = (f, false)
pay u amount f (some n) = if ltb n amount then (f, false) else (assign u (n - amount) f, true)

-- The contract of `debit_user`.
abbrev pub debited : Bytes → ℕ → Accounts → Accounts × Bool
debited u amount f = pay u amount f (f u)

pay_refused :
    (u : Bytes) (amount : ℕ) (f : Accounts) (o : Option ℕ)
    → (pay u amount f o).1 ≡ false
    → pay u amount f o ≡ (f, false)
pay_refused u amount f none h = refl
pay_refused u amount f (some n) h = elim (Bool-cases (ltb n amount)) [
  | inl short ↦ rw short
  | inr enough ↦ absurd (
      cc (
        subst
          (λ (b : Bool).
            (let r : Accounts × Bool = if b then (f, false) else (assign u (n - amount) f, true) in
              r.1)
            ≡ false)
          enough h))
]

pub debited_paid :
    (u : Bytes) (amount n : ℕ) (f : Accounts)
    → f u ≡ some n
    → amount ≤ n
    → debited u amount f ≡ (assign u (n - amount) f, true)
debited_paid u amount n f found enough =
    ap (pay u amount f) found ∙ rw (le→ltb-false n amount enough)

module _ (x : Platform) where
  abbrev pub entry : WalletState x → Bytes → Option LiabilityEntry
  entry w u = HashMap.get bytes_discrete u w.liabilities

  abbrev pub balance : Option LiabilityEntry → Option ℕ
  balance none = none
  balance (some e) = some (available e)

  -- The accounts that a wallet's liabilities stand for.
  abbrev pub accounts : WalletState x → Accounts
  accounts w u = balance (entry w u)

  abbrev pub IsSound : ℕ → Option LiabilityEntry → Type 0
  IsSound bound none = Unit
  IsSound bound (some e) = (e.withdrawn ≤ e.credited) × (e.credited ≤ bound)

  -- Nobody has withdrawn more than was credited, and nobody was credited more than `bound`.
  pub record IsLedger (bound : ℕ) (w : WalletState x) : Type 0 where
    pub sound : (u : Bytes) → IsSound bound (entry w u)

  IsSound-mono :
      (bound bound' : ℕ) (o : Option LiabilityEntry)
      → bound ≤ bound'
      → IsSound bound o
      → IsSound bound' o
  IsSound-mono bound bound' none le s = tt
  IsSound-mono bound bound' (some e) le s = (s.0, omega (arith, s.1))

  pub IsLedger-mono :
      (bound bound' : ℕ) (w : WalletState x) → bound ≤ bound' → IsLedger bound w → IsLedger bound' w
  IsLedger-mono bound bound' w le h = record {
    sound = λ u. IsSound-mono bound bound' (entry w u) le (h.sound u);
  }

  module _ (bound : ℕ) (w : WalletState x) (u : Bytes) (amount : ℕ) (h : IsLedger bound w) where
    pub credit_user-IsLedger :
        bound + amount ≤ u64_max → IsLedger (bound + amount) (credit_user x w u amount)
    unfolding credit_user
    credit_user-IsLedger fits = record {
      sound = λ v. rw get-insert (ground (arith, h.sound u, h.sound v));
    }

    pub accounts-credit_user :
        bound + amount ≤ u64_max
        → accounts (credit_user x w u amount) ≡ credited u amount (accounts w)
    unfolding credit_user available
    accounts-credit_user fits = fun_ext λ v. rw get-insert (ground (arith, h.sound u, h.sound v))

  -- A debit that is refused changes nothing.
  pub debit_user_refused :
      (w : WalletState x) (u : Bytes) (amount : ℕ)
      → (debited u amount (accounts w)).1 ≡ false
      → debit_user x w u amount ≡ (w, false)
  unfolding debit_user
  debit_user_refused w u amount h = elim (Option-cases (entry w u)) [
    | inl absent ↦ rw (absent, debit_user)
    | inr (e, found) ↦ ground arith
  ]

  -- The wallet after a debit that goes through.
  abbrev pub paid_out : WalletState x → Bytes → LiabilityEntry → ℕ → WalletState x
  paid_out w u e amount = record w {
    liabilities =
        HashMap.insert bytes_discrete u (record e { withdrawn = saturating_add e.withdrawn amount })
          w.liabilities;
  }

  pub debit_user_paid :
      (w : WalletState x) (u : Bytes) (amount : ℕ) (e : LiabilityEntry)
      → entry w u ≡ some e
      → amount ≤ available e
      → debit_user x w u amount ≡ (paid_out w u e amount, true)
  unfolding debit_user
  debit_user_paid w u amount e found covered = ground arith

  module _ (bound : ℕ) (w : WalletState x) (u : Bytes) (amount : ℕ) (h : IsLedger bound w)
      (fits : bound ≤ u64_max) where
    module _ (e : LiabilityEntry) (found : entry w u ≡ some e)
        (covered : amount ≤ available e) where
      paid_out-IsLedger : IsLedger bound (paid_out w u e amount)
      unfolding available
      paid_out-IsLedger = record {
        sound = λ v. rw get-insert (ground (arith, h.sound u, h.sound v));
      }

      accounts-paid_out :
          accounts (paid_out w u e amount) ≡ assign u (available e - amount) (accounts w)
      unfolding available
      accounts-paid_out = fun_ext λ v. rw get-insert (ground (arith, h.sound u, h.sound v))

    pub debit_user-IsLedger : IsLedger bound (debit_user x w u amount).0
    debit_user-IsLedger = elim (Bool-cases (debited u amount (accounts w)).1) [
      | inr refused ↦ rw (debit_user_refused w u amount refused) h
      | inl done ↦ elim (Option-cases (entry w u)) [
        | inl absent ↦ absurd (ground arith)
        | inr (e, found) ↦
            let covered : amount ≤ available e = ground arith in
            rw (debit_user_paid w u amount e found covered) (paid_out-IsLedger e found covered)
      ]
    ]

    pub accounts-debit_user :
        (accounts (debit_user x w u amount).0 ≡ (debited u amount (accounts w)).0)
        × ((debit_user x w u amount).1 ≡ (debited u amount (accounts w)).1)
    accounts-debit_user = elim (Bool-cases (debited u amount (accounts w)).1) [
      | inr refused ↦
          rw (debit_user_refused w u amount refused)
            (rw (pay_refused u amount (accounts w) (accounts w u) refused) (refl, refl))
      | inl done ↦ elim (Option-cases (entry w u)) [
        | inl absent ↦ absurd (ground arith)
        | inr (e, found) ↦
            let covered : amount ≤ available e = ground arith in
            rw (debit_user_paid w u amount e found covered) (
              rw (debited_paid u amount (available e) (accounts w) (ap balance found) covered)
                (accounts-paid_out e found covered, refl))
      ]
    ]
