-- ===== src/Withdrawal/Queue.antt =====
-- `queue_withdrawal` of withdrawal_handler.rs.
use partymixrust.Prelude.{
  ℕ, ◌+◌, ◌-◌, ◌≤◌, ◌<◌, ◌≡◌, refl, ap, ◌∙◌, true, false, Option, none, some, arith, Bytes, ok, err,
  Bool-cases, inl, inr, ◌⊎◌,
}
use partymixrust.Prelude.Words.{u64_max, saturating_add}
use partymixrust.ShieldedCsv.Platform.{Platform}
use partymixrust.Types.{MixerWithdrawalRequest, queued, LiabilityEntry, available}
use partymixrust.Wallet.{WalletState, debit_user}
use partymixrust.Wallet.Ledger.{
  Accounts, IsLedger, IsSound, entry, balance, accounts, assign, or_zero, pay, debited_paid,
  accounts-debit_user, debit_user-IsLedger, debit_user_refused, debited,
}
use partymixrust.Communication.{WithdrawalRequestPayload}
use partymixrust.Pool.{insufficient_liquidity, available_or_zero, reserve_withdrawal}
use partymixrust.Pool.Solvency.{owed, held, owed-debit_user, held-debit_user}
use partymixrust.Withdrawal.{WithdrawalHandler, WithdrawalError, pool_error, queue_withdrawal}

balance-le :
    (x : Platform) (bound n : ℕ) (o : Option LiabilityEntry)
    → IsSound x bound o
    → balance x o ≡ some n
    → n ≤ bound
unfolding available
balance-le x bound n none s e = absurd (ground arith)
balance-le x bound n (some l) s e = ground arith

pub available-or_zero :
    (x : Platform) (o : Option LiabilityEntry) → available_or_zero o ≡ or_zero (balance x o)
available-or_zero x none = refl
available-or_zero x (some l) = refl

pay_short :
    (u : Bytes) (amount : ℕ) (f : Accounts) (o : Option ℕ)
    → or_zero o < amount
    → (pay u amount f o).1 ≡ false
pay_short u amount f none h = refl
pay_short u amount f (some n) h = ground arith

module _ (x : Platform) (self : WithdrawalHandler) (w : WalletState x) (user : Bytes)
    (request : WithdrawalRequestPayload x) (id : x.Uuid) (now : x.DateTime) where
  abbrev pub fee : ℕ
  fee = self.pool.config.withdrawal_service_fee

  abbrev pub queued_request : MixerWithdrawalRequest x
  queued_request = record {
    id = id;
    user_id_hash = user;
    amount = request.amount;
    destination_address = request.destination_address;
    service_fee = fee;
    requested_at = now;
    status = queued;
  }

  -- The debit goes through.
  pub queue_debited :
      (needed : ℕ)
      → saturating_add request.amount fee ≡ needed
      → (debit_user x w user needed).1 ≡ true
      → queue_withdrawal x self w user request id now
        ≡ ((debit_user x w user needed).0, ok queued_request)
  unfolding queue_withdrawal reserve_withdrawal
  queue_debited needed e done = ground arith

  pub queue_refused :
      (needed : ℕ)
      → saturating_add request.amount fee ≡ needed
      → debit_user x w user needed ≡ (w, false)
      → queue_withdrawal x self w user request id now
        ≡ (w, err (pool_error (insufficient_liquidity needed (available_or_zero (entry x w user)))))
  unfolding queue_withdrawal reserve_withdrawal
  queue_refused needed e refused = ground arith

  -- On a sound wallet, a withdrawal whose amount and service fee the user's balance covers is
  -- queued; the user's balance and what the mixer owes fall by both, what it holds stays, and the
  -- wallet is sound still.
  pub queue_withdrawal-covered :
      (bound n : ℕ)
      → IsLedger x bound w
      → bound ≤ u64_max
      → accounts x w user ≡ some n
      → request.amount + fee ≤ n
      → let (w', r) = queue_withdrawal x self w user request id now in
        (r ≡ ok queued_request)
        × (accounts x w' ≡ assign user (n - (request.amount + fee)) (accounts x w))
        × (owed x w' + (request.amount + fee) ≡ owed x w)
        × (held x w' ≡ held x w)
        × IsLedger x bound w'
  queue_withdrawal-covered bound n h fits found covered =
      let needed = request.amount + fee in
      let small : n ≤ u64_max =
        omega (arith, balance-le x bound n (entry x w user) (h.sound user) found) in
      let e : saturating_add request.amount fee ≡ needed = ground arith in
      let paid = debited_paid user needed n (accounts x w) found covered in
      let (same_accounts, answer) = accounts-debit_user x bound w user needed h fits in
      let done : (debit_user x w user needed).1 ≡ true = answer ∙ ap (λ r. r.1) paid in
      rw (queue_debited needed e done) (
        refl,
        same_accounts ∙ ap (λ r. r.0) paid,
        owed-debit_user x bound w user needed h fits done,
        held-debit_user x w user needed,
        record { sound = (debit_user-IsLedger x bound w user needed h fits).sound },
      )

  -- A withdrawal whose saturated sum of amount and fee exceeds the user's balance, an unknown
  -- user having zero, changes nothing and answers with what was needed and what was available.
  pub queue_withdrawal-refused :
      or_zero (accounts x w user) < saturating_add request.amount fee
      → queue_withdrawal x self w user request id now ≡ (
        w,
        err (
            pool_error (
              insufficient_liquidity
                (saturating_add request.amount fee)
                (or_zero (accounts x w user)))),
      )
  queue_withdrawal-refused short =
      let needed = saturating_add request.amount fee in
      let none_paid = pay_short user needed (accounts x w) (accounts x w user) short in
      queue_refused needed refl (debit_user_refused x w user needed none_paid)
      ∙ ap (λ n. (w, err (pool_error (insufficient_liquidity needed n))))
          (available-or_zero x (entry x w user))

  -- A balance that pays is there, and covers what is paid.
  paid_balance :
      (needed : ℕ) (o : Option ℕ)
      → (pay user needed (accounts x w) o).1 ≡ true
      → (n : ℕ) × (o ≡ some n) × (needed ≤ n)
  paid_balance needed none h = cc
  paid_balance needed (some n) h = (n, refl, ground arith)

  -- Below the top of `u64`, a withdrawal is refused and changes nothing, or the balance covers the
  -- amount and the fee.
  pub queue_withdrawal-cases :
      (bound : ℕ)
      → IsLedger x bound w
      → bound < u64_max
      → ((e : WithdrawalError) × (queue_withdrawal x self w user request id now ≡ (w, err e)))
        ⊎ ((n : ℕ) × (accounts x w user ≡ some n) × (request.amount + fee ≤ n))
  queue_withdrawal-cases bound h fits =
      let needed = saturating_add request.amount fee in
      elim (Bool-cases (debited user needed (accounts x w)).1) [
        | inr refused ↦
            inl (_, queue_refused needed refl (debit_user_refused x w user needed refused))
        | inl paid ↦
            let (n, found, covers) = paid_balance needed (accounts x w user) paid in
            let small = balance-le x bound n (entry x w user) (h.sound user) found in
            inr (n, found, ground arith)
      ]

  -- On a sound wallet, where a user's balance is the greatest u64 and the amount and the fee of a
  -- withdrawal exceed it together, the withdrawal is queued with both, while only the greatest
  -- u64 is debited and the balance is then zero.
  pub queue_withdrawal-saturated :
      (bound : ℕ)
      → IsLedger x bound w
      → bound ≤ u64_max
      → accounts x w user ≡ some u64_max
      → u64_max < request.amount + fee
      → let (w', r) = queue_withdrawal x self w user request id now in
        (r ≡ ok queued_request)
        × (accounts x w' ≡ assign user 0 (accounts x w))
        × (owed x w' + u64_max ≡ owed x w)
        × (u64_max < queued_request.amount + queued_request.service_fee)
  queue_withdrawal-saturated bound h fits full large =
      let e : saturating_add request.amount fee ≡ u64_max = ground arith in
      let paid = debited_paid user u64_max u64_max (accounts x w) full (omega arith) in
      let (same_accounts, answer) = accounts-debit_user x bound w user u64_max h fits in
      let done : (debit_user x w user u64_max).1 ≡ true = answer ∙ ap (λ r. r.1) paid in
      rw (queue_debited u64_max e done) (
        refl,
        same_accounts ∙ ap (λ r. r.0) paid,
        owed-debit_user x bound w user u64_max h fits done,
        large,
      )
