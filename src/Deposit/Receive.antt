-- ===== src/Deposit/Receive.antt =====
-- `receive_deposit` of deposit_handler.rs.
use mathlib.Core.List.{append_assoc}
use partymixrust.Prelude.{
  ℕ, ◌+◌, ◌≤◌, ◌≡◌, refl, ap, ◌∙◌, inl, inr, [], ◌∷◌, ◌++◌, Bytes, Result-cases, ok, err, ◌⊎◌,
}
use partymixrust.Prelude.Words.{u64_max}
use partymixrust.ShieldedCsv.Platform.{Platform}
use partymixrust.Types.{DepositReceipt, PoolCoin, pending_consolidation}
use partymixrust.Wallet.{WalletState, credit_user, add_unspent_coin}
use partymixrust.Wallet.Ledger.{
  IsLedger, accounts, credited, credit_user-IsLedger, accounts-credit_user,
}
use partymixrust.Crypto.Pcd.{PcdBackend}
use partymixrust.Communication.{DepositPayload}
use partymixrust.Node.{MixerNode, accept_payment}
use partymixrust.Node.Blocks.{Acceptable, accept_payment_iff}
use partymixrust.Pool.Solvency.{
  owed, held, owed-credit_user, held-credit_user, held-add_unspent_coin,
}
use partymixrust.Deposit.{DepositHandler, payment_rejected, credit_payment, receive_deposit}

module _ (x : Platform) (b : PcdBackend x) (self : DepositHandler) (node : MixerNode x b)
    (user : Bytes) (payload : DepositPayload x) where
  -- The node accepts the payload's coin at the handler's address.
  abbrev pub IsAcceptable : Type 0
  IsAcceptable =
      Acceptable x b node payload.coin payload.coin_proof self.mixer_acct_id self.mixer_address_rand

  abbrev pub amount : ℕ
  amount = payload.coin.essence.amount

  -- The coin as the wallet holds it before it is consolidated.
  abbrev pub held_coin : PoolCoin x
  held_coin = record {
    coin = payload.coin;
    proof = payload.coin_proof;
    pool_account_id = x.nil_uuid;
  }

  abbrev pub receipt : x.Uuid → DepositReceipt x
  receipt id = record { deposit_id = id; credited_amount = amount; status = pending_consolidation }

  module _ (wallet : WalletState x) (id : x.Uuid) (now : x.DateTime) where
    receive_deposit-accepted :
        IsAcceptable
        → receive_deposit x b self node wallet user payload id now
          ≡ (add_unspent_coin x (credit_user x wallet user amount) held_coin, ok (receipt id))
    unfolding receive_deposit
    receive_deposit-accepted a = ap (credit_payment x b wallet user payload id now) (
        (accept_payment_iff x b node payload.coin payload.coin_proof self.mixer_acct_id
            self.mixer_address_rand amount).1
          (a, refl))

    -- A deposit is rejected and changes nothing, or it is acceptable.
    pub receive_deposit-cases :
        (receive_deposit x b self node wallet user payload id now ≡ (wallet, err payment_rejected))
        ⊎ IsAcceptable
    unfolding receive_deposit
    receive_deposit-cases =
        elim (Result-cases (
          accept_payment x b node payload.coin payload.coin_proof self.mixer_acct_id
            self.mixer_address_rand)) [
              | inl (e, h) ↦ inl (ap (credit_payment x b wallet user payload id now) h)
              | inr (n, h) ↦
                  inr
                    ((accept_payment_iff x b node payload.coin payload.coin_proof self.mixer_acct_id
                        self.mixer_address_rand n).0
                      h).0
            ]

    -- A deposit that the node does not find acceptable is answered PaymentRejected and changes
    -- nothing.
    pub receive_deposit-rejected :
        ¬ IsAcceptable
        → receive_deposit x b self node wallet user payload id now ≡ (wallet, err payment_rejected)
    receive_deposit-rejected na = elim receive_deposit-cases [
      | inl rejected ↦ rejected
      | inr acceptable ↦ absurd (na acceptable)
    ]

    -- On a sound wallet, an acceptable deposit that keeps the credited sum within u64 is answered
    -- with its receipt, the user's balance, what the mixer owes and what it holds each grow by
    -- the coin's amount, and the wallet is sound still.
    pub receive_deposit_credits :
        (bound : ℕ)
        → IsLedger x bound wallet
        → bound + amount ≤ u64_max
        → IsAcceptable
        → let (wallet', r) = receive_deposit x b self node wallet user payload id now in
          (r ≡ ok (receipt id))
          × (accounts x wallet' ≡ credited user amount (accounts x wallet))
          × (owed x wallet' ≡ owed x wallet + amount)
          × (held x wallet' ≡ held x wallet + amount)
          × IsLedger x (bound + amount) wallet'
    unfolding add_unspent_coin
    receive_deposit_credits bound h fits a =
        let w' = credit_user x wallet user amount in
        rw (receive_deposit-accepted a) (
          refl,
          accounts-credit_user x bound wallet user amount h fits,
          owed-credit_user x bound wallet user amount h fits,
          held-add_unspent_coin x w' held_coin
              ∙ ap (λ n. n + amount) (held-credit_user x wallet user amount),
          record { sound = (credit_user-IsLedger x bound wallet user amount h fits).sound },
        )

  -- While the node finds a deposit acceptable, receiving it twice into a wallet that is not the
  -- node's own answers both with a receipt and puts the same coin into the wallet twice.
  pub receive_deposit_twice :
      (wallet : WalletState x) (id id' : x.Uuid) (now now' : x.DateTime)
      → IsAcceptable
      → let (once, r) = receive_deposit x b self node wallet user payload id now in
        let (twice, r') = receive_deposit x b self node once user payload id' now' in
        (r ≡ ok (receipt id))
        × (r' ≡ ok (receipt id'))
        × (twice.unspent_coins ≡ wallet.unspent_coins ++ held_coin ∷ held_coin ∷ [])
  unfolding add_unspent_coin credit_user
  receive_deposit_twice wallet id id' now now' a =
      let e = receive_deposit-accepted wallet id now a in
      let once = (receive_deposit x b self node wallet user payload id now).0 in
      let e' = receive_deposit-accepted once id' now' a in
      (
        ap (λ r. r.1) e,
        ap (λ r. r.1) e',
        ap (λ r. r.0.unspent_coins) e'
            ∙ ap (λ r. r.0.unspent_coins ++ held_coin ∷ []) e
            ∙ append_assoc wallet.unspent_coins (held_coin ∷ []) (held_coin ∷ []),
      )
