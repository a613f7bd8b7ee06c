-- ===== src/Withdrawal/Process.antt =====
-- `process_single_withdrawal` of withdrawal_handler.rs.
use partymixrust.Prelude.{
  ◌≡◌, ap, sym, subst, ◌∙◌, [], ◌∷◌, arith, map, Bytes, Result, ok, err, Member,
}
use partymixrust.ShieldedCsv.Data.{Coin}
use partymixrust.ShieldedCsv.Platform.{Platform}
use partymixrust.ShieldedCsv.Payment.{on_chain_id}
use partymixrust.Types.{MixerWithdrawalRequest, WithdrawalDelivery, PoolAccount, PoolCoin}
use partymixrust.Wallet.{WalletState}
use partymixrust.Crypto.Pcd.{PcdBackend, PcdError}
use partymixrust.Node.{MixerNode, current_nav}
use partymixrust.Node.Blocks.{Acceptable}
use partymixrust.Pool.{PoolError, primary_account}
use partymixrust.Withdrawal.{
  WithdrawalHandler, output_coin, mock_coin, deliver, prove_withdrawal, process_single_withdrawal,
}

module _ (x : Platform) (b : PcdBackend x) (self : WithdrawalHandler) (node : MixerNode x b)
    (wallet : WalletState x) where
  -- The delivery answers the request: one coin with its amount, at its address, bound to the
  -- current accumulator value.
  pub record Answers (r : MixerWithdrawalRequest x) (d : WithdrawalDelivery x) : Type 0 where
    pub request : d.request_id ≡ r.id
    pub essence : d.coin.essence ≡ output_coin x r
    pub nav : d.coin.nullifier_accum ≡ current_nav x b node
    pub hash : d.tx_hash ≡ d.coin.tx_hash
    pub on_chain : on_chain_id d.coin ≡ 0 ∷ 0 ∷ 0 ∷ 0 ∷ 0 ∷ 0 ∷ 0 ∷ 1 ∷ []

  deliver-ok :
      (r : MixerWithdrawalRequest x) (c : Coin) (p : Result PcdError Bytes)
      (d : WithdrawalDelivery x)
      → deliver x b r c p ≡ ok d
      → (d.request_id ≡ r.id) × (d.coin ≡ c) × (d.tx_hash ≡ c.tx_hash)
  deliver-ok r c (err e) d h = absurd (ground arith)
  deliver-ok r c (ok proof) d h = ground arith

  prove_withdrawal-Answers :
      (r : MixerWithdrawalRequest x) (rand : Bytes) (a : Result PoolError (PoolAccount x))
      (d : WithdrawalDelivery x)
      → prove_withdrawal x b self node r rand a ≡ ok d
      → Answers r d
  unfolding mock_coin current_nav on_chain_id
  prove_withdrawal-Answers r rand (err e) d h = absurd (ground arith)
  prove_withdrawal-Answers r rand (ok a) d h =
      let (request, c, hash) = deliver-ok r (mock_coin x b node r a rand) _ d h in
      record {
        request = request;
        essence = ap (λ k. k.essence) c;
        nav = ap (λ k. k.nullifier_accum) c;
        hash = hash ∙ sym (ap (λ k. k.tx_hash) c);
        on_chain = ap on_chain_id c;
      }

  -- A withdrawal that succeeds delivers one coin of the request's amount at its destination, with
  -- index 1 and the node's current accumulator value; the delivery names the request and the
  -- coin's transaction, and the coin's on-chain identifier is seven zero bytes and a one.
  pub process_single_withdrawal-Answers :
      (r : MixerWithdrawalRequest x) (rand : Bytes) (d : WithdrawalDelivery x)
      → process_single_withdrawal x b self node wallet r rand ≡ ok d
      → Answers r d
  unfolding process_single_withdrawal
  process_single_withdrawal-Answers r rand d h =
      prove_withdrawal-Answers r rand (primary_account x wallet) d h

  -- When two withdrawals have been processed, a node whose wallet holds a coin with the on-chain
  -- identifier of the first delivery finds the coin of the second not acceptable, whatever the
  -- proof and the opening.
  pub delivered-refused :
      (r r' : MixerWithdrawalRequest x) (draw draw' : Bytes) (d d' : WithdrawalDelivery x)
      → process_single_withdrawal x b self node wallet r draw ≡ ok d
      → process_single_withdrawal x b self node wallet r' draw' ≡ ok d'
      → (recipient : MixerNode x b) (proof acct opening : Bytes)
      → Member
          (on_chain_id d.coin)
          (map (λ (u : PoolCoin x). on_chain_id u.coin) recipient.wallet.unspent_coins)
      → ¬ Acceptable x b recipient d'.coin proof acct opening
  delivered-refused r r' draw draw' d d' h h' recipient proof acct opening known a =
      let one = process_single_withdrawal-Answers r draw d h in
      let other = process_single_withdrawal-Answers r' draw' d' h' in
      a.unseen (
        subst
          (λ id.
            Member id (map (λ (u : PoolCoin x). on_chain_id u.coin) recipient.wallet.unspent_coins))
          (one.on_chain ∙ sym other.on_chain) known)
