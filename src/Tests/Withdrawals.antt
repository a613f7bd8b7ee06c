-- ===== src/Tests/Withdrawals.antt =====
-- Runs of the withdrawal handler.
use partymixrust.Prelude.{ℕ, ◌+◌, ◌≡◌, refl, true, inl, [], ◌∷◌, arith, ok, Bytes, bytes_discrete}
use partymixrust.Prelude.HashMap
use partymixrust.ShieldedCsv.Primitives.{zero_bytes}
use partymixrust.Types.{default_config, available, WithdrawalDelivery}
use partymixrust.Wallet.{WalletState, new_wallet, find_primary, primary_pool_account}
use partymixrust.Wallet.Ledger.{IsLedger, accounts, assign}
use partymixrust.Crypto.Pcd.{mock_pcd_prefix}
use partymixrust.Communication.{WithdrawalRequestPayload}
use partymixrust.Node.{MixerNode}
use partymixrust.Node.Blocks.{Acceptable}
use partymixrust.Pool.{new_pool, primary_account}
use partymixrust.Pool.Solvency.{owed, held}
use partymixrust.Withdrawal.{
  WithdrawalHandler, new_withdrawal_handler, queue_withdrawal, mock_coin, process_single_withdrawal,
  process_all, process_batched_withdrawals,
}
use partymixrust.Withdrawal.Queue.{queued_request, queue_withdrawal-covered}
use partymixrust.Withdrawal.Process.{delivered-refused}
use partymixrust.Withdrawal.Batch.{BatchOutcome, process_batched_withdrawals-BatchOutcome}
use partymixrust.Tests.Data.{tiny, pcd, acct, opening, node, user, primary, wallet, withdrawal}

abbrev pub handler : WithdrawalHandler
handler =
    new_withdrawal_handler
      (new_pool (record default_config { allow_batched_withdrawals = true; max_batch_size = 2 }))

abbrev pub request : ℕ → WithdrawalRequestPayload tiny
request n = record {
  session_id = 1;
  amount = n;
  destination_address = zero_bytes 32;
  destination_opening_rand = [];
}

pub wallet-IsLedger : IsLedger tiny 40 wallet
unfolding HashMap.get
wallet-IsLedger = record { sound = λ u. ground arith }

-- The service fee is 1000.
abbrev pub rich : WalletState tiny
rich = record wallet {
  liabilities = (user, record { user_id_hash = user; credited = 5000; withdrawn = 100 }) ∷ [];
}

pub rich-IsLedger : IsLedger tiny 5000 rich
unfolding HashMap.get
rich-IsLedger = record { sound = λ u. ground arith }

queue_withdrawal-covered_example :
    let (w', r) = queue_withdrawal tiny handler rich user (request 3000) 8 tt in
    (r ≡ ok (queued_request tiny handler rich user (request 3000) 8 tt))
    × (accounts tiny w' ≡ assign user 900 (accounts tiny rich))
    × (owed tiny w' + 4000 ≡ owed tiny rich)
    × (held tiny w' ≡ held tiny rich)
    × IsLedger tiny 5000 w'
unfolding HashMap.get available bytes_discrete
queue_withdrawal-covered_example =
    queue_withdrawal-covered tiny handler rich user (request 3000) 8 tt 5000 4900 rich-IsLedger
      (omega arith) refl (omega arith)

abbrev delivery : ℕ → ℕ → Bytes → WithdrawalDelivery tiny
delivery id n draw =
    let c = mock_coin tiny pcd node (withdrawal id n) primary draw in
    record { request_id = id; coin = c; coin_proof = mock_pcd_prefix; tx_hash = c.tx_hash }

single :
    (id n : ℕ) (draw : Bytes)
    → process_single_withdrawal tiny pcd handler node wallet (withdrawal id n) draw
      ≡ ok (delivery id n draw)
unfolding process_single_withdrawal primary_account primary_pool_account find_primary
single id n draw = refl

process_batched_withdrawals-BatchOutcome_example :
    BatchOutcome tiny pcd handler node wallet
      (λ i. [])
      handler.pool.config
      (withdrawal 4 25 ∷ withdrawal 5 6 ∷ [])
      (ok (delivery 4 25 [] ∷ delivery 5 6 [] ∷ []))
unfolding process_batched_withdrawals process_all process_single_withdrawal primary_account
    primary_pool_account find_primary
process_batched_withdrawals-BatchOutcome_example =
    process_batched_withdrawals-BatchOutcome tiny pcd handler node wallet (λ i. [])
      (withdrawal 4 25 ∷ withdrawal 5 6 ∷ []) handler.pool.config

-- The recipient holds the first of the two deliveries.
abbrev recipient : MixerNode tiny pcd
recipient = record node {
  wallet = record (new_wallet tiny) {
    unspent_coins = record { coin = (delivery 4 25 []).coin; proof = []; pool_account_id = 0 } ∷ [];
  };
}

delivered-refused_example :
    ¬ Acceptable tiny pcd recipient (delivery 5 6 []).coin mock_pcd_prefix acct opening
delivered-refused_example =
    delivered-refused tiny pcd handler node wallet (withdrawal 4 25) (withdrawal 5 6) [] []
      (delivery 4 25 []) (delivery 5 6 []) (single 4 25 []) (single 5 6 []) recipient
      mock_pcd_prefix acct opening (inl refl)
