-- ===== src/Tests/Books.antt =====
-- Runs of the wallet, the pool and the publisher.
use partymixrust.Prelude.{
  ℕ, ℕ_discrete, ◌≤◌, ◌≡◌, refl, true, false, List, [], ◌∷◌, arith, bytes_discrete,
}
use partymixrust.Prelude.HashMap
use partymixrust.Prelude.HashMap.{values}
use partymixrust.ShieldedCsv.Primitives.{zero_bytes, stubs}
use partymixrust.Types.{default_config, available}
use partymixrust.Wallet.{
  update_pool_account, new_wallet, credit_user, debit_user, primary_pool_account,
}
use partymixrust.Wallet.Ledger.{IsLedger, accounts}
use partymixrust.Wallet.Trace.{
  LedgerCall, credit, debit, credits, run, spec_run, Refines, run-Refines,
}
use partymixrust.Pool.{clear_primary, create_pool_account}
use partymixrust.Pool.Primary.{primary_count}
use partymixrust.Publisher.Rounds.{submit_all, paying}
use partymixrust.Publisher.Earnings.{clear_pending-FeeCoins}
use partymixrust.Prelude.{◌*◌, All}
use partymixrust.Prelude.Words.{total}
use partymixrust.ShieldedCsv.Data.{Coin}
use partymixrust.ShieldedCsv.Payment.{
  located, fee_idx, payment_finalize_fee, payment_finalize_internal,
}
use partymixrust.Pool.Accounts.{AccountCall, create_all, latest, create_all-primary}
use partymixrust.Publisher.{
  submit_nullifier, clear_pending, pending_count, PendingNullifier, Publisher, new_publisher,
}
use partymixrust.Crypto.Nisshac.{NisshacBackend}
use partymixrust.Tests.Data.{finalization, partial, tiny, signer, user, wallet, made_fee}

-- The last debit is refused.
abbrev calls : List LedgerCall
calls = credit user 50 ∷ debit user 20 ∷ credit (6 ∷ []) 7 ∷ debit user 31 ∷ []

new_wallet-IsLedger : IsLedger tiny 0 (new_wallet tiny)
unfolding HashMap.get
new_wallet-IsLedger = record { sound = λ u. tt }

run-calls : (run tiny (new_wallet tiny) calls).1 ≡ true ∷ false ∷ []
unfolding run credit_user debit_user available HashMap.get HashMap.insert bytes_discrete
run-calls = refl

run-Refines_example :
    Refines tiny 57
      (run tiny (new_wallet tiny) calls)
      (spec_run (accounts tiny (new_wallet tiny)) calls)
unfolding credits
run-Refines_example = run-Refines tiny calls 0 (new_wallet tiny) new_wallet-IsLedger (omega arith)

abbrev pub backend : NisshacBackend tiny
backend = signer _

abbrev pub ready : Publisher tiny backend
ready = record {
  config = default_config;
  pending =
      record { nullifier_pk = 7; signature = []; fee_output = made_fee 500; fee_proof = [] } ∷ [];
  fee_address = zero_bytes 32;
}

-- A second primary account, one that is not, and a third primary one.
abbrev accounts_made : List (AccountCall tiny)
accounts_made =
    record { acct_id = 9; label = "second"; is_primary = true; id = 4 }
    ∷ record { acct_id = 8; label = "cold"; is_primary = false; id = 5 }
    ∷ record { acct_id = 7; label = "third"; is_primary = true; id = 6 }
    ∷ []

create_all-primary_example :
    (primary_pool_account tiny (create_all tiny wallet accounts_made)
      ≡ latest tiny wallet (primary_pool_account tiny wallet) accounts_made)
    × (primary_count (values (create_all tiny wallet accounts_made).pool_accounts) ≤ 1)
unfolding primary_count create_pool_account clear_primary update_pool_account HashMap.get
    HashMap.insert ℕ_discrete
create_all-primary_example =
    create_all-primary tiny wallet accounts_made (refl, (refl, (refl, tt))) (omega arith)

abbrev pending : ℕ → ℕ → PendingNullifier tiny backend
pending key fee = record {
  nullifier_pk = key;
  signature = [];
  fee_output = made_fee fee;
  fee_proof = [];
}

-- The second pays too little.
abbrev submitted : List (PendingNullifier tiny backend)
submitted = pending 7 500 ∷ pending 8 499 ∷ pending 9 800 ∷ []

abbrev fee_coin : ℕ → Coin
fee_coin fee =
    located tiny partial finalization
      (record { address = zero_bytes 32; amount = fee; idx = fee_idx })

clear_pending-FeeCoins_example :
    let self = new_publisher tiny backend default_config (zero_bytes 32) in
    let self' = submit_all tiny backend (clear_pending tiny backend self) submitted in
    (self'.pending ≡ pending 7 500 ∷ pending 9 800 ∷ [])
    × (2 ≡ pending_count tiny backend self')
    × (pending_count tiny backend self' * 500 ≤ 1300)
    × All (λ (c : Coin). c.essence.address ≡ zero_bytes 32) (fee_coin 500 ∷ fee_coin 800 ∷ [])
unfolding new_publisher paying total submit_all clear_pending submit_nullifier payment_finalize_fee
    payment_finalize_internal
clear_pending-FeeCoins_example =
    clear_pending-FeeCoins tiny (stubs tiny) backend
      (new_publisher tiny backend default_config (zero_bytes 32)) submitted
      (fee_coin 500 ∷ fee_coin 800 ∷ [])
      ((finalization, refl, refl), ((finalization, refl, refl), tt))
