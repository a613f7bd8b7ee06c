-- ===== src/Tests/Service.antt =====
-- Runs of the mixer as a whole.
use partymixrust.Prelude.{
  ◌<◌, ◌≤◌, ◌↔◌, ◌+◌, ◌≡◌, refl, inl, List, [], ◌∷◌, arith, Bytes, ok, bytes_discrete, false,
}
use partymixrust.Prelude.Words.{u64_max, total}
use partymixrust.Prelude.HashMap
use partymixrust.ShieldedCsv.Primitives.{hash, commit}
use partymixrust.Prelude.Digits.{to_le_bytes}
use partymixrust.ShieldedCsv.Payment.{on_chain_id}
use partymixrust.Types.{available}
use partymixrust.Wallet.{WalletState, find_primary, primary_pool_account}
use partymixrust.Wallet.Ledger.{IsLedger, accounts, assign}
use partymixrust.Crypto.Pcd.{mock_pcd_prefix, starts_with}
use partymixrust.Communication.{DepositPayload, WithdrawalRequestPayload}
use partymixrust.Node.{new_node, accept_payment, current_nav}
use partymixrust.Node.Forgery.{revalue}
use partymixrust.Pool.{check_solvency}
use partymixrust.Pool.Solvency.{owed}
use partymixrust.Deposit.Receive.{IsAcceptable}
use partymixrust.Withdrawal.{queue_withdrawal}
use partymixrust.Withdrawal.Queue.{queued_request, queue_withdrawal-saturated}
use partymixrust.Mixer.{
  MixerCall, deposit_call, withdraw_call, consolidate_call, account_call, serve_calls, offered,
}
use partymixrust.Mixer.Calls.{Balanced}
use partymixrust.Mixer.Books.{serve_calls-Balanced, check_solvency-serve_calls}
use partymixrust.Prelude.{ℕ}
use partymixrust.Wallet.Trace.{spec_run}
use partymixrust.Mixer.Accounts.{ledger_calls, serve_calls-accounts}
use partymixrust.Mixer.Isolation.{own_calls, serve_calls-own_calls}
use partymixrust.Mixer.Flow.{Ready}
use partymixrust.Tests.Data.{tiny, pcd, acct, opening, a_coin, node, user, primary, wallet}
use partymixrust.Tests.Deposits
use partymixrust.Tests.Deposits.{payload}
use partymixrust.Tests.Withdrawals
use partymixrust.Tests.Withdrawals.{request, wallet-IsLedger}

-- A deposit of 6000, whose proof is the mock's.
abbrev pub large : DepositPayload tiny
large = record (payload mock_pcd_prefix) { coin = revalue 6000 a_coin }

-- To the address of `acct`.
abbrev pub to_acct : WithdrawalRequestPayload tiny
to_acct = record (request 3000) { destination_address = commit tiny acct opening }

-- A deposit, one that is rejected, a withdrawal, one that is refused, a consolidation, and a new
-- account.
abbrev pub calls : List (MixerCall tiny pcd)
calls =
    deposit_call node user large 11 tt
    ∷ deposit_call node user (payload []) 12 tt
    ∷ withdraw_call user (request 3000) 13 tt
    ∷ withdraw_call user (request 3000) 14 tt
    ∷ consolidate_call node (on_chain_id a_coin)
    ∷ account_call 1 "second" false 21
    ∷ []

serve_calls-Balanced_example :
    let (w', t) = serve_calls tiny pcd Deposits.handler Withdrawals.handler wallet calls in
    IsLedger tiny 6080 w' × Balanced tiny 6040 wallet w' t
unfolding offered
serve_calls-Balanced_example =
    serve_calls-Balanced tiny pcd Deposits.handler Withdrawals.handler calls 40 wallet
      wallet-IsLedger (omega arith)

check_solvency-serve_calls_example :
    let (w', t) = serve_calls tiny pcd Deposits.handler Withdrawals.handler wallet calls in
    (check_solvency tiny w' ≡ ok tt) ↔ (40 + t.consolidated + t.replaced ≤ 40 + t.reserved)
unfolding offered available total
check_solvency-serve_calls_example =
    check_solvency-serve_calls tiny pcd Deposits.handler Withdrawals.handler calls 40 wallet
      wallet-IsLedger (omega arith) (omega arith) (omega arith)

large-IsAcceptable : IsAcceptable tiny pcd Deposits.handler node user large
unfolding new_node starts_with commit
large-IsAcceptable = record {
  addressed = refl;
  unseen = λ m. m;
  historic = inl refl;
  proved = refl;
}

pub wallet-Ready :
    Ready tiny Deposits.handler Withdrawals.handler node wallet user large to_acct 11 13 tt tt []
      node acct opening 40
unfolding new_node primary_pool_account find_primary current_nav
wallet-Ready = record {
  ledger = wallet-IsLedger;
  fits = omega arith;
  acceptable = large-IsAcceptable;
  account = primary;
  has_primary = refl;
  covered = omega arith;
  address = refl;
  known = inl refl;
  new = λ m. m;
}

pub run_accept : accept_payment tiny pcd node a_coin mock_pcd_prefix acct opening ≡ ok 40
unfolding accept_payment new_node starts_with commit hash to_le_bytes bytes_discrete
run_accept = refl

-- The user has the greatest balance there is.
abbrev full : WalletState tiny
full = record wallet {
  liabilities = (user, record { user_id_hash = user; credited = u64_max; withdrawn = 0 }) ∷ [];
}

full-IsLedger : IsLedger tiny u64_max full
unfolding HashMap.get
full-IsLedger = record { sound = λ u. ground arith }

queue_withdrawal-saturated_example :
    let (w', r) = queue_withdrawal tiny Withdrawals.handler full user (request u64_max) 8 tt in
    (r ≡ ok (queued_request tiny Withdrawals.handler full user (request u64_max) 8 tt))
    × (accounts tiny w' ≡ assign user 0 (accounts tiny full))
    × (owed tiny w' + u64_max ≡ owed tiny full)
    × (u64_max < u64_max + 1000)
unfolding HashMap.get available bytes_discrete
queue_withdrawal-saturated_example =
    queue_withdrawal-saturated tiny Withdrawals.handler full user (request u64_max) 8 tt u64_max
      full-IsLedger (omega arith) refl (omega arith)

serve_calls-accounts_example :
    accounts tiny (serve_calls tiny pcd Deposits.handler Withdrawals.handler wallet calls).0
    ≡ (spec_run
        (accounts tiny wallet)
        (ledger_calls tiny pcd Deposits.handler Withdrawals.handler calls)).0
unfolding offered
serve_calls-accounts_example =
    serve_calls-accounts tiny pcd Deposits.handler Withdrawals.handler calls 40 wallet
      wallet-IsLedger (omega arith)

abbrev pub stranger : Bytes
stranger = 6 ∷ []

-- Another user deposits, and withdraws, in between.
abbrev shared : List (MixerCall tiny pcd)
shared =
    deposit_call node user large 11 tt
    ∷ deposit_call node stranger large 12 tt
    ∷ withdraw_call user (request 3000) 13 tt
    ∷ consolidate_call node (on_chain_id a_coin)
    ∷ withdraw_call stranger (request 2000) 14 tt
    ∷ []

serve_calls-own_calls_example :
    let serve_all = serve_calls tiny pcd Deposits.handler Withdrawals.handler wallet in
    let all = (serve_all shared).0 in
    let own =
      (serve_all
        (deposit_call node user large 11 tt ∷ withdraw_call user (request 3000) 13 tt ∷ [])).0 in
    (accounts tiny all user ≡ accounts tiny own user)
    × ((request : WithdrawalRequestPayload tiny) (id : ℕ) (now : Unit {0})
        → (queue_withdrawal tiny Withdrawals.handler all user request id now).1
          ≡ (queue_withdrawal tiny Withdrawals.handler own user request id now).1)
unfolding offered own_calls bytes_discrete
serve_calls-own_calls_example =
    serve_calls-own_calls tiny pcd Deposits.handler Withdrawals.handler user shared 40 wallet
      wallet-IsLedger (omega arith)
