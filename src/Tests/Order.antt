-- ===== src/Tests/Order.antt =====
-- Runs of the mixer on wallets whose maps are gone through in different orders.
use mathlib.Core.List.{Permᴰ}
use partymixrust.Prelude.{◌≡◌, refl, [], ◌∷◌, arith, Bytes, bytes_discrete}
use partymixrust.Prelude.HashMap
use partymixrust.Wallet.{WalletState, credit_user, primary_pool_account}
use partymixrust.Wallet.Ledger.{accounts}
use partymixrust.Wallet.Order.{SameEntries}
use partymixrust.Wallet.Alike.{Alike}
use partymixrust.Pool.{check_solvency}
use partymixrust.Pool.Primary.{primary_count}
use partymixrust.Mixer.{serve_calls}
use partymixrust.Mixer.Order.{answers, serve_calls-Alike}
use partymixrust.Tests.Data.{tiny, pcd, user, wallet}
use partymixrust.Tests.Deposits
use partymixrust.Tests.Withdrawals
use partymixrust.Tests.Service.{calls}

-- A wallet of two users, whose map is gone through in the one order or the other.
abbrev shared : WalletState tiny
shared = credit_user tiny wallet (6 ∷ []) 7

abbrev turned : WalletState tiny
turned = record wallet {
  liabilities =
      (6 ∷ [], record { user_id_hash = 6 ∷ []; credited = 7; withdrawn = 0 })
      ∷ (user, record { user_id_hash = user; credited = 40; withdrawn = 0 })
      ∷ [];
}

shared-SameEntries : SameEntries tiny shared turned
unfolding credit_user HashMap.get HashMap.insert bytes_discrete
shared-SameEntries = record {
  liabilities = Permᴰ.swap refl refl;
  pool_accounts = Permᴰ.cons refl Permᴰ.nil;
  coins = refl;
}

shared-Alike : Alike tiny shared turned
unfolding credit_user HashMap.get HashMap.insert bytes_discrete primary_count
shared-Alike = record {
  entries = shared-SameEntries;
  history = refl;
  users = (((λ e. cc), tt), (tt, tt));
  ids = (tt, tt);
  one = omega arith;
}

serve_calls-Alike_example :
    let after = (serve_calls tiny pcd Deposits.handler Withdrawals.handler shared calls).0 in
    let after' = (serve_calls tiny pcd Deposits.handler Withdrawals.handler turned calls).0 in
    (answers tiny pcd Deposits.handler Withdrawals.handler shared calls
      ≡ answers tiny pcd Deposits.handler Withdrawals.handler turned calls)
    × Alike tiny after after'
    × (check_solvency tiny after ≡ check_solvency tiny after')
    × (primary_pool_account tiny after ≡ primary_pool_account tiny after')
    × ((u : Bytes) → accounts tiny after u ≡ accounts tiny after' u)
serve_calls-Alike_example =
    serve_calls-Alike tiny pcd Deposits.handler Withdrawals.handler calls shared turned shared-Alike
