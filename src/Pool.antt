-- ===== src/Pool.antt =====
-- partymixrust/src/pool.rs: pool accounts and the accounting checks. A method takes the wallet that
-- it borrows and returns it.
pub mod Solvency
pub mod Primary
pub mod Accounts
pub mod Alike
use Prim.Native.String.{String}
use partymixrust.Prelude.{
  ℕ, Bool, true, false, Option, none, some, List, [], ◌∷◌, map, Bytes, bytes_discrete, ltb, last?,
  if◌then◌else◌, Result, ok, err,
}
use partymixrust.Prelude.Words.{saturating_add}
use partymixrust.Prelude.HashMap
use partymixrust.Prelude.HashMap.{HashMap}
use partymixrust.ShieldedCsv.Data.{ToSAccValue}
use partymixrust.ShieldedCsv.Platform.{Platform}
use partymixrust.ShieldedCsv.Primitives.{zero_bytes}
use partymixrust.ShieldedCsv.Accumulators.{new_acc_value}
use partymixrust.Types.{MixerConfig, LiabilityEntry, available, PoolAccount}
use partymixrust.Wallet.{
  WalletState, primary_pool_account, credit_user, debit_user, update_pool_account,
  total_liabilities, total_unspent_pool_value,
}

pub data PoolError : Type 0 where
  no_primary_account : PoolError
  -- needed, available
  insufficient_liquidity : ℕ → ℕ → PoolError
  -- liabilities, pool
  accounting_mismatch : ℕ → ℕ → PoolError

pub record PoolManager : Type 0 where
  pub config : MixerConfig

-- `PoolManager::new`
abbrev pub new_pool : MixerConfig → PoolManager
new_pool config = record { config = config }

-- `last().copied().unwrap_or_default()`
abbrev pub last_nav : Option ToSAccValue → ToSAccValue
last_nav none = zero_bytes 32
last_nav (some v) = v

-- `map(available).unwrap_or(0)`
abbrev pub available_or_zero : Option LiabilityEntry → ℕ
available_or_zero none = 0
available_or_zero (some e) = available e

module _ (x : Platform) where
  -- The loop over `values_mut` that clears the flag of the existing accounts.
  unfoldable pub clear_primary : HashMap x.Uuid (PoolAccount x) → HashMap x.Uuid (PoolAccount x)
  clear_primary = map (λ e. (e.0, record e.1 { is_primary = false }))

  -- The account; `id` is the fresh `Uuid`.
  unfoldable pub new_account : WalletState x → x.PublicKey → String → Bool → x.Uuid → PoolAccount x
  new_account wallet acct_id label is_primary id = record {
    id = id;
    label = label;
    acct_id = acct_id;
    state = record {
      essence = record { id = acct_id; balance = 0; nullifier_pk = acct_id };
      spent_accum = new_acc_value;
      nullifier_accum = last_nav (last? wallet.nullifier_accum_history);
    };
    state_proof = [];
    is_primary = is_primary;
  }

  unfoldable pub create_pool_account :
      WalletState x → x.PublicKey → String → Bool → x.Uuid → WalletState x × PoolAccount x
  unfolding clear_primary new_account update_pool_account
  create_pool_account wallet acct_id label is_primary id =
      let account = new_account wallet acct_id label is_primary id in
      let cleared =
        if is_primary
        then record wallet { pool_accounts = clear_primary wallet.pool_accounts }
        else wallet in
      (update_pool_account x cleared account, account)

  unfoldable pub credit_deposit : WalletState x → Bytes → ℕ → WalletState x
  unfolding credit_user
  credit_deposit wallet user amount = credit_user x wallet user amount

  unfoldable pub reserve_withdrawal :
      WalletState x → Bytes → ℕ → ℕ → WalletState x × Result PoolError Unit
  reserve_withdrawal wallet user amount service_fee =
      let needed = saturating_add amount service_fee in
      let (wallet', debited) = debit_user x wallet user needed in
      if debited then (wallet', ok tt) else (
        wallet',
        err (
            insufficient_liquidity needed
              (available_or_zero (HashMap.get bytes_discrete user wallet'.liabilities))),
      )

  unfoldable pub check_solvency : WalletState x → Result PoolError Unit
  unfolding total_liabilities total_unspent_pool_value
  check_solvency wallet =
      let liabilities = total_liabilities x wallet in
      let pool = total_unspent_pool_value x wallet in
      if ltb pool liabilities then err (accounting_mismatch liabilities pool) else ok tt

  unfoldable pub primary_account : WalletState x → Result PoolError (PoolAccount x)
  unfolding primary_pool_account
  primary_account wallet = elim (primary_pool_account x wallet) [
    | none ↦ err no_primary_account
    | some a ↦ ok a
  ]
