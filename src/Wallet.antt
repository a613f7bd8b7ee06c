-- ===== src/Wallet.antt =====
-- partymixrust/src/wallet_state.rs: the wallet's storage and its operations.
pub mod History
pub mod Ledger
pub mod Trace
pub mod Own
pub mod Insertions
pub mod Order
pub mod Alike
pub mod Coins
use partymixrust.Prelude.{
  ℕ, ◌+◌, Bool, true, false, Option, none, some, List, [], ◌∷◌, ◌++◌, map, Bytes, bytes_discrete,
  length, drop, last?, ltb, same, if◌then◌else◌,
}
use partymixrust.Prelude.Words.{saturating_add, wrapping_add, wrapping_sum}
use partymixrust.Prelude.HashMap
use partymixrust.Prelude.HashMap.{HashMap, values}
use partymixrust.ShieldedCsv.Data.{
  AccValue, ToSAccValue, SigCommitment, BlockchainLocation, Commitment, CoinIdOnChain,
}
use partymixrust.ShieldedCsv.Platform.{Platform}
use partymixrust.ShieldedCsv.Primitives.{zero_bytes}
use partymixrust.ShieldedCsv.Payment.{on_chain_id}
use partymixrust.Types.{LiabilityEntry, available, PoolAccount, PoolCoin}

pub record PruningConfig : Type 0 where
  pub spent_accum_prune_before : Option ℕ

pub record NullifierKvEntry : Type 0 where
  pub sig_comm : SigCommitment
  pub blockchain_loc : BlockchainLocation
  pub fee_acct_comm : Commitment

pub record WalletState (x : Platform) : Type 0 where
  pub pool_accounts : HashMap x.Uuid (PoolAccount x)
  pub unspent_coins : List (PoolCoin x)
  pub liabilities : HashMap Bytes LiabilityEntry
  pub nullifier_kv : HashMap x.PublicKey NullifierKvEntry
  pub nullifier_accum_history : List ToSAccValue
  pub spent_accum_snapshots : HashMap x.PublicKey AccValue
  pub pcd_verification_key : Option Bytes
  pub pruning : PruningConfig

-- `entry(user).or_insert(..)` of the ledger.
abbrev pub entry_or_new : Bytes → Option LiabilityEntry → LiabilityEntry
entry_or_new user none = record { user_id_hash = user; credited = 0; withdrawn = 0 }
entry_or_new user (some e) = e

-- `last() == Some(&value)`
unfoldable pub is_last : ToSAccValue → Option ToSAccValue → Bool
is_last value none = false
is_last value (some v) = same (bytes_discrete v value)

module _ {x : Platform} where
  -- `find(|a| a.is_primary)` over the accounts in the map's order.
  unfoldable pub find_primary : List (PoolAccount x) → Option (PoolAccount x)
  find_primary [] = none
  find_primary (a ∷ as') = if a.is_primary then some a else find_primary as'

  -- The first coin with the identifier, and the others in their order.
  unfoldable pub take_coin :
      CoinIdOnChain → List (PoolCoin x) → Option (PoolCoin x × List (PoolCoin x))
  take_coin id [] = none
  take_coin id (c ∷ cs) =
      let rest = take_coin id cs in
      if same (bytes_discrete (on_chain_id c.coin) id)
      then some (c, cs)
      else elim rest [ none ↦ none | some (d, ds) ↦ some (d, c ∷ ds) ]

module _ (x : Platform) where
  -- `WalletState::new`
  abbrev pub new_wallet : WalletState x
  new_wallet = record {
    pool_accounts = [];
    unspent_coins = [];
    liabilities = [];
    nullifier_kv = [];
    nullifier_accum_history = zero_bytes 32 ∷ [];
    spent_accum_snapshots = [];
    pcd_verification_key = none;
    pruning = record { spent_accum_prune_before = none };
  }

  unfoldable pub primary_pool_account : WalletState x → Option (PoolAccount x)
  unfolding find_primary
  primary_pool_account self = find_primary (values self.pool_accounts)

  unfoldable pub credit_user : WalletState x → Bytes → ℕ → WalletState x
  credit_user self user amount =
      let e = entry_or_new user (HashMap.get bytes_discrete user self.liabilities) in
      record self {
        liabilities =
            HashMap.insert bytes_discrete user
              (record e { credited = saturating_add e.credited amount }) self.liabilities;
      }

  -- The wallet, and whether the amount was debited.
  unfoldable pub debit_user : WalletState x → Bytes → ℕ → WalletState x × Bool
  unfolding available
  debit_user self user amount = elim (HashMap.get bytes_discrete user self.liabilities) [
    | none ↦ (self, false)
    | some e ↦ if ltb (available e) amount then (self, false) else (
      record self {
        liabilities =
            HashMap.insert bytes_discrete user
              (record e { withdrawn = saturating_add e.withdrawn amount }) self.liabilities;
      },
      true,
    )
  ]

  unfoldable pub add_unspent_coin : WalletState x → PoolCoin x → WalletState x
  add_unspent_coin self c = record self { unspent_coins = self.unspent_coins ++ c ∷ [] }

  unfoldable pub remove_unspent_coin :
      WalletState x → CoinIdOnChain → WalletState x × Option (PoolCoin x)
  unfolding take_coin
  remove_unspent_coin self id = elim (take_coin id self.unspent_coins) [
    | none ↦ (self, none)
    | some (c, rest) ↦ (record self { unspent_coins = rest }, some c)
  ]

  unfoldable pub update_pool_account : WalletState x → PoolAccount x → WalletState x
  update_pool_account self account = record self {
    pool_accounts = HashMap.insert x.uuid_discrete account.id account self.pool_accounts;
  }

  unfoldable pub record_nullifier_accum : WalletState x → ToSAccValue → WalletState x
  unfolding is_last
  record_nullifier_accum self value =
      if is_last value (last? self.nullifier_accum_history)
      then self
      else record self { nullifier_accum_history = self.nullifier_accum_history ++ value ∷ [] }

  -- `drain(0..keep_from)` removes the first `keep_from` values.
  unfoldable pub trim_nullifier_history : WalletState x → ℕ → WalletState x
  trim_nullifier_history self keep_from =
      if ltb keep_from (length self.nullifier_accum_history)
      then record self { nullifier_accum_history = drop keep_from self.nullifier_accum_history }
      else self

  -- The body in the source drops nothing.
  unfoldable pub prune_spent_accumulators : WalletState x → ℕ → WalletState x
  prune_spent_accumulators self before_block = self

  unfoldable pub total_liabilities : WalletState x → ℕ
  unfolding wrapping_sum
  total_liabilities self = wrapping_sum (map available (values self.liabilities)) 0

  abbrev pub coin_amount : PoolCoin x → ℕ
  coin_amount c = c.coin.essence.amount

  abbrev pub account_balance : PoolAccount x → ℕ
  account_balance a = a.state.essence.balance

  unfoldable pub total_unspent_pool_value : WalletState x → ℕ
  unfolding wrapping_sum
  total_unspent_pool_value self =
      wrapping_add (wrapping_sum (map coin_amount self.unspent_coins) 0)
        (wrapping_sum (map account_balance (values self.pool_accounts)) 0)

  unfoldable pub already_received_ids : WalletState x → List CoinIdOnChain
  already_received_ids wallet = map (λ (c : PoolCoin x). on_chain_id c.coin) wallet.unspent_coins
