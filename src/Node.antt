-- ===== src/Node.antt =====
-- partymixrust/src/mixer_node.rs: block scanning, acceptance of payments, reorganisations.
pub mod Locations
pub mod Mined
pub mod Nullifiers
pub mod Blocks
pub mod Reachable
pub mod Forgery
pub mod Permanence
pub mod Sizes
pub mod Regular
pub mod Stored
pub mod Chains
pub mod Divergence
pub mod Values
pub mod Reorgs
use partymixrust.Prelude.{
  ℕ, zero, suc, ◌+◌, ◌*◌, ◌^◌, Bool, true, false, ◌||◌, not, Option, none, some, List, [], ◌∷◌,
  ◌++◌, map, Bytes, bytes_discrete, length, take, ltb, same, if◌then◌else◌, Result, ok, err,
  Outcome, returned, panicked,
}
use partymixrust.Prelude.Words.{wrapping_add, wrapping_mul, saturating_sub}
use partymixrust.Prelude.Digits.{to_be_bytes}
use partymixrust.Prelude.HashMap
use partymixrust.Prelude.HashMap.{HashMap, contains_key}
use partymixrust.ShieldedCsv.Data.{
  AggregateNullifier, Signature, Commitment, BlockchainLocation, ToSAccSetElement, ToSAccValue,
  Coin, EdgeLabel, coin,
}
use partymixrust.ShieldedCsv.Platform.{Platform}
use partymixrust.ShieldedCsv.Primitives.{Primitives, commit}
use partymixrust.ShieldedCsv.Accumulators.{ToSAccM, new_tos_acc_m, append_set, remove_set}
use partymixrust.ShieldedCsv.Payment.{on_chain_id}
use partymixrust.Types.{MixerConfig, PoolCoin}
use partymixrust.Wallet.{
  NullifierKvEntry, WalletState, record_nullifier_accum, trim_nullifier_history,
}
use partymixrust.Crypto.Pcd.{PcdBackend, PcdError}
use partymixrust.Crypto.Nisshac.{state_update_message}

pub data NodeError : Type 0 where
  invalid_aggregate_nullifier payment_rejected reorg_too_deep : NodeError

pub record MixerNode (x : Platform) (b : PcdBackend x) : Type 0 where
  pub config : MixerConfig
  pub wallet : WalletState x
  pub nullifier_accum : ToSAccM
  pub pcd_vk : b.VerKey
  pub chain_height : ℕ

-- `loc.to_be_bytes()[..6]`
unfoldable pub location : ℕ → BlockchainLocation
unfolding to_be_bytes
location loc = take 6 (to_be_bytes 8 loc)

-- `contains` of a list of byte arrays.
unfoldable pub contains : List Bytes → Bytes → Bool
contains [] a = false
contains (b ∷ bs) a = same (bytes_discrete b a) || contains bs a

-- What the scan of a block changes: the key-value store, the next location, the block's nullifiers.
pub record Scan (x : Platform) : Type 0 where
  pub kv : HashMap x.PublicKey NullifierKvEntry
  pub loc : ℕ
  pub block_nullifiers : List (ToSAccSetElement x.PublicKey)

module _ (x : Platform) (p : Primitives x) where
  module _ (sig : Signature) (fee_acct_comm : Commitment) where
    -- A new key is stored, and its nullifier is listed.
    abbrev pub add_key : ℕ → x.PublicKey → Scan x → Scan x
    add_key i pk s = record {
      kv =
          HashMap.insert x.pk_discrete pk
            (record {
              sig_comm = p.commit_retrieve sig i;
              blockchain_loc = location s.loc;
              fee_acct_comm = fee_acct_comm;
            })
            s.kv;
      loc = wrapping_add s.loc 1;
      block_nullifiers =
          s.block_nullifiers ++ (pk, p.commit_retrieve sig i, location s.loc, fee_acct_comm) ∷ [];
    }

    -- The key at position `i` of an aggregate.
    unfoldable pub scan_key : ℕ → x.PublicKey → Scan x → Scan x
    unfolding location
    scan_key i pk s = if contains_key x.pk_discrete pk s.kv then s else add_key i pk s

    unfoldable pub scan_keys : ℕ → List x.PublicKey → Scan x → Scan x
    scan_keys i [] s = s
    scan_keys i (pk ∷ pks) s = scan_keys (i + 1) pks (scan_key i pk s)

  module _ (msg : x.Message) where
    -- An aggregate whose signature does not verify is skipped.
    unfoldable pub scan_aggregate : AggregateNullifier x.PublicKey → Scan x → Scan x
    scan_aggregate a s =
        if not (p.agg_verify a.sig (map (λ pk. (pk, msg)) a.pks))
        then s
        else scan_keys a.sig a.fee_acct_comm 0 a.pks s

    unfoldable pub scan_block : List (AggregateNullifier x.PublicKey) → Scan x → Scan x
    scan_block [] s = s
    scan_block (a ∷ as') s = scan_block as' (scan_aggregate a s)

-- `block_height * 2u64.pow(24)`
abbrev pub first_loc : ℕ → ℕ
first_loc height = wrapping_mul height (2 ^ 24)

-- `remove_set`, once for each disconnected block.
unfoldable pub remove_sets : ℕ → ToSAccM → ToSAccM
unfolding remove_set
remove_sets zero accum = accum
remove_sets (suc n) accum = remove_sets n (remove_set accum)

-- `verify(..).unwrap_or(false)`
abbrev pub verified : Result PcdError Bool → Bool
verified (ok v) = v
verified (err e) = false

module _ (x : Platform) (b : PcdBackend x) where
  -- `MixerNode::new`
  unfoldable pub new_node : MixerConfig → WalletState x → MixerNode x b
  new_node config wallet = record {
    config = config;
    wallet = wallet;
    nullifier_accum = new_tos_acc_m;
    pcd_vk = b.keygen.1;
    chain_height = 0;
  }

  unfoldable pub accept_payment : MixerNode x b → Coin → Bytes → Bytes → Bytes → Result NodeError ℕ
  unfolding contains
  accept_payment self c coin_proof acct_id_bytes pk_commit_rand =
      if not (same (bytes_discrete c.essence.address (commit x acct_id_bytes pk_commit_rand)))
      then err payment_rejected
      else if contains (map (λ (u : PoolCoin x). on_chain_id u.coin) self.wallet.unspent_coins)
          (on_chain_id c)
      then err payment_rejected
      else if not (contains self.wallet.nullifier_accum_history c.nullifier_accum)
      then err payment_rejected
      else if not (verified (b.verify self.pcd_vk (coin c) coin_proof))
      then err payment_rejected
      else ok c.essence.amount

  unfoldable pub handle_reorg : MixerNode x b → ℕ → MixerNode x b × Result NodeError Unit
  unfolding remove_sets
  handle_reorg self disconnected_blocks =
      let history_len = length self.wallet.nullifier_accum_history in
      if ltb history_len disconnected_blocks then (self, err reorg_too_deep) else (
        record self {
          wallet =
              trim_nullifier_history x self.wallet (saturating_sub history_len disconnected_blocks);
          nullifier_accum = remove_sets disconnected_blocks self.nullifier_accum;
        },
        ok tt,
      )

  unfoldable pub current_nav : MixerNode x b → ToSAccValue
  current_nav self = self.nullifier_accum.value

module _ (x : Platform) (p : Primitives x) (b : PcdBackend x) where
  -- The part of `process_block` after the message has been built.
  unfoldable pub apply_block :
      x.Message → MixerNode x b → ℕ → List (AggregateNullifier x.PublicKey) → MixerNode x b
  apply_block msg self height aggs =
      let s =
        scan_block x p msg aggs (record {
          kv = self.wallet.nullifier_kv;
          loc = first_loc height;
          block_nullifiers = [];
        }) in
      let accum = append_set x self.nullifier_accum s.block_nullifiers in
      record self {
        wallet = record_nullifier_accum x (record self.wallet { nullifier_kv = s.kv }) accum.value;
        nullifier_accum = accum;
        chain_height = height;
      }

  unfoldable pub process_block :
      MixerNode x b
      → ℕ
      → List (AggregateNullifier x.PublicKey)
      → Outcome (MixerNode x b × Result NodeError Unit)
  process_block self height aggs = elim (state_update_message x) [
    | panicked ↦ panicked
    | returned msg ↦ returned (apply_block msg self height aggs, ok tt)
  ]
