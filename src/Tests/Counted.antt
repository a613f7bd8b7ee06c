-- ===== src/Tests/Counted.antt =====
-- Runs of chains whose blocks are counted, and of what is mined in them.
use partymixrust.Prelude.{
  ℕ, ℕ_discrete, zero, suc, ◌+◌, ◌*◌, ◌≤◌, ◌≡◌, ◌≢◌, ◌↔◌, refl, ap, sym, ◌∙◌, inl, List, [], ◌∷◌,
  arith, Bytes, ok, err,
}
use partymixrust.Prelude.Digits.{to_le_bytes, to_be_bytes}
use partymixrust.Prelude.HashMap
use partymixrust.ShieldedCsv.Platform.{Platform}
use partymixrust.ShieldedCsv.Data.{
  AggregateNullifier, Coin, ToSAccSetElement, PaymentFinalizeLocalInput,
}
use partymixrust.ShieldedCsv.Primitives.{stubs, zero_bytes, hash}
use partymixrust.ShieldedCsv.Payment.{
  on_chain_id, located, fee_idx, payment_finalize_fee, payment_finalize_internal,
}
use partymixrust.Types.{default_config}
use partymixrust.Wallet.{new_wallet}
use partymixrust.Crypto.Pcd.{PcdBackend, mock_pcd, mock_pcd_prefix}
use partymixrust.Node.{
  MixerNode, new_node, location, scan_key, scan_keys, scan_aggregate, scan_block, apply_block,
  handle_reorg, accept_payment, current_nav, payment_rejected,
}
use partymixrust.Node.Reachable.{here, block, reorg, hashed, blocks_seen}
use partymixrust.Node.Locations.{key_count}
use partymixrust.Node.Chains.{apply_blocks}
use partymixrust.Node.Divergence.{Reachable-seen_fewer}
use partymixrust.Node.Values.{Different}
use partymixrust.Node.Reorgs.{apply_blocks-handle_reorg}
use partymixrust.Node.Mined.{MinedAt, payment_finalize_fee-MinedAt}
use partymixrust.Tests.Data.{
  tiny, aggregate, a_coin, acct, opening, finalization, partial, made_fee,
}

-- Its hash of a text that begins with n begins with n + 1.
abbrev first_byte : Bytes → ℕ
first_byte [] = 0
first_byte (n ∷ ns) = n

abbrev counting : Platform
counting = record tiny { default_hash = λ bs. first_byte bs + 1 }

abbrev counting_pcd : PcdBackend counting
counting_pcd = mock_pcd counting

abbrev start : MixerNode counting counting_pcd
start = new_node counting counting_pcd default_config (new_wallet counting)

-- The block of height 1 for everyone, then for one node in place of another that was disconnected.
abbrev direct : MixerNode counting counting_pcd
direct = apply_block counting (stubs counting) counting_pcd tt start 1 []

abbrev detoured : MixerNode counting counting_pcd
detoured =
    apply_block counting (stubs counting) counting_pcd tt
      (handle_reorg counting counting_pcd
        (apply_block counting (stubs counting) counting_pcd tt start 1 (aggregate ∷ [])) 1).0
      1 []

abbrev detoured_coin : Coin
detoured_coin = record a_coin { nullifier_accum = current_nav counting counting_pcd detoured }

-- After up to 255 blocks, the value begins with their number.
first_byte-hashed : (n : ℕ) → n ≤ 255 → first_byte (hashed counting n (zero_bytes 32)) ≡ n
unfolding hashed hash to_le_bytes
first_byte-hashed zero h = refl
first_byte-hashed (suc n) h = omega (arith, first_byte-hashed n (omega arith))

counting-Different : (n : ℕ) → n ≤ 255 → Different counting n
counting-Different n small j k h h' e =
    sym (first_byte-hashed j (omega arith)) ∙ ap first_byte e ∙ first_byte-hashed k (omega arith)

blocks_apart :
    (k : ℕ) → k ≤ 1 → hashed counting 2 (zero_bytes 32) ≢ hashed counting k (zero_bytes 32)
blocks_apart k h e =
    absurd (omega (arith, counting-Different 2 (omega arith) 2 k (omega arith) (omega arith) e))

Reachable-seen_fewer_example :
    accept_payment counting counting_pcd direct detoured_coin mock_pcd_prefix acct opening
    ≡ err payment_rejected
unfolding blocks_seen
Reachable-seen_fewer_example =
    Reachable-seen_fewer counting (stubs counting) counting_pcd default_config default_config
      (block _ tt 1 [] (reorg _ 1 (block _ tt 1 (aggregate ∷ []) here))) (block _ tt 1 [] here)
      blocks_apart detoured_coin mock_pcd_prefix acct opening refl

abbrev two_blocks : List (ℕ × List (AggregateNullifier counting.PublicKey))
two_blocks = (1, aggregate ∷ []) ∷ (2, []) ∷ []

-- Bound to the value after the first block.
abbrev early_coin : Coin
early_coin = record a_coin { nullifier_accum = hashed counting 1 (zero_bytes 32) }

-- The second block is disconnected.
apply_blocks-handle_reorg_example :
    let tip = apply_blocks counting (stubs counting) counting_pcd tt start two_blocks in
    let (after, r) = handle_reorg counting counting_pcd tip 1 in
    (r ≡ ok tt)
    × (current_nav counting counting_pcd after ≡ hashed counting 2 (zero_bytes 32))
    × (after.wallet.nullifier_kv ≡ tip.wallet.nullifier_kv)
    × (accept_payment counting counting_pcd after early_coin mock_pcd_prefix acct opening
        ≡ err payment_rejected)
apply_blocks-handle_reorg_example =
    apply_blocks-handle_reorg counting (stubs counting) counting_pcd tt default_config two_blocks
      (counting-Different 2 (omega arith)) 1 1 early_coin mock_pcd_prefix acct opening (omega arith)
      (omega arith) (omega arith) refl

-- A fee output of a payment whose nullifier is in the block, finalized at its location.
abbrev element : ℕ → ToSAccSetElement ℕ
element height = (7, zero_bytes 32, to_be_bytes 6 (height * 256), zero_bytes 32)

abbrev located_at : ℕ → PaymentFinalizeLocalInput
located_at height = record finalization { blockchain_loc = to_be_bytes 6 (height * 256) }

abbrev fee_coin_at : ℕ → ℕ → Coin
fee_coin_at fee height =
    located tiny partial (located_at height)
      (record { address = zero_bytes 32; amount = fee; idx = fee_idx })

three-MinedAt : MinedAt tiny (stubs tiny) 3 (element 3)
unfolding scan_block scan_aggregate scan_keys scan_key HashMap.get location to_be_bytes key_count
    HashMap.insert ℕ_discrete
three-MinedAt = record {
  msg = tt;
  aggs = aggregate ∷ [];
  kv = [];
  low = omega arith;
  few = omega arith;
  listed = inl refl;
}

payment_finalize_fee-MinedAt_example :
    (((element 3).2 ≡ (element 3).2) ↔ (◌≡◌ {A = ℕ} 3 3))
    × ((on_chain_id (fee_coin_at 5 3) ≡ on_chain_id (fee_coin_at 9 3)) ↔ (◌≡◌ {A = ℕ} 3 3))
unfolding payment_finalize_fee payment_finalize_internal
payment_finalize_fee-MinedAt_example =
    payment_finalize_fee-MinedAt tiny (stubs tiny) 3 3 (element 3) (element 3) (made_fee 5)
      (made_fee 9) (located_at 3) (located_at 3) (fee_coin_at 5 3) (fee_coin_at 9 3) three-MinedAt
      three-MinedAt refl refl refl refl
