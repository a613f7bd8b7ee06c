-- ===== src/Tests/Chain.antt =====
-- Runs of the chain that a node sees: blocks, reorganisations and published aggregates.
use partymixrust.Prelude.{◌≡◌, ◌≢◌, refl, some, [], ◌∷◌, ok, All, ℕ_discrete}
use partymixrust.Prelude.HashMap
use partymixrust.ShieldedCsv.Data.{AggregateNullifier}
use partymixrust.ShieldedCsv.Primitives.{stubs, zero_bytes}
use partymixrust.Wallet.{new_wallet, NullifierKvEntry}
use partymixrust.Node.{MixerNode, scan_block, apply_block, handle_reorg}
use partymixrust.Node.Reachable.{Leads, here, block, reorg}
use partymixrust.Node.Permanence.{scan_start, Leads-permanent}
use partymixrust.Publisher.{PendingNullifier}
use partymixrust.Publisher.Published.{Knows, aggregate_with-published}
use partymixrust.Node.{accept_payment, current_nav}
use partymixrust.Crypto.Pcd.{mock_pcd_prefix}
use partymixrust.Node.Chains.{
  apply_blocks, accept_payment-apply_blocks, apply_blocks-accept_payment,
}
use partymixrust.Tests.Data.{tiny, pcd, aggregate, node, a_coin, acct, opening}
use partymixrust.Tests.Service.{run_accept}
use partymixrust.Tests.Books.{backend, ready}

-- A node that has stored the key 7.
abbrev entry : NullifierKvEntry
entry = record {
  sig_comm = zero_bytes 32;
  blockchain_loc = zero_bytes 6;
  fee_acct_comm = zero_bytes 32;
}

abbrev knowing : MixerNode tiny pcd
knowing = record node { wallet = record (new_wallet tiny) { nullifier_kv = (7, entry) ∷ [] } }

abbrev later : MixerNode tiny pcd
later =
    (handle_reorg tiny pcd (apply_block tiny (stubs tiny) pcd tt knowing 2 (aggregate ∷ [])) 1).0

knowing-Leads : Leads tiny (stubs tiny) pcd knowing later
knowing-Leads = reorg _ 1 (block _ tt 2 (aggregate ∷ []) here)

Leads-permanent_example :
    (HashMap.get ℕ_discrete 7 later.wallet.nullifier_kv ≡ some entry)
    × ((msg : Unit {0}) (height : _) (aggs : _)
        → All
            (λ n. n.0 ≢ 7)
            (scan_block tiny
              (stubs tiny)
              msg
              aggs
              (scan_start tiny (stubs tiny) pcd later height)).block_nullifiers)
unfolding HashMap.get ℕ_discrete
Leads-permanent_example =
    Leads-permanent tiny (stubs tiny) pcd 7 entry knowing later knowing-Leads refl

abbrev published : AggregateNullifier tiny.PublicKey
published = record { pks = 7 ∷ []; sig = []; fee_acct_comm = zero_bytes 32 }

aggregate_with-published_example :
    All
      (λ (q : PendingNullifier tiny backend).
        Knows tiny
          (stubs tiny)
          pcd
          backend
          (apply_block tiny (stubs tiny) pcd tt node 5 (aggregate ∷ published ∷ []))
          q.nullifier_pk)
      ready.pending
aggregate_with-published_example =
    aggregate_with-published tiny (stubs tiny) pcd backend ready tt published node 5
      (aggregate ∷ []) [] refl refl

apply_blocks-accept_payment_example :
    let spent = apply_blocks tiny (stubs tiny) pcd tt node ((1, aggregate ∷ []) ∷ (2, []) ∷ []) in
    let empty = apply_blocks tiny (stubs tiny) pcd tt node ((1, []) ∷ (7, []) ∷ []) in
    (current_nav tiny pcd spent ≡ current_nav tiny pcd empty)
    × (accept_payment tiny pcd spent a_coin mock_pcd_prefix acct opening
        ≡ accept_payment tiny pcd empty a_coin mock_pcd_prefix acct opening)
apply_blocks-accept_payment_example =
    apply_blocks-accept_payment tiny (stubs tiny) pcd tt node ((1, aggregate ∷ []) ∷ (2, []) ∷ [])
      ((1, []) ∷ (7, []) ∷ []) a_coin mock_pcd_prefix acct opening refl

accept_payment-apply_blocks_example :
    accept_payment tiny pcd
      (apply_blocks tiny (stubs tiny) pcd tt node ((1, aggregate ∷ []) ∷ (2, []) ∷ []))
      a_coin
      mock_pcd_prefix
      acct
      opening
    ≡ ok 40
accept_payment-apply_blocks_example =
    accept_payment-apply_blocks tiny (stubs tiny) pcd tt node ((1, aggregate ∷ []) ∷ (2, []) ∷ [])
      a_coin mock_pcd_prefix acct opening 40 run_accept
