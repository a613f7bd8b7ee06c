-- ===== src/Tests/Blocks.antt =====
-- Runs of the node.
use partymixrust.Prelude.{◌≡◌, ◌↔◌, refl, [], ◌∷◌, arith, ok, panicked}
use partymixrust.ShieldedCsv.Primitives.{stubs}
use partymixrust.Types.{default_config}
use partymixrust.Crypto.Pcd.{mock_pcd_prefix}
use partymixrust.Node.{
  MixerNode, Scan, first_loc, scan_block, process_block, apply_block, accept_payment, handle_reorg,
}
use partymixrust.Node.Nullifiers.{Extends, scan_block-Extends}
use partymixrust.Node.Blocks.{WantsDigest, Acceptable, process_block-panicked, accept_payment_iff}
use partymixrust.Node.Reachable.{here, block, reorg, blocks_seen}
use partymixrust.Node.Regular.{Regular, Reachable-Regular}
use partymixrust.Tests.Data.{tiny, pcd, acct, opening, a_coin, aggregate, node}

pub tiny-WantsDigest : WantsDigest tiny
tiny-WantsDigest bs ne = ground arith

abbrev start : Scan tiny
start = record { kv = []; loc = first_loc 3; block_nullifiers = [] }

accept_payment_iff_example :
    (accept_payment tiny pcd node a_coin mock_pcd_prefix acct opening ≡ ok 40)
    ↔ (Acceptable tiny pcd node a_coin mock_pcd_prefix acct opening × (40 ≡ a_coin.essence.amount))
accept_payment_iff_example = accept_payment_iff tiny pcd node a_coin mock_pcd_prefix acct opening 40

scan_block-Extends_example :
    Extends tiny (stubs tiny) [] (scan_block tiny (stubs tiny) tt (aggregate ∷ []) start)
scan_block-Extends_example = scan_block-Extends tiny (stubs tiny) tt (aggregate ∷ []) start refl

process_block-panicked_example :
    process_block tiny (stubs tiny) pcd node 1 (aggregate ∷ []) ≡ panicked
process_block-panicked_example =
    process_block-panicked tiny (stubs tiny) pcd tiny-WantsDigest node 1 (aggregate ∷ [])

-- Two blocks, a reorganisation, and one that is too deep.
abbrev visited : MixerNode tiny pcd
visited =
    let one = apply_block tiny (stubs tiny) pcd tt node 1 (aggregate ∷ []) in
    let two = apply_block tiny (stubs tiny) pcd tt one 2 [] in
    (handle_reorg tiny pcd (handle_reorg tiny pcd two 2).0 9).0

Reachable-Regular_example : Regular tiny (stubs tiny) pcd 2 visited
unfolding blocks_seen
Reachable-Regular_example =
    Reachable-Regular tiny (stubs tiny) pcd default_config
      (reorg _ 9 (reorg _ 2 (block _ tt 2 [] (block _ tt 1 (aggregate ∷ []) here))))
