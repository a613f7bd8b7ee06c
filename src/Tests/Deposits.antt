-- ===== src/Tests/Deposits.antt =====
-- Runs of the deposit handler.
use partymixrust.Prelude.{◌+◌, ◌≡◌, ◌⊎◌, refl, inl, [], ◌∷◌, arith, ok, Bytes}
use partymixrust.Prelude.HashMap
use partymixrust.ShieldedCsv.Primitives.{commit}
use partymixrust.ShieldedCsv.Payment.{on_chain_id}
use partymixrust.Types.{default_config}
use partymixrust.Wallet.{new_wallet}
use partymixrust.Wallet.Ledger.{IsLedger, accounts, credited}
use partymixrust.Crypto.Pcd.{mock_pcd_prefix, starts_with}
use partymixrust.Communication.{DepositPayload}
use partymixrust.Node.{new_node}
use partymixrust.Pool.{new_pool}
use partymixrust.Pool.Solvency.{owed, held}
use partymixrust.Deposit.{
  DepositHandler, new_deposit_handler, receive_deposit, consolidate_into_pool,
}
use partymixrust.Deposit.Receive.{
  IsAcceptable, receipt, held_coin, receive_deposit_credits, receive_deposit_twice,
}
use partymixrust.Deposit.Consolidate.{Unknown, TakenOut, consolidate_into_pool-cases}
use partymixrust.Tests.Data.{tiny, pcd, acct, opening, a_coin, node, user, wallet}

abbrev pub handler : DepositHandler
handler = new_deposit_handler (new_pool default_config) acct opening

-- The coin, with the given proof.
abbrev pub payload : Bytes → DepositPayload tiny
payload proof = record {
  session_id = 1;
  coin = a_coin;
  coin_proof = proof;
  address_opening_rand = [];
}

pub new_wallet_sound : IsLedger tiny 0 (new_wallet tiny)
unfolding HashMap.get
new_wallet_sound = record { sound = λ u. tt }

payload-IsAcceptable : IsAcceptable tiny pcd handler node user (payload mock_pcd_prefix)
unfolding new_node starts_with commit
payload-IsAcceptable = record {
  addressed = refl;
  unseen = λ m. m;
  historic = inl refl;
  proved = refl;
}

receive_deposit_credits_example :
    let (wallet', r) =
      receive_deposit tiny pcd handler node (new_wallet tiny) user (payload mock_pcd_prefix) 8 tt in
    (r ≡ ok (receipt tiny pcd handler node user (payload mock_pcd_prefix) 8))
    × (accounts tiny wallet' ≡ credited user 40 (accounts tiny (new_wallet tiny)))
    × (owed tiny wallet' ≡ owed tiny (new_wallet tiny) + 40)
    × (held tiny wallet' ≡ held tiny (new_wallet tiny) + 40)
    × IsLedger tiny 40 wallet'
receive_deposit_credits_example =
    receive_deposit_credits tiny pcd handler node user (payload mock_pcd_prefix) (new_wallet tiny) 8
      tt 0 new_wallet_sound (omega arith) payload-IsAcceptable

receive_deposit_twice_example :
    let (once, r) =
      receive_deposit tiny pcd handler node (new_wallet tiny) user (payload mock_pcd_prefix) 8 tt in
    let (twice, r') =
      receive_deposit tiny pcd handler node once user (payload mock_pcd_prefix) 9 tt in
    (r ≡ ok (receipt tiny pcd handler node user (payload mock_pcd_prefix) 8))
    × (r' ≡ ok (receipt tiny pcd handler node user (payload mock_pcd_prefix) 9))
    × (twice.unspent_coins
        ≡ held_coin tiny pcd handler node user (payload mock_pcd_prefix)
          ∷ held_coin tiny pcd handler node user (payload mock_pcd_prefix)
          ∷ [])
receive_deposit_twice_example =
    receive_deposit_twice tiny pcd handler node user (payload mock_pcd_prefix) (new_wallet tiny) 8 9
      tt tt payload-IsAcceptable

consolidate_into_pool-cases_example :
    let r = consolidate_into_pool tiny pcd handler node wallet (on_chain_id a_coin) in
    Unknown tiny pcd handler node wallet (on_chain_id a_coin) r
    ⊎ TakenOut tiny pcd handler node wallet (on_chain_id a_coin) r
consolidate_into_pool-cases_example =
    consolidate_into_pool-cases tiny pcd handler node wallet (on_chain_id a_coin)
