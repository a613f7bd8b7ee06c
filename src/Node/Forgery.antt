-- ===== src/Node/Forgery.antt =====
-- `accept_payment` of mixer_node.rs with the backend of mock.rs that main.rs gives the node.
use partymixrust.Prelude.{◌≡◌, refl, Bool, Result, ok, ℕ, arith, Bytes}
use partymixrust.ShieldedCsv.Data.{Coin}
use partymixrust.ShieldedCsv.Platform.{Platform}
use partymixrust.ShieldedCsv.Payment.{on_chain_id}
use partymixrust.Crypto.Pcd.{mock_pcd}
use partymixrust.Crypto.Pcd.Forgery.{IsMarked, starts_with_iff}
use partymixrust.Node.{MixerNode, accept_payment}
use partymixrust.Node.Blocks.{Acceptable, accept_payment_iff}

-- The coin at another amount.
abbrev pub revalue : ℕ → Coin → Coin
revalue n c = record c { essence = record c.essence { amount = n } }

ok_injective : {E : Type 0} {a b : Bool} → ◌≡◌ {A = Result E Bool} (ok a) (ok b) → a ≡ b
ok_injective h = ground arith

module _ (x : Platform) (self : MixerNode x (mock_pcd x)) (c : Coin) (proof acct rand : Bytes) where
  pub Acceptable-IsMarked : Acceptable x (mock_pcd x) self c proof acct rand → IsMarked proof
  Acceptable-IsMarked a = (starts_with_iff proof).0 (ok_injective a.proved)

  Acceptable-revalue :
      (n : ℕ)
      → Acceptable x (mock_pcd x) self c proof acct rand
      → Acceptable x (mock_pcd x) self (revalue n c) proof acct rand
  unfolding on_chain_id
  Acceptable-revalue n a = record {
    addressed = a.addressed;
    unseen = a.unseen;
    historic = a.historic;
    proved = a.proved;
  }

  -- With the backend of mock.rs, a coin that is accepted with a proof is accepted with the same
  -- proof at any other amount, and the proof begins with the mock's marker.
  pub accept_payment-revalue :
      (n m : ℕ)
      → accept_payment x (mock_pcd x) self c proof acct rand ≡ ok n
      → IsMarked proof × (accept_payment x (mock_pcd x) self (revalue m c) proof acct rand ≡ ok m)
  accept_payment-revalue n m h =
      let (a, e) = (accept_payment_iff x (mock_pcd x) self c proof acct rand n).0 h in
      (
        Acceptable-IsMarked a,
        (accept_payment_iff x (mock_pcd x) self (revalue m c) proof acct rand m).1
            (Acceptable-revalue m a, refl),
      )
