-- ===== src/Crypto/Pcd.antt =====
-- partymixrust/src/crypto/pcd.rs: the interface of a PCD backend, and `MockPcd` of mock.rs.
pub mod Forgery
use Prim.Native.String
use Prim.Native.String.{String}
use partymixrust.Prelude.{Bool, true, false, ◌&&◌, List, [], ◌∷◌, Bytes, ◌==◌, Result, ok}
use partymixrust.Prelude.Text.{ascii}
use partymixrust.ShieldedCsv.Data.{EdgeLabel, LocalInput, Coin, coin}
use partymixrust.ShieldedCsv.Platform.{Platform}

pub data PcdError : Type 0 where
  prove_failed verify_failed : String → PcdError

-- `to_string` of the error.
abbrev pub pcd_error_text : PcdError → String
pcd_error_text (prove_failed s) = String.◌++◌ "proving failed: " s
pcd_error_text (verify_failed s) = String.◌++◌ "verification failed: " s

pub record PcdBackend (x : Platform) : Type 1 where
  pub ProvKey : Type 0
  pub VerKey : Type 0
  pub keygen : ProvKey × VerKey
  pub prove :
      ProvKey
      → EdgeLabel x.PublicKey
      → LocalInput x.PublicKey
      → List (EdgeLabel x.PublicKey)
      → List Bytes
      → Result PcdError Bytes
  pub verify : VerKey → EdgeLabel x.PublicKey → Bytes → Result PcdError Bool

-- `b"MOCK_PCD_PROOF"`
abbrev pub mock_pcd_prefix : Bytes
mock_pcd_prefix = ascii "MOCK_PCD_PROOF"

-- `<[u8]>::starts_with`
unfoldable pub starts_with : Bytes → Bytes → Bool
starts_with bs [] = true
starts_with [] (p ∷ ps) = false
starts_with (b ∷ bs) (p ∷ ps) = b == p && starts_with bs ps

abbrev pub mock_pcd : (x : Platform) → PcdBackend x
mock_pcd x = record {
  ProvKey = Unit;
  VerKey = Unit;
  keygen = (tt, tt);
  prove = λ _ _ _ _ _. ok mock_pcd_prefix;
  verify = λ _ _ proof. ok (starts_with proof mock_pcd_prefix);
}

-- `PCD` of primitives.rs: its keys have no content, and its proofs are the mock's.
unfoldable pub pcd_keygen : Unit {0} × Unit {0}
pcd_keygen = (tt, tt)

module _ (x : Platform) where
  unfoldable pub pcd_prove :
      Unit {0}
      → EdgeLabel x.PublicKey
      → LocalInput x.PublicKey
      → List (EdgeLabel x.PublicKey)
      → List Bytes
      → Bytes
  pcd_prove prk z w_loc z_in proofs_in = mock_pcd_prefix

  unfoldable pub pcd_verify : Unit {0} → EdgeLabel x.PublicKey → Bytes → Bool
  unfolding starts_with
  pcd_verify vk z proof = starts_with proof mock_pcd_prefix

  -- `verify_coin_proof` of wallet_state.rs; it does not read the key that it is given.
  unfoldable pub verify_coin_proof : Unit {0} → Coin → Bytes → Bool
  unfolding pcd_verify
  verify_coin_proof vk c proof = pcd_verify tt (coin c) proof
