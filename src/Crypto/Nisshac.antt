-- ===== src/Crypto/Nisshac.antt =====
-- partymixrust/src/crypto/nisshac.rs: the interface of a NISSHAC backend and the fixed message.
use Prim.Native.String
use Prim.Native.String.{String}
use partymixrust.Prelude.{
  ℕ, Bool, Option, none, some, List, Bytes, Result, Outcome, returned, panicked,
}
use partymixrust.Prelude.Text.{ascii}
use partymixrust.ShieldedCsv.Data.{Signature, SigCommitment}
use partymixrust.ShieldedCsv.Platform.{Platform}

pub data NisshacError : Type 0 where
  failed : String → NisshacError

-- `to_string` of the error.
abbrev pub nisshac_error_text : NisshacError → String
nisshac_error_text (failed s) = String.◌++◌ "NISSHAC error: " s

pub record NisshacBackend (x : Platform) : Type 1 where
  pub SecretKey : Type 0
  pub Sig : Type 0
  pub keygen : SecretKey × x.PublicKey
  pub sign_to_contract :
      SecretKey → x.Message → Bytes → Result NisshacError (Sig × SigCommitment × Bytes)
  pub aggregate : List (Sig × x.PublicKey × x.Message) → Result NisshacError Signature
  pub verify_aggregate : Signature → List (x.PublicKey × x.Message) → Result NisshacError Bool
  pub commit_retrieve : Signature → ℕ → SigCommitment
  pub commit_verify : SigCommitment → Bytes → x.PublicKey → Result NisshacError Bool

-- `b"Shielded CSV: state update"`
abbrev pub state_update_tag : Bytes
state_update_tag = ascii "Shielded CSV: state update"

abbrev pub expect {ℓ} : {A : Type ℓ} → Option A → Outcome A
expect none = panicked
expect (some a) = returned a

unfoldable pub state_update_message : (x : Platform) → Outcome x.Message
state_update_message x = expect (x.from_digest_slice state_update_tag)
