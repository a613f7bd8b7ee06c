-- ===== src/ShieldedCsv/Platform.antt =====
-- What the program takes from outside the repository: the crates secp256k1, uuid and chrono, the
-- standard library's `DefaultHasher`, and the text that the derived `Debug` instances print.
use partymixrust.Prelude.{ℕ, Option, Bytes}
use partymixrust.ShieldedCsv.Data.{Transaction}

pub record Platform : Type 1 where
  -- `secp256k1::XOnlyPublicKey`
  pub PublicKey : Type 0
  pub pk_discrete : Discrete PublicKey
  pub serialize : PublicKey → Bytes
  -- `secp256k1::Message::from_digest_slice`; `none` is its `Err`
  pub Message : Type 0
  pub from_digest_slice : Bytes → Option Message
  -- `DefaultHasher::new`, one `hash` of a slice, and `finish`
  pub default_hash : Bytes → ℕ
  -- the bytes of the `format!` in `Transaction::hash`, from the randomness and the transaction
  pub debug_tx : Bytes → Transaction PublicKey → Bytes
  -- `uuid::Uuid`
  pub Uuid : Type 0
  pub uuid_discrete : Discrete Uuid
  pub nil_uuid : Uuid
  -- `chrono::DateTime<Utc>`
  pub DateTime : Type 0
