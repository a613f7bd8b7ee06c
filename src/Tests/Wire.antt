-- ===== src/Tests/Wire.antt =====
-- Messages between a user and the mixer, with a codec of length-prefixed fields.
use partymixrust.Prelude.{
  ℕ, zero, suc, ◌≡◌, refl, Option, none, some, [], ◌∷◌, ◌++◌, ◌>>=◌, Bytes, length, take, drop,
  drop-append, take-append,
}
use partymixrust.ShieldedCsv.Data.{Coin}
use partymixrust.Communication.{
  EncryptedMessage, MixerPayload, deposit, withdrawal_request, withdrawal_delivery, deposit_ack,
  error, ErrorCode, invalid_proof, insufficient_balance, rate_limited, batching_disabled,
  internal_error, Codec, wrap_payload,
}
use partymixrust.Mixer.Wire.{Cipher, Reads, Arrives, wrapped-Arrives, Exchanged, exchange-Exchanged}
use partymixrust.Tests.Data.{tiny, pcd, acct, opening, node, user, wallet}
use partymixrust.Tests.Deposits
use partymixrust.Tests.Withdrawals
use partymixrust.Tests.Service.{large, to_acct, wallet-Ready}

unfoldable put : Bytes → Bytes → Bytes
put bs rest = length bs ∷ (bs ++ rest)

abbrev get_number : Bytes → Option (ℕ × Bytes)
get_number [] = none
get_number (n ∷ s) = some (n, s)

unfoldable get : Bytes → Option (Bytes × Bytes)
get [] = none
get (n ∷ s) = some (take n s, drop n s)

get-put : (bs rest : Bytes) → get (put bs rest) ≡ some (bs, rest)
unfolding get put
get-put bs rest = rw (take-append, drop-append) refl

abbrev put_coin : Coin → Bytes → Bytes
put_coin c rest =
    c.essence.amount
    ∷ c.essence.idx.0
    ∷ c.essence.idx.1
    ∷ put c.essence.address (put c.tx_hash (put c.blockchain_loc (put c.nullifier_accum rest)))

abbrev get_coin : Bytes → Option (Coin × Bytes)
get_coin (amount ∷ i ∷ j ∷ s) = do
  address ← get s
  tx_hash ← get address.1
  loc ← get tx_hash.1
  nav ← get loc.1
  some (
    record {
      essence = record { address = address.0; amount = amount; idx = (i, j) };
      tx_hash = tx_hash.0;
      blockchain_loc = loc.0;
      nullifier_accum = nav.0;
    },
    nav.1,
  )
get_coin s = none

abbrev number_of : ErrorCode → ℕ
number_of invalid_proof = 0
number_of insufficient_balance = 1
number_of rate_limited = 2
number_of batching_disabled = 3
number_of internal_error = 4

abbrev code_of : ℕ → ErrorCode
code_of zero = invalid_proof
code_of (suc zero) = insufficient_balance
code_of (suc (suc zero)) = rate_limited
code_of (suc (suc (suc zero))) = batching_disabled
code_of (suc (suc (suc (suc n)))) = internal_error

code_of-number_of : (e : ErrorCode) → code_of (number_of e) ≡ e
code_of-number_of invalid_proof = refl
code_of-number_of insufficient_balance = refl
code_of-number_of rate_limited = refl
code_of-number_of batching_disabled = refl
code_of-number_of internal_error = refl

-- A tag, the session, and the rest of the payload.
abbrev put_payload : MixerPayload tiny → Bytes
put_payload (deposit p) =
    0 ∷ p.session_id ∷ put_coin p.coin (put p.coin_proof (put p.address_opening_rand []))
put_payload (withdrawal_request p) =
    1 ∷ p.session_id ∷ p.amount ∷ put p.destination_address (put p.destination_opening_rand [])
put_payload (withdrawal_delivery p) = 2 ∷ p.session_id ∷ put_coin p.coin (put p.coin_proof [])
put_payload (deposit_ack p) = 3 ∷ p.session_id ∷ p.deposit_id ∷ p.credited_amount ∷ []
put_payload (error p) = 4 ∷ p.session_id ∷ number_of p.code ∷ []

abbrev get_deposit : ℕ → Bytes → Option (MixerPayload tiny)
get_deposit id s = do
  c ← get_coin s
  proof ← get c.1
  rand ← get proof.1
  some (
      deposit (record {
        session_id = id;
        coin = c.0;
        coin_proof = proof.0;
        address_opening_rand = rand.0;
      }))

abbrev get_request : ℕ → Bytes → Option (MixerPayload tiny)
get_request id [] = none
get_request id (amount ∷ s) = do
  address ← get s
  rand ← get address.1
  some (
      withdrawal_request (record {
        session_id = id;
        amount = amount;
        destination_address = address.0;
        destination_opening_rand = rand.0;
      }))

abbrev get_delivery : ℕ → Bytes → Option (MixerPayload tiny)
get_delivery id s = do
  c ← get_coin s
  proof ← get c.1
  some (withdrawal_delivery (record { session_id = id; coin = c.0; coin_proof = proof.0 }))

abbrev get_ack : ℕ → Bytes → Option (MixerPayload tiny)
get_ack id (deposit_id ∷ amount ∷ s) =
    some
      (deposit_ack (record { session_id = id; deposit_id = deposit_id; credited_amount = amount }))
get_ack id s = none

abbrev get_error : ℕ → Bytes → Option (MixerPayload tiny)
get_error id [] = none
get_error id (n ∷ s) = some (error (record { session_id = id; code = code_of n }))

abbrev get_payload : Bytes → Option (MixerPayload tiny)
get_payload (zero ∷ id ∷ s) = get_deposit id s
get_payload (suc zero ∷ id ∷ s) = get_request id s
get_payload (suc (suc zero) ∷ id ∷ s) = get_delivery id s
get_payload (suc (suc (suc zero)) ∷ id ∷ s) = get_ack id s
get_payload (suc (suc (suc (suc n))) ∷ id ∷ s) = get_error id s
get_payload s = none

abbrev codec : Codec tiny
codec = record { to_vec = put_payload; from_slice = get_payload }

codec-Reads : Reads tiny codec
codec-Reads (deposit p) = simp get-put
codec-Reads (withdrawal_request p) = simp get-put
codec-Reads (withdrawal_delivery p) = simp get-put
codec-Reads (deposit_ack p) = refl
codec-Reads (error p) = rw code_of-number_of refl

abbrev rest_of : Bytes → Option Bytes
rest_of [] = none
rest_of (k ∷ bs) = some bs

-- Each direction puts its own byte in front.
abbrev marked : ℕ → Cipher
marked k = record { encrypt = λ bs. k ∷ bs; decrypt = rest_of; decrypts = λ bs. refl }

abbrev request_message : EncryptedMessage
request_message = record (wrap_payload tiny codec (withdrawal_request to_acct) (marked 7).encrypt) {
  version = 2;
  nonce = 1 ∷ [];
}

wrapped-Arrives_example :
    Arrives tiny codec codec-Reads pcd (marked 7) (withdrawal_request to_acct) request_message
unfolding wrap_payload
wrapped-Arrives_example =
    wrapped-Arrives tiny codec codec-Reads pcd (marked 7) (withdrawal_request to_acct)
      request_message refl

exchange-Exchanged_example :
    Exchanged tiny codec codec-Reads
      (marked 7)
      (marked 8)
      Deposits.handler
      Withdrawals.handler
      node
      wallet
      user
      large
      to_acct
      11
      13
      tt
      tt
      []
      node
      acct
      opening
exchange-Exchanged_example =
    exchange-Exchanged tiny codec codec-Reads (marked 7) (marked 8) Deposits.handler
      Withdrawals.handler node wallet user large to_acct 11 13 tt tt [] node acct opening 40
      wallet-Ready
