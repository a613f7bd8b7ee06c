-- ===== src/Mixer/Wire.antt =====
-- The payloads of communication.rs on their way between a user and the mixer, and the flow of
-- Mixer/Flow with its messages wrapped, sent and read.
use partymixrust.Prelude.{ℕ, ◌≡◌, refl, ◌↔◌, Option, some, Bytes, ok, ◌>>=◌}
use partymixrust.ShieldedCsv.Platform.{Platform}
use partymixrust.Crypto.Pcd.{PcdBackend, mock_pcd}
use partymixrust.Communication.{
  EncryptedMessage, DepositPayload, WithdrawalRequestPayload, WithdrawalDeliveryPayload,
  MixerPayload, deposit, withdrawal_request, withdrawal_delivery, deposit_ack, error, Codec,
  wrap_payload, unwrap_payload,
}
use partymixrust.Node.{MixerNode, accept_payment}
use partymixrust.Wallet.{WalletState}
use partymixrust.Deposit.{DepositHandler, decode_payload}
use partymixrust.Withdrawal.{WithdrawalHandler, build_delivery_payload, decode_request}
use partymixrust.Mixer.Flow.{Ready, Delivered, flow-Delivered}

-- What a caller brings for one direction: an encryption, and the decryption that undoes it.
pub record Cipher : Type 0 where
  pub encrypt : Bytes → Bytes
  pub decrypt : Bytes → Option Bytes
  pub decrypts : (bs : Bytes) → decrypt (encrypt bs) ≡ some bs

module _ (x : Platform) where
  decode_payload-deposit :
      (b : PcdBackend x) (m : MixerPayload x) (p : DepositPayload x)
      → decode_payload x b m ≡ some p
      → m ≡ deposit p
  unfolding decode_payload
  decode_payload-deposit b (deposit q) p h = cc
  decode_payload-deposit b (withdrawal_request q) p h = cc
  decode_payload-deposit b (withdrawal_delivery q) p h = cc
  decode_payload-deposit b (deposit_ack q) p h = cc
  decode_payload-deposit b (error q) p h = cc

  decode_request-request :
      (m : MixerPayload x) (r : WithdrawalRequestPayload x)
      → decode_request x m ≡ some r
      → m ≡ withdrawal_request r
  unfolding decode_request
  decode_request-request (deposit q) r h = cc
  decode_request-request (withdrawal_request q) r h = cc
  decode_request-request (withdrawal_delivery q) r h = cc
  decode_request-request (deposit_ack q) r h = cc
  decode_request-request (error q) r h = cc

  -- `from_slice` reads what `to_vec` writes, as serde's derived instances do.
  abbrev pub Reads : Codec x → Type 0
  Reads codec = (m : MixerPayload x) → codec.from_slice (codec.to_vec m) ≡ some m

  module _ (codec : Codec x) (reads : Reads codec) where
    -- What arrives, and what the two handlers of the mixer read from it.
    pub record Arrives (b : PcdBackend x) (c : Cipher) (m : MixerPayload x) (msg : EncryptedMessage)
        : Type 0 where
      pub payload : unwrap_payload x codec msg c.decrypt ≡ some m
      pub as_deposit :
          (p : DepositPayload x)
          → ((unwrap_payload x codec msg c.decrypt >>= decode_payload x b) ≡ some p)
            ↔ (m ≡ deposit p)
      pub as_request :
          (r : WithdrawalRequestPayload x)
          → ((unwrap_payload x codec msg c.decrypt >>= decode_request x) ≡ some r)
            ↔ (m ≡ withdrawal_request r)

    unwrap-wrap :
        (c : Cipher) (m : MixerPayload x) (msg : EncryptedMessage)
        → msg.ciphertext ≡ (wrap_payload x codec m c.encrypt).ciphertext
        → unwrap_payload x codec msg c.decrypt ≡ some m
    unfolding wrap_payload unwrap_payload
    unwrap-wrap c m msg h = rw (h, c.decrypts, reads) refl

    -- With a codec that reads what it writes and a decryption that undoes the encryption, a
    -- message with the ciphertext of a wrapped payload, whatever its other fields are, is
    -- unwrapped to that payload; the deposit handler reads a deposit from it exactly when the
    -- payload is that deposit, and the withdrawal handler a request exactly when the payload is
    -- that request.
    pub wrapped-Arrives :
        (b : PcdBackend x) (c : Cipher) (m : MixerPayload x) (msg : EncryptedMessage)
        → msg.ciphertext ≡ (wrap_payload x codec m c.encrypt).ciphertext
        → Arrives b c m msg
    unfolding decode_payload decode_request
    wrapped-Arrives b c m msg h =
        let e = unwrap-wrap c m msg h in
        record {
          payload = e;
          as_deposit = λ p. rw e (decode_payload-deposit b m p, λ same. rw same refl);
          as_request = λ r. rw e (decode_request-request m r, λ same. rw same refl);
        }

    module _ (to_mixer to_user : Cipher) (deposits : DepositHandler)
        (withdrawals : WithdrawalHandler) (node : MixerNode x (mock_pcd x)) (w : WalletState x)
        (user : Bytes) (payload : DepositPayload x) (request : WithdrawalRequestPayload x)
        (id id' : x.Uuid) (now now' : x.DateTime) (draw : Bytes)
        (recipient : MixerNode x (mock_pcd x)) (acct opening : Bytes) where
      abbrev Flow : Type 0
      Flow =
          Delivered x deposits withdrawals node w user payload request id id' now now' draw
            recipient acct opening

      -- What the mixer, and then the user, get out of a payload that is wrapped for them.
      abbrev mixer_reads : MixerPayload x → Option (MixerPayload x)
      mixer_reads m =
          unwrap_payload x codec (wrap_payload x codec m to_mixer.encrypt) to_mixer.decrypt

      abbrev user_reads : MixerPayload x → Option (MixerPayload x)
      user_reads m = unwrap_payload x codec (wrap_payload x codec m to_user.encrypt) to_user.decrypt

      pub record Exchanged : Type 0 where
        pub deposit_read :
            (mixer_reads (deposit payload) >>= decode_payload x (mock_pcd x)) ≡ some payload
        pub request_read :
            (mixer_reads (withdrawal_request request) >>= decode_request x) ≡ some request
        pub flow : Flow
        pub delivery : WithdrawalDeliveryPayload x
        pub delivery_read :
            user_reads (build_delivery_payload x flow.delivery request.session_id)
            ≡ some (withdrawal_delivery delivery)
        pub session : delivery.session_id ≡ request.session_id
        pub payment :
            accept_payment x (mock_pcd x) recipient delivery.coin delivery.coin_proof acct opening
            ≡ ok request.amount

      -- With the backend of mock.rs, a codec that reads what it writes and decryptions that undo
      -- the encryptions, the mixer reads an acceptable deposit and a request from their wrapped
      -- messages, the deposit into a sound wallet with a primary account, whose credited sum it
      -- keeps within u64, is credited, the withdrawal that the deposit's amount covers with the
      -- fee is queued and processed, and the user, to whom the request is addressed, whose
      -- history has the node's accumulator value and whose wallet has no coin with the identifier
      -- of deliveries, reads from the wrapped delivery a coin under the request's session and
      -- accepts it at the requested amount.
      pub exchange-Exchanged :
          (bound : ℕ)
          → Ready x deposits withdrawals node w user payload request id id' now now' draw recipient
              acct opening bound
          → Exchanged
      unfolding build_delivery_payload
      exchange-Exchanged bound s =
          let f : Flow =
            flow-Delivered x deposits withdrawals node w user payload request id id' now now' draw
              recipient acct opening bound s in
          record {
            deposit_read =
                ((wrapped-Arrives (mock_pcd x) to_mixer _ _ refl).as_deposit payload).1 refl;
            request_read =
                ((wrapped-Arrives (mock_pcd x) to_mixer _ _ refl).as_request request).1 refl;
            flow = f;
            delivery = record {
              session_id = request.session_id;
              coin = f.delivery.coin;
              coin_proof = f.delivery.coin_proof;
            };
            delivery_read = unwrap-wrap to_user _ _ refl;
            session = refl;
            payment = f.payment;
          }
