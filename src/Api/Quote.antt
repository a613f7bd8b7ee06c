-- ===== src/Api/Quote.antt =====
-- The deposit address that `create_session` of api/http.rs quotes, and `receive_deposit` of
-- deposit_handler.rs.
use partymixrust.Prelude.{◌≡◌, ◌≢◌, ap, sym, ◌∙◌, subst, some, arith, Bytes, ok, err}
use partymixrust.ShieldedCsv.Platform.{Platform}
use partymixrust.ShieldedCsv.Primitives.{commit, zero_bytes}
use partymixrust.Wallet.{WalletState}
use partymixrust.Crypto.Pcd.{PcdBackend}
use partymixrust.Communication.{DepositPayload}
use partymixrust.Node.{MixerNode}
use partymixrust.Deposit.{DepositHandler, payment_rejected, receive_deposit}
use partymixrust.Deposit.Receive.{receive_deposit-rejected}
use partymixrust.Api.{CreateSessionRequest, CreateSessionResponse}
use partymixrust.Api.Http.{Hex, AppState, create_session}
use partymixrust.Api.Sessions.{Opened, Answered, create_session-Answered}

module _ (x : Platform) (hex : Hex) (b : PcdBackend x) where
  quoted :
      (state state' : AppState x) (text : CreateSessionRequest) (id : x.Uuid)
      (r : CreateSessionResponse x)
      → create_session x hex state text id ≡ (state', ok r)
      → r.mixer_deposit_address_commitment ≡ hex.encode (zero_bytes 32)
  quoted state state' text id r made =
      let opened : Opened x hex state text id state' r =
        subst (Answered x hex state text id) made (create_session-Answered x hex state text id) in
      ap (λ (a : CreateSessionResponse x). a.mixer_deposit_address_commitment) opened.response

  -- If decoding the text of 32 zero bytes gives them back, a deposit whose coin is at the address
  -- that create_session quotes is rejected and changes nothing, unless the handler's own address
  -- is 32 zero bytes.
  pub create_session-receive_deposit :
      (state state' : AppState x) (text : CreateSessionRequest) (id : x.Uuid)
      (r : CreateSessionResponse x) (self : DepositHandler) (node : MixerNode x b)
      (wallet : WalletState x) (user : Bytes) (payload : DepositPayload x) (id' : x.Uuid)
      (now : x.DateTime)
      → create_session x hex state text id ≡ (state', ok r)
      → hex.decode (hex.encode (zero_bytes 32)) ≡ some (zero_bytes 32)
      → hex.decode r.mixer_deposit_address_commitment ≡ some payload.coin.essence.address
      → commit x self.mixer_acct_id self.mixer_address_rand ≢ zero_bytes 32
      → receive_deposit x b self node wallet user payload id' now ≡ (wallet, err payment_rejected)
  create_session-receive_deposit state state' text id r self node wallet user payload id' now made
        law paid other =
      let zeros : some payload.coin.essence.address ≡ some (zero_bytes 32) =
        sym paid ∙ ap hex.decode (quoted state state' text id r made) ∙ law in
      let address : payload.coin.essence.address ≡ zero_bytes 32 = ground arith in
      receive_deposit-rejected x b self node user payload wallet id' now
        (λ a. other (sym a.addressed ∙ address))
