-- ===== src/Tests/Sessions.antt =====
-- Runs of the server, with a crate hex that knows one text.
use partymixrust.Prelude.{
  ◌≡◌, refl, some, none, [], ◌∷◌, List, err, bytes_discrete, same, if◌then◌else◌,
}
use partymixrust.Prelude.Text.{ascii}
use partymixrust.ShieldedCsv.Primitives.{commit, hash, zero_bytes}
use partymixrust.Prelude.Digits.{to_le_bytes}
use partymixrust.Wallet.{new_wallet}
use partymixrust.Crypto.Pcd.{mock_pcd_prefix}
use partymixrust.Communication.{DepositPayload}
use partymixrust.Deposit.{payment_rejected, receive_deposit}
use partymixrust.Api.{CreateSessionRequest, summary_of}
use partymixrust.Api.Http.{
  Hex, main_state, open_session, admit, create_session, ApiCall, get_health, get_metrics,
  post_sessions, serve,
}
use partymixrust.Api.Service.{Served, serve-Served}
use partymixrust.Api.Quote.{create_session-receive_deposit}
use partymixrust.Tests.Data.{tiny, pcd, a_coin, node, user}
use partymixrust.Tests.Deposits.{handler, payload}

-- "zeros" for 32 zero bytes.
abbrev hex : Hex
hex = record {
  decode =
      λ s. if same (bytes_discrete (ascii s) (ascii "zeros")) then some (zero_bytes 32) else none;
  encode = λ bs. "zeros";
}

abbrev text : CreateSessionRequest
text = record { user_id_hash = "zeros" }

-- The second session is refused.
abbrev requests : List (ApiCall tiny)
requests =
    post_sessions text 3
    ∷ get_metrics
    ∷ post_sessions (record { user_id_hash = "x" }) 4
    ∷ get_health
    ∷ []

serve-Served_example :
    Served tiny hex (main_state tiny) requests (serve tiny hex (main_state tiny) requests)
serve-Served_example =
    serve-Served tiny hex (main_state tiny) requests (record { at_height = refl; no_deposits = tt })

-- A coin at the quoted address.
abbrev paid : DepositPayload tiny
paid = record (payload mock_pcd_prefix) {
  coin = record a_coin { essence = record a_coin.essence { address = zero_bytes 32 } };
}

create_session-receive_deposit_example :
    receive_deposit tiny pcd handler node (new_wallet tiny) user paid 8 tt
    ≡ (new_wallet tiny, err payment_rejected)
unfolding create_session admit open_session summary_of commit hash to_le_bytes bytes_discrete
create_session-receive_deposit_example =
    create_session-receive_deposit tiny hex pcd (main_state tiny)
      (open_session tiny (main_state tiny) (zero_bytes 32) 3) text 3
      (record {
        session_id = 3;
        mixer_deposit_address_commitment = "zeros";
        config_summary = summary_of (main_state tiny).config;
      })
      handler node (new_wallet tiny) user paid 8 tt refl refl refl (λ e. cc)
