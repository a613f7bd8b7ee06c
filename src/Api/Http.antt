-- ===== src/Api/Http.antt =====
-- partymixrust/src/api/http.rs: the handlers, and the state that they share. Each handler takes a
-- lock once, so a run of the server is a sequence of calls. axum's routing and serde's JSON are left
-- out: a call is one of the routes with its parsed body. Main's state is the first.
use Prim.Native.String.{String}
use partymixrust.Prelude.{
  ℕ, true, Option, none, some, List, [], ◌∷◌, map, Bytes, length, ◌==◌, not, if◌then◌else◌, Result,
  ok, err,
}
use partymixrust.Prelude.Words.{wrapping_sum}
use partymixrust.Prelude.HashMap
use partymixrust.Prelude.HashMap.{HashMap, values}
use partymixrust.ShieldedCsv.Platform.{Platform}
use partymixrust.ShieldedCsv.Primitives.{zero_bytes}
use partymixrust.Types.{MixerConfig, default_config}
use partymixrust.Api.{
  CreateSessionRequest, CreateSessionResponse, summary_of, SubmitDepositRequest,
  SubmitDepositResponse, SubmitWithdrawalRequest, SubmitWithdrawalResponse, HealthResponse,
  MetricsResponse, ApiState, SessionRecord,
}

-- The crate hex: `decode` (`none` is its `Err`) and `encode`.
pub record Hex : Type 0 where
  pub decode : String → Option Bytes
  pub encode : Bytes → String

-- The two codes of the crate axum that the handlers answer with.
pub data StatusCode : Type 0 where
  bad_request not_implemented : StatusCode

module _ (x : Platform) where
  pub record AppState : Type 0 where
    pub config : MixerConfig
    pub api : ApiState x
    pub chain_height : ℕ

  -- The state that `main` builds.
  abbrev pub main_state : AppState
  main_state = record { config = default_config; api = record { sessions = [] }; chain_height = 0 }

  unfoldable pub health : AppState → HealthResponse
  health state = record {
    status = "ok";
    chain_height = state.chain_height;
    pool_solvency_ok = true;
  }

  unfoldable pub metrics : AppState → MetricsResponse
  unfolding wrapping_sum
  metrics state = record {
    pending_deposits =
        wrapping_sum (map (λ (s : SessionRecord x). length s.deposits) (values state.api.sessions))
          0;
    pending_withdrawals = 0;
    total_liabilities = 0;
    pool_value = 0;
  }

  -- `id` is the fresh `Uuid`.
  unfoldable pub open_session : AppState → Bytes → x.Uuid → AppState
  open_session state hash id = record state {
    api = record {
      sessions =
          HashMap.insert x.uuid_discrete id
            (record { user_id_hash = hash; deposits = []; withdrawals = [] }) state.api.sessions;
    };
  }

  module _ (hex : Hex) where
    -- After the hash has been decoded.
    unfoldable pub admit :
        AppState → x.Uuid → Option Bytes → AppState × Result StatusCode (CreateSessionResponse x)
    unfolding open_session
    admit state id none = (state, err bad_request)
    admit state id (some hash) = if not (length hash == 32) then (state, err bad_request) else (
      open_session state hash id,
      ok (record {
        session_id = id;
        mixer_deposit_address_commitment = hex.encode (zero_bytes 32);
        config_summary = summary_of state.config;
      }),
    )

    unfoldable pub create_session :
        AppState
        → CreateSessionRequest
        → x.Uuid
        → AppState × Result StatusCode (CreateSessionResponse x)
    unfolding admit
    create_session state req id = admit state id (hex.decode req.user_id_hash)

  unfoldable pub submit_deposit :
      AppState → x.Uuid → SubmitDepositRequest x → Result StatusCode (SubmitDepositResponse x)
  submit_deposit state session_id req = err not_implemented

  unfoldable pub submit_withdrawal :
      AppState → x.Uuid → SubmitWithdrawalRequest x → Result StatusCode (SubmitWithdrawalResponse x)
  submit_withdrawal state session_id req = err not_implemented

  -- A call by its route.
  pub data ApiCall : Type 0 where
    get_health get_metrics : ApiCall
    post_sessions : CreateSessionRequest → x.Uuid → ApiCall
    post_deposit : x.Uuid → SubmitDepositRequest x → ApiCall
    post_withdraw : x.Uuid → SubmitWithdrawalRequest x → ApiCall

  pub data ApiAnswer : Type 0 where
    health_answer : HealthResponse → ApiAnswer
    metrics_answer : MetricsResponse → ApiAnswer
    session_answer : Result StatusCode (CreateSessionResponse x) → ApiAnswer
    deposit_answer : Result StatusCode (SubmitDepositResponse x) → ApiAnswer
    withdraw_answer : Result StatusCode (SubmitWithdrawalResponse x) → ApiAnswer

  -- `router`: the handler of each route.
  unfoldable pub route : Hex → AppState → ApiCall → AppState × ApiAnswer
  unfolding health metrics create_session submit_deposit submit_withdrawal
  route hex state get_health = (state, health_answer (health state))
  route hex state get_metrics = (state, metrics_answer (metrics state))
  route hex state (post_sessions req id) =
      let (state', r) = create_session hex state req id in (state', session_answer r)
  route hex state (post_deposit id req) = (state, deposit_answer (submit_deposit state id req))
  route hex state (post_withdraw id req) = (state, withdraw_answer (submit_withdrawal state id req))

  -- The state after a sequence of calls, and their answers.
  unfoldable pub serve : Hex → AppState → List ApiCall → AppState × List ApiAnswer
  unfolding route
  serve hex state [] = (state, [])
  serve hex state (c ∷ cs) =
      let (state', a) = route hex state c in
      let (state'', answers) = serve hex state' cs in (state'', a ∷ answers)
