-- ===== src/Api/Service.antt =====
-- The server of api/http.rs against a description of it that keeps no table: what each call is
-- answered, and which session an identifier has after the calls.
use mathlib.Core.Logic.{ite}
use partymixrust.Prelude.{
  ℕ, ◌≡◌, refl, ap, ap₂, ◌∙◌, true, Bool-cases, ◌⊎◌, inl, inr, Option, none, some, Option-cases,
  List, [], ◌∷◌, map, arith, Bytes, length, ◌==◌, guard, ◌>>=◌, ◌>>◌, ok, err,
}
use partymixrust.Prelude.HashMap
use partymixrust.Prelude.HashMap.{HashMap, values, get-insert}
use partymixrust.ShieldedCsv.Platform.{Platform}
use partymixrust.ShieldedCsv.Primitives.{zero_bytes}
use partymixrust.Types.{MixerConfig}
use partymixrust.Api.{CreateSessionRequest, CreateSessionResponse, summary_of, SessionRecord}
use partymixrust.Api.Http.{
  Hex, bad_request, not_implemented, AppState, open_session, admit, create_session, health, metrics,
  submit_deposit, submit_withdrawal, ApiCall, get_health, get_metrics, post_sessions, post_deposit,
  post_withdraw, ApiAnswer, health_answer, metrics_answer, session_answer, deposit_answer,
  withdraw_answer, route, serve,
}
use partymixrust.Api.Sessions.{IsIdle, none_pending, route-IsIdle}

-- The hash that a request names: its text is the hexadecimal text of 32 bytes.
abbrev pub valid_hash : Hex → CreateSessionRequest → Option Bytes
valid_hash hex req = do hash ← hex.decode req.user_id_hash; guard (length hash == 32); some hash

module _ (x : Platform) (hex : Hex) where
  abbrev pub opened_answer : MixerConfig → x.Uuid → CreateSessionResponse x
  opened_answer config id = record {
    session_id = id;
    mixer_deposit_address_commitment = hex.encode (zero_bytes 32);
    config_summary = summary_of config;
  }

  abbrev new_session : Bytes → SessionRecord x
  new_session hash = record { user_id_hash = hash; deposits = []; withdrawals = [] }

  -- The answer to a call: no session plays a part in it.
  abbrev pub answer : MixerConfig → ℕ → ApiCall x → ApiAnswer x
  answer config height get_health =
      health_answer (record { status = "ok"; chain_height = height; pool_solvency_ok = true })
  answer config height get_metrics = metrics_answer (record {
    pending_deposits = 0;
    pending_withdrawals = 0;
    total_liabilities = 0;
    pool_value = 0;
  })
  answer config height (post_sessions req id) = elim (valid_hash hex req) [
    | none ↦ session_answer (err bad_request)
    | some hash ↦ session_answer (ok (opened_answer config id))
  ]
  answer config height (post_deposit id req) = deposit_answer (err not_implemented)
  answer config height (post_withdraw id req) = withdraw_answer (err not_implemented)

  -- The session under `id` after a call, from the one before.
  abbrev pub opens : x.Uuid → ApiCall x → Option (SessionRecord x) → Option (SessionRecord x)
  opens id (post_sessions req j) o = elim (valid_hash hex req) [
    | none ↦ o
    | some hash ↦ ite (x.uuid_discrete j id) (some (new_session hash)) o
  ]
  opens id get_health o = o
  opens id get_metrics o = o
  opens id (post_deposit j req) o = o
  opens id (post_withdraw j req) o = o

  abbrev pub session_after :
      x.Uuid → List (ApiCall x) → Option (SessionRecord x) → Option (SessionRecord x)
  session_after id [] o = o
  session_after id (c ∷ cs) o = session_after id cs (opens id c o)

  create_session-cases :
      (state : AppState x) (req : CreateSessionRequest) (id : x.Uuid)
      → ((valid_hash hex req ≡ none)
          × (create_session x hex state req id ≡ (state, err bad_request)))
        ⊎ ((hash : Bytes) × (valid_hash hex req ≡ some hash)
            × (create_session x hex state req id
                ≡ (open_session x state hash id, ok (opened_answer state.config id))))
  unfolding create_session admit
  create_session-cases state req id = elim (Option-cases (hex.decode req.user_id_hash)) [
    | inl bad ↦ inl (rw (bad, ◌>>=◌) refl, rw (bad, create_session) refl)
    | inr (hash, e) ↦ elim (Bool-cases (length hash == 32)) [
      | inl fits ↦ inr (hash, ground arith, ground arith)
      | inr other ↦ inl (ground arith, ground arith)
    ]
  ]

  -- What one call does.
  record Routed (state : AppState x) (c : ApiCall x) (r : AppState x × ApiAnswer x) : Type 0 where
    answered : r.1 ≡ answer state.config state.chain_height c
    sessions :
        (id : x.Uuid)
        → HashMap.get x.uuid_discrete id r.0.api.sessions
          ≡ opens id c (HashMap.get x.uuid_discrete id state.api.sessions)
    config : r.0.config ≡ state.config
    height : r.0.chain_height ≡ state.chain_height

  route-Routed :
      (state : AppState x) (c : ApiCall x)
      → IsIdle x hex state.chain_height state
      → Routed state c (route x hex state c)
  unfolding route health metrics submit_deposit submit_withdrawal open_session
  route-Routed state get_health h = record {
    answered = refl;
    sessions = λ id. refl;
    config = refl;
    height = refl;
  }
  route-Routed state get_metrics h = record {
    answered = rw (none_pending x hex (values state.api.sessions) h.no_deposits) refl;
    sessions = λ id. refl;
    config = refl;
    height = refl;
  }
  route-Routed state (post_sessions req j) h = elim (create_session-cases state req j) [
    | inl (bad, e) ↦ rw e (record {
      answered = rw (bad, answer) refl;
      sessions = λ id. rw (bad, opens) refl;
      config = refl;
      height = refl;
    })
    | inr (hash, good, e) ↦ rw e (record {
      answered = rw (good, answer) refl;
      sessions = λ id.
          rw (good, opens) (get-insert x.uuid_discrete j id (new_session hash) state.api.sessions);
      config = refl;
      height = refl;
    })
  ]
  route-Routed state (post_deposit j req) h = record {
    answered = refl;
    sessions = λ id. refl;
    config = refl;
    height = refl;
  }
  route-Routed state (post_withdraw j req) h = record {
    answered = refl;
    sessions = λ id. refl;
    config = refl;
    height = refl;
  }

  -- What the calls do.
  pub record Served (state : AppState x) (cs : List (ApiCall x))
      (r : AppState x × List (ApiAnswer x)) : Type 0 where
    pub answers : r.1 ≡ map (answer state.config state.chain_height) cs
    pub sessions :
        (id : x.Uuid)
        → HashMap.get x.uuid_discrete id r.0.api.sessions
          ≡ session_after id cs (HashMap.get x.uuid_discrete id state.api.sessions)
    pub config : r.0.config ≡ state.config
    pub height : r.0.chain_height ≡ state.chain_height

  -- From a state whose sessions have hashes of 32 bytes and no deposits, any sequence of calls is
  -- answered one by one as its text alone says, from the configuration and the height of that
  -- state: health is well, metrics are zero, a session is opened or refused, deposits and
  -- withdrawals are not implemented; afterwards each identifier has the session that the last
  -- request opened under it, or the one from before, and the configuration and the height are the
  -- same.
  pub serve-Served :
      (state : AppState x) (cs : List (ApiCall x))
      → IsIdle x hex state.chain_height state
      → Served state cs (serve x hex state cs)
  unfolding serve
  serve-Served state [] h = record {
    answers = refl;
    sessions = λ id. refl;
    config = refl;
    height = refl;
  }
  serve-Served state (c ∷ cs) h =
      let one = route-Routed state c h in
      let state' = (route x hex state c).0 in
      let idle = (route-IsIdle x hex state.chain_height state c h).0 in
      let rest =
        serve-Served state' cs (record { at_height = refl; no_deposits = idle.no_deposits }) in
      record {
        answers =
            ap₂ ◌∷◌ one.answered
              (rest.answers ∙ ap₂ (λ k n. map (answer k n) cs) one.config one.height);
        sessions = λ id. rest.sessions id ∙ ap (session_after id cs) (one.sessions id);
        config = rest.config ∙ one.config;
        height = rest.height ∙ one.height;
      }
