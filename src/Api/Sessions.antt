-- ===== src/Api/Sessions.antt =====
-- What the server of api/http.rs answers, and what its state holds, over any sequence of calls.
use partymixrust.Prelude.{
  ℕ, ◌≡◌, ◌≢◌, refl, ap, true, Bool-cases, ◌⊎◌, inl, inr, Option, none, some, Option-cases, List,
  [], ◌∷◌, map, arith, All, Bytes, length, ◌==◌, Result, ok, err,
}
use partymixrust.Prelude.Words.{wrapping_sum}
use partymixrust.Prelude.HashMap
use partymixrust.Prelude.HashMap.{HashMap, values, get-insert_self, get-insert_other, All-insert}
use partymixrust.ShieldedCsv.Platform.{Platform}
use partymixrust.ShieldedCsv.Primitives.{zero_bytes}
use partymixrust.Api.{CreateSessionRequest, CreateSessionResponse, summary_of, SessionRecord}
use partymixrust.Api.Http.{
  Hex, StatusCode, bad_request, not_implemented, AppState, open_session, admit, create_session,
  health, metrics, submit_deposit, submit_withdrawal, ApiCall, get_health, get_metrics,
  post_sessions, post_deposit, post_withdraw, ApiAnswer, health_answer, metrics_answer,
  session_answer, deposit_answer, withdraw_answer, route, serve,
}

module _ (x : Platform) (hex : Hex) where
  module _ (state : AppState x) (text : CreateSessionRequest) (id : x.Uuid) where
    -- The text is no hexadecimal, or not that of 32 bytes.
    abbrev pub IsMalformed : Type 0
    IsMalformed =
        (hex.decode text.user_id_hash ≡ none)
        ⊎ ((hash : Bytes) × (hex.decode text.user_id_hash ≡ some hash) × (length hash ≢ 32))

    -- A session has been opened, and nothing else has changed.
    pub record Opened (state' : AppState x) (r : CreateSessionResponse x) : Type 0 where
      pub hash : Bytes
      pub decoded : hex.decode text.user_id_hash ≡ some hash
      pub size : length hash ≡ 32
      pub stored :
          HashMap.get x.uuid_discrete id state'.api.sessions
          ≡ some (record { user_id_hash = hash; deposits = []; withdrawals = [] })
      pub others :
          (j : x.Uuid)
          → id ≢ j
          → HashMap.get x.uuid_discrete j state'.api.sessions
            ≡ HashMap.get x.uuid_discrete j state.api.sessions
      pub rest : state' ≡ record state { api = state'.api }
      pub response : r ≡ record {
        session_id = id;
        mixer_deposit_address_commitment = hex.encode (zero_bytes 32);
        config_summary = summary_of state.config;
      }

    abbrev pub Answered : AppState x × Result StatusCode (CreateSessionResponse x) → Type 0
    Answered (state', err e) = (state' ≡ state) × (e ≡ bad_request) × IsMalformed
    Answered (state', ok r) = Opened state' r

    admit-Answered :
        (o : Option Bytes) → hex.decode text.user_id_hash ≡ o → Answered (admit x hex state id o)
    unfolding admit open_session
    admit-Answered none e = (refl, refl, inl e)
    admit-Answered (some hash) e = elim (Bool-cases (length hash == 32)) [
      | inr other ↦ rw (other, admit) (refl, refl, inr (hash, e, ground arith))
      | inl fits ↦
          rw (fits, admit)
            (record {
              hash = hash;
              decoded = e;
              size = ground arith;
              stored = get-insert_self x.uuid_discrete id _ state.api.sessions;
              others = λ j ne. get-insert_other x.uuid_discrete id j _ state.api.sessions ne;
              rest = refl;
              response = refl;
            })
    ]

    -- A request for a session is refused as a bad request, and changes nothing, if its user hash
    -- is no hexadecimal text of 32 bytes; otherwise the new identifier has a session of that hash
    -- without deposits and withdrawals, every other session and the rest of the state stay, and
    -- the answer has the identifier, the text of 32 zero bytes as the deposit address and the
    -- summary of the configuration.
    pub create_session-Answered : Answered (create_session x hex state text id)
    unfolding create_session
    create_session-Answered = admit-Answered (hex.decode text.user_id_hash) refl

  -- The node's height is the given one, and the sessions have a hash of 32 bytes each and no deposit.
  pub record IsIdle (height : ℕ) (state : AppState x) : Type 0 where
    pub at_height : state.chain_height ≡ height
    pub no_deposits :
        All
          (λ (s : SessionRecord x). (s.deposits ≡ []) × (length s.user_id_hash ≡ 32))
          (values state.api.sessions)

  -- The answers that say nothing of deposits, withdrawals or the pool.
  abbrev pub SaysNothing : ℕ → ApiAnswer x → Type 0
  SaysNothing height (health_answer r) = (r.chain_height ≡ height) × (r.pool_solvency_ok ≡ true)
  SaysNothing height (metrics_answer r) = r ≡ record {
    pending_deposits = 0;
    pending_withdrawals = 0;
    total_liabilities = 0;
    pool_value = 0;
  }
  SaysNothing height (session_answer r) = Unit
  SaysNothing height (deposit_answer r) = r ≡ err not_implemented
  SaysNothing height (withdraw_answer r) = r ≡ err not_implemented

  pub none_pending :
      (ss : List (SessionRecord x))
      → All (λ (s : SessionRecord x). (s.deposits ≡ []) × (length s.user_id_hash ≡ 32)) ss
      → wrapping_sum (map (λ (s : SessionRecord x). length s.deposits) ss) 0 ≡ 0
  unfolding wrapping_sum
  none_pending [] h = refl
  none_pending (s ∷ ss) h = ground (arith, none_pending ss h.1, ap length h.0.0)

  create_session-IsIdle :
      (height : ℕ) (state : AppState x) (text : CreateSessionRequest) (id : x.Uuid)
      → IsIdle height state
      → IsIdle height (create_session x hex state text id).0
  unfolding create_session admit open_session
  create_session-IsIdle height state text id h =
      elim (Option-cases (hex.decode text.user_id_hash)) [
        | inl bad ↦ rw (bad, create_session) h
        | inr (hash, e) ↦ elim (Bool-cases (length hash == 32)) [
          | inr other ↦ rw (e, create_session) (rw (other, admit) h)
          | inl fits ↦
              rw (e, create_session)
                (rw (fits, admit)
                  (record {
                    at_height = h.at_height;
                    no_deposits =
                        All-insert x.uuid_discrete
                          (λ (s : SessionRecord x).
                            (s.deposits ≡ []) × (length s.user_id_hash ≡ 32))
                          id _ state.api.sessions (refl, ground arith) h.no_deposits;
                  }))
        ]
      ]

  pub route-IsIdle :
      (height : ℕ) (state : AppState x) (c : ApiCall x)
      → IsIdle height state
      → IsIdle height (route x hex state c).0 × SaysNothing height (route x hex state c).1
  unfolding route health metrics submit_deposit submit_withdrawal
  route-IsIdle height state get_health h = (h, (h.at_height, refl))
  route-IsIdle height state get_metrics h =
      (h, rw (none_pending (values state.api.sessions) h.no_deposits) refl)
  route-IsIdle height state (post_sessions text id) h =
      (create_session-IsIdle height state text id h, tt)
  route-IsIdle height state (post_deposit id req) h = (h, refl)
  route-IsIdle height state (post_withdraw id req) h = (h, refl)

  -- From a state whose sessions have hashes of 32 bytes and no deposits, any sequence of calls
  -- leaves such a state with the same height, health says that height and that the pool is
  -- solvent, metrics are zero, and the deposit and withdrawal routes answer that they are not
  -- implemented.
  pub serve-IsIdle :
      (height : ℕ) (state : AppState x) (cs : List (ApiCall x))
      → IsIdle height state
      → IsIdle height (serve x hex state cs).0 × All (SaysNothing height) (serve x hex state cs).1
  unfolding serve
  serve-IsIdle height state [] h = (h, tt)
  serve-IsIdle height state (c ∷ cs) h =
      let (h', a) = route-IsIdle height state c h in
      let (h'', as') = serve-IsIdle height (route x hex state c).0 cs h' in (h'', (a, as'))
