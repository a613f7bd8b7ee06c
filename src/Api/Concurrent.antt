-- ===== src/Api/Concurrent.antt =====
-- Concurrent requests to the server of api/http.rs: sequences of calls that differ in their order.
use partymixrust.Prelude.{◌≡◌, refl, ap, sym, ◌∙◌, Option, List, ◌∷◌, map, arith}
use partymixrust.Prelude.HashMap
use partymixrust.ShieldedCsv.Platform.{Platform}
use partymixrust.Api.{SessionRecord}
use partymixrust.Api.Http.{
  Hex, AppState, ApiCall, get_health, get_metrics, post_sessions, post_deposit, post_withdraw,
  serve,
}
use partymixrust.Api.Sessions.{IsIdle}
use partymixrust.Api.Service.{answer, opens, session_after, serve-Served}

module _ (x : Platform) where
  -- Both calls open a session, under one identifier.
  abbrev pub SameSession : ApiCall x → ApiCall x → Type 0
  SameSession (post_sessions req i) (post_sessions req' j) = i ≡ j
  SameSession (post_sessions req i) get_health = ⊥
  SameSession (post_sessions req i) get_metrics = ⊥
  SameSession (post_sessions req i) (post_deposit j body) = ⊥
  SameSession (post_sessions req i) (post_withdraw j body) = ⊥
  SameSession get_health d = ⊥
  SameSession get_metrics d = ⊥
  SameSession (post_deposit j body) d = ⊥
  SameSession (post_withdraw j body) d = ⊥

  -- The same calls in another order: neighbours change places, unless both open one session.
  pub data Reordered : List (ApiCall x) → List (ApiCall x) → Type 0 where
    unchanged : (cs : List (ApiCall x)) → Reordered cs cs
    later :
        (c : ApiCall x) (cs cs' : List (ApiCall x))
        → Reordered cs cs'
        → Reordered (c ∷ cs) (c ∷ cs')
    swapped :
        (c d : ApiCall x) (cs : List (ApiCall x))
        → ¬ SameSession c d
        → Reordered (c ∷ d ∷ cs) (d ∷ c ∷ cs)
    composed :
        (cs cs' cs'' : List (ApiCall x)) → Reordered cs cs' → Reordered cs' cs'' → Reordered cs cs''

module _ (x : Platform) (hex : Hex) where
  opens_comm :
      (id : x.Uuid) (c d : ApiCall x) (o : Option (SessionRecord x))
      → ¬ SameSession x c d
      → opens x hex id d (opens x hex id c o) ≡ opens x hex id c (opens x hex id d o)
  opens_comm id get_health d o apart = refl
  opens_comm id get_metrics d o apart = refl
  opens_comm id (post_deposit j body) d o apart = refl
  opens_comm id (post_withdraw j body) d o apart = refl
  opens_comm id (post_sessions req i) get_health o apart = refl
  opens_comm id (post_sessions req i) get_metrics o apart = refl
  opens_comm id (post_sessions req i) (post_deposit j body) o apart = refl
  opens_comm id (post_sessions req i) (post_withdraw j body) o apart = refl
  opens_comm id (post_sessions req i) (post_sessions req' j) o apart = ground arith

  session_after-Reordered :
      {cs cs' : List (ApiCall x)}
      → Reordered x cs cs'
      → (id : x.Uuid) (o : Option (SessionRecord x))
      → session_after x hex id cs o ≡ session_after x hex id cs' o
  session_after-Reordered (unchanged cs) id o = refl
  session_after-Reordered (later c cs cs' r) id o =
      session_after-Reordered r id (opens x hex id c o)
  session_after-Reordered (swapped c d cs apart) id o =
      ap (session_after x hex id cs) (opens_comm id c d o apart)
  session_after-Reordered (composed cs cs' cs'' r r') id o =
      session_after-Reordered r id o ∙ session_after-Reordered r' id o

  -- From a state whose sessions have hashes of 32 bytes and no deposits, calls that arrive in
  -- another order, in which no two requests for a session under one identifier change places,
  -- leave the same session under every identifier, and each call gets the answer that it gets in
  -- the other order.
  pub serve-Reordered :
      (state : AppState x) (cs cs' : List (ApiCall x))
      → IsIdle x hex state.chain_height state
      → Reordered x cs cs'
      → let (after, answers) = serve x hex state cs in
        let (after', answers') = serve x hex state cs' in
        ((id : x.Uuid)
          → HashMap.get x.uuid_discrete id after.api.sessions
            ≡ HashMap.get x.uuid_discrete id after'.api.sessions)
        × (answers ≡ map (answer x hex state.config state.chain_height) cs)
        × (answers' ≡ map (answer x hex state.config state.chain_height) cs')
  serve-Reordered state cs cs' h r =
      let one = serve-Served x hex state cs h in
      let other = serve-Served x hex state cs' h in
      (
        λ id. one.sessions id ∙ session_after-Reordered r id _ ∙ sym (other.sessions id),
        one.answers,
        other.answers,
      )
