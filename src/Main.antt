-- ===== src/Main.antt =====
-- partymixrust/src/main.rs: what the program builds before it serves, and how it then answers. The
-- node and the pool manager are built and given to nothing.
use partymixrust.Prelude.{◌≡◌, refl, List, map}
use partymixrust.ShieldedCsv.Platform.{Platform}
use partymixrust.Types.{default_config}
use partymixrust.Wallet.{new_wallet}
use partymixrust.Crypto.Pcd.{mock_pcd}
use partymixrust.Node.{MixerNode, new_node}
use partymixrust.Pool.{PoolManager, new_pool}
use partymixrust.Api.Http.{Hex, AppState, main_state, ApiCall, serve}
use partymixrust.Api.Service.{answer, serve-Served}

module _ (x : Platform) where
  -- The values that are alive when the server starts.
  pub record Program : Type 0 where
    pub node : MixerNode x (mock_pcd x)
    pub pool : PoolManager
    pub state : AppState x

  abbrev pub main : Program
  main = record {
    node = new_node x (mock_pcd x) default_config (new_wallet x);
    pool = new_pool default_config;
    state = main_state x;
  }

  -- Whatever calls come, each is answered from the default configuration and the height zero.
  main_answers :
      (hex : Hex) (cs : List (ApiCall x))
      → (serve x hex main.state cs).1 ≡ map (answer x hex default_config 0) cs
  main_answers hex cs =
      (serve-Served x hex main.state cs (record { at_height = refl; no_deposits = tt })).answers
