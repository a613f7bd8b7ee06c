-- ===== src/Tests/Data.antt =====
-- A small platform, backends, and the coins, accounts and wallets of the tests.
use partymixrust.Prelude.{
  ℕ, ℕ_discrete, true, false, Option, none, some, List, [], ◌∷◌, Bytes, length, ◌==◌, if◌then◌else◌,
  ok,
}
use partymixrust.ShieldedCsv.Data.{
  AggregateNullifier, CoinEssence, Coin, AcctState, PaymentInitLocalInput, PaymentInitOutputPartial,
  PaymentInitOutput, PaymentInitOutputFee, PaymentFinalizeLocalInput,
}
use partymixrust.ShieldedCsv.Platform.{Platform}
use partymixrust.ShieldedCsv.Primitives.{Primitives, stubs, commit, zero_bytes}
use partymixrust.Types.{default_config, PoolAccount, MixerWithdrawalRequest, queued}
use partymixrust.Wallet.{WalletState, new_wallet}
use partymixrust.Crypto.Pcd.{PcdBackend, mock_pcd}
use partymixrust.Crypto.Nisshac.{NisshacBackend}
use partymixrust.Node.{MixerNode, new_node}

-- Numbers for keys, and the length of the input for its hash.
abbrev pub platform : (Bytes → Option (Unit {0})) → Platform
platform digest = record {
  PublicKey = ℕ;
  pk_discrete = ℕ_discrete;
  serialize = λ k. k ∷ [];
  Message = Unit;
  from_digest_slice = digest;
  default_hash = λ bs. length bs;
  debug_tx = λ rand tx. [];
  Uuid = ℕ;
  uuid_discrete = ℕ_discrete;
  nil_uuid = 0;
  DateTime = Unit;
}

abbrev pub tiny : Platform
tiny = platform (λ bs. if length bs == 32 then some tt else none)

-- The checks of the source, except that the two accumulator values of a payment are not distinct.
abbrev pub live : Primitives tiny
live = record (stubs tiny) { verify_distinct_element = λ _ _ _. false }

abbrev pub pcd : PcdBackend tiny
pcd = mock_pcd tiny

abbrev pub signer : (digest : Bytes → Option (Unit {0})) → NisshacBackend (platform digest)
signer digest = record {
  SecretKey = Unit;
  Sig = Bytes;
  keygen = (tt, 1);
  sign_to_contract = λ _ _ _. ok ([], [], []);
  aggregate = λ _. ok [];
  verify_aggregate = λ _ _. ok true;
  commit_retrieve = λ _ _. [];
  commit_verify = λ _ _ _. ok true;
}

abbrev pub acct : Bytes
acct = 1 ∷ []

abbrev pub opening : Bytes
opening = 2 ∷ []

-- A coin of 40 at the address of `acct`.
abbrev pub a_coin : Coin
a_coin = record {
  essence = record { address = commit tiny acct opening; amount = 40; idx = (0, 1) };
  tx_hash = zero_bytes 32;
  blockchain_loc = zero_bytes 6;
  nullifier_accum = zero_bytes 32;
}

abbrev pub account_state : AcctState ℕ
account_state = record {
  essence = record { id = 1; balance = 10; nullifier_pk = 1 };
  spent_accum = zero_bytes 32;
  nullifier_accum = zero_bytes 32;
}

abbrev pub output : ℕ → ℕ → CoinEssence
output n i = record { address = zero_bytes 32; amount = n; idx = (0, i) }

-- Spends with the given openings, into the given coins, at the given fee.
abbrev pub payment : List Bytes → List CoinEssence → ℕ → PaymentInitLocalInput ℕ
payment rands coins fee = record {
  acct_id = 1;
  acct_comm_rands = rands;
  new_coins = coins;
  fee = fee;
  new_spent_accum = zero_bytes 32;
  snmi_proof = [];
  new_nullifier_pk = 9;
  conditional_nav = zero_bytes 32;
  tx_hash_randomness = [];
  nullifier_tx_comm_pk = 1;
  nullifier_tx_comm = zero_bytes 32;
  nullifier_accum = zero_bytes 32;
  nap_proof = [];
}

abbrev pub partial : PaymentInitOutputPartial ℕ
partial = record {
  tx_hash = zero_bytes 32;
  nullifier_pk = 1;
  nullifier_tx_comm = zero_bytes 32;
  nullifier_accum = zero_bytes 32;
}

abbrev pub made : ℕ → ℕ → List CoinEssence → PaymentInitOutput ℕ
made balance key coins = record {
  partial_output = partial;
  acct_state_essence = record { id = 1; balance = balance; nullifier_pk = key };
  spent_accum = zero_bytes 32;
  coin_essences = coins;
}

abbrev pub made_fee : ℕ → PaymentInitOutputFee ℕ
made_fee fee = record { partial_output = partial; fee = fee }

abbrev pub finalization : PaymentFinalizeLocalInput
finalization = record {
  fee_acct_comm = zero_bytes 32;
  blockchain_loc = zero_bytes 6;
  nullifier_accum = zero_bytes 32;
  nm_proof = [];
  nap_proof = [];
}

-- Three keys, one of them listed twice.
abbrev pub aggregate : AggregateNullifier ℕ
aggregate = record { pks = 7 ∷ 8 ∷ 7 ∷ []; sig = []; fee_acct_comm = zero_bytes 32 }

abbrev pub node : MixerNode tiny pcd
node = new_node tiny pcd default_config (new_wallet tiny)

abbrev pub user : Bytes
user = 5 ∷ []

abbrev pub primary : PoolAccount tiny
primary = record {
  id = 3;
  label = "primary";
  acct_id = 1;
  state = record account_state { essence = record { id = 1; balance = 0; nullifier_pk = 1 } };
  state_proof = [];
  is_primary = true;
}

-- One user was credited 40, for which the wallet holds the coin.
abbrev pub wallet : WalletState tiny
wallet = record (new_wallet tiny) {
  pool_accounts = (3, primary) ∷ [];
  unspent_coins = record { coin = a_coin; proof = []; pool_account_id = 0 } ∷ [];
  liabilities = (user, record { user_id_hash = user; credited = 40; withdrawn = 0 }) ∷ [];
}

abbrev pub withdrawal : ℕ → ℕ → MixerWithdrawalRequest tiny
withdrawal id n = record {
  id = id;
  user_id_hash = user;
  amount = n;
  destination_address = zero_bytes 32;
  service_fee = 3;
  requested_at = tt;
  status = queued;
}
