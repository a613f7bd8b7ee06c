-- ===== src/ShieldedCsv/Payment.antt =====
-- The payment predicates of partymixrust/src/shielded_csv/protocol.rs.
pub mod Inversion
pub mod Panics
pub mod Ownership
pub mod Indices
pub mod Balance
use partymixrust.Prelude.{
  ℕ, ◌+◌, Bool, true, false, ◌&&◌, ◌||◌, not, Option, none, some, List, [], ◌∷◌, ◌++◌, map, Bytes,
  ltb, ◌==◌, same, if◌then◌else◌, ◌>>=◌, ◌>>◌, guard, Outcome, returned, panicked, bytes_discrete,
}
use partymixrust.Prelude.Words.{checked_add, checked_sub, wrapping_add, wrapping_sum}
use partymixrust.ShieldedCsv.Data.{
  CoinId, CoinIdOnChain, CoinIndex, CoinEssence, Coin, AcctStateEssence, AcctState, Transaction,
  PaymentInitLocalInput, PaymentInitOutputPartial, PaymentInitOutput, PaymentInitOutputFee,
  PaymentFinalizeLocalInput,
}
use partymixrust.ShieldedCsv.Platform.{Platform}
use partymixrust.ShieldedCsv.Primitives.{Primitives, hash, commit}
use partymixrust.ShieldedCsv.Accumulators.{new_acc_value}

-- An early return of `None` before the part of a function that may panic.
abbrev pub or_reject : {A B : Type 0} → (A → Outcome (Option B)) → Option A → Outcome (Option B)
or_reject f none = returned none
or_reject f (some a) = f a

abbrev pub idx_bytes : CoinIndex → Bytes
idx_bytes (hi, lo) = hi ∷ lo ∷ []

abbrev pub fee_idx : CoinIndex
fee_idx = (0xff, 0xff)

-- `<` of `[u8; 2]`, from the first byte.
abbrev pub idx_lt : CoinIndex → CoinIndex → Bool
idx_lt (h, l) (h', l') = ltb h h' || (h == h' && ltb l l')

abbrev pub idx_eq : CoinIndex → CoinIndex → Bool
idx_eq (h, l) (h', l') = h == h' && l == l'

-- `Coin::id`; the array types give the length that `try_into` wants.
unfoldable pub coin_id : Coin → CoinId
coin_id c = c.tx_hash ++ idx_bytes c.essence.idx

-- `Coin::on_chain_id`
unfoldable pub on_chain_id : Coin → CoinIdOnChain
on_chain_id c = c.blockchain_loc ++ idx_bytes c.essence.idx

-- The sum of the new coins, from `acc`, as the loop with `checked_add`.
unfoldable pub checked_total : List CoinEssence → ℕ → Option ℕ
checked_total [] acc = some acc
checked_total (c ∷ cs) acc = do acc' ← checked_add acc c.amount; checked_total cs acc'

-- The loop `for i in 1..len` over the indices of the new coins, at each coin and its predecessor.
unfoldable pub indices_after : CoinIndex → List CoinEssence → Bool
indices_after prev [] = true
indices_after prev (c ∷ cs) =
    not (not (idx_lt prev c.idx) || idx_eq c.idx fee_idx) && indices_after c.idx cs

unfoldable pub indices_ok : List CoinEssence → Bool
unfolding indices_after
indices_ok [] = true
indices_ok (c ∷ cs) = indices_after c.idx cs

abbrev pub amounts : List Coin → List ℕ
amounts = map (λ c. c.essence.amount)

module _ (x : Platform) where
  -- `Transaction::hash`
  unfoldable pub tx_hash_of : Transaction x.PublicKey → Bytes → Bytes
  tx_hash_of tx randomness = hash x (x.debug_tx randomness tx)

  -- The first loop: `zip` stops at the shorter list.
  unfoldable pub coins_owned : Bytes → List Coin → List Bytes → Bool
  coins_owned acct [] rands = true
  coins_owned acct (c ∷ cs) [] = true
  coins_owned acct (c ∷ cs) (r ∷ rs) =
      same (bytes_discrete c.essence.address (commit x acct r)) && coins_owned acct cs rs

  -- The balance after the payment.
  unfoldable pub balance_after : ℕ → List Coin → PaymentInitLocalInput x.PublicKey → Option ℕ
  unfolding checked_total wrapping_sum
  balance_after balance prev_coins w_loc = do
    total ← checked_total w_loc.new_coins 0
    coins_sum ← checked_sub total w_loc.fee
    checked_sub (wrapping_add balance (wrapping_sum (amounts prev_coins) 0)) coins_sum

  -- The coin of an essence, as both finalize predicates build it.
  abbrev pub located :
      PaymentInitOutputPartial x.PublicKey → PaymentFinalizeLocalInput → CoinEssence → Coin
  located out w_loc e = record {
    essence = e;
    tx_hash = out.tx_hash;
    blockchain_loc = w_loc.blockchain_loc;
    nullifier_accum = w_loc.nullifier_accum;
  }

  module _ (p : Primitives x) where
    -- The new essence and the transaction, if no check returns early.
    unfoldable pub payment_checks :
        AcctState x.PublicKey
        → List Coin
        → PaymentInitLocalInput x.PublicKey
        → Option (AcctStateEssence x.PublicKey × Transaction x.PublicKey)
    payment_checks prev_state prev_coins w_loc = do
      guard (coins_owned (x.serialize prev_state.essence.id) prev_coins w_loc.acct_comm_rands)
      new_balance ← balance_after prev_state.essence.balance prev_coins w_loc
      guard (
          p.verify_non_membership_and_insert prev_state.spent_accum w_loc.new_spent_accum
            (map on_chain_id prev_coins) w_loc.snmi_proof)
      guard (indices_ok w_loc.new_coins)
      let acct_state_essence : AcctStateEssence x.PublicKey = record {
        id = prev_state.essence.id;
        balance = new_balance;
        nullifier_pk = w_loc.new_nullifier_pk;
      }
      let tx : Transaction x.PublicKey = record {
        conditional_nav = w_loc.conditional_nav;
        prev_state = prev_state.essence;
        prev_coins = map coin_id prev_coins;
        new_state = acct_state_essence;
        new_coins = w_loc.new_coins;
      }
      guard (
          p.commit_verify w_loc.nullifier_tx_comm (tx_hash_of tx w_loc.tx_hash_randomness)
            w_loc.nullifier_tx_comm_pk)
      some (acct_state_essence, tx)

    -- The end of `payment_init`. The slice `new_coins[1..]` panics on an empty vector.
    unfoldable pub settle :
        AcctState x.PublicKey
        → List Coin
        → PaymentInitLocalInput x.PublicKey
        → AcctStateEssence x.PublicKey × Transaction x.PublicKey
        → Outcome (Option (PaymentInitOutput x.PublicKey × PaymentInitOutputFee x.PublicKey))
    settle prev_state prev_coins w_loc (acct_state_essence, tx) =
        let partial : PaymentInitOutputPartial x.PublicKey = record {
          tx_hash = tx_hash_of tx w_loc.tx_hash_randomness;
          nullifier_pk = prev_state.essence.nullifier_pk;
          nullifier_tx_comm = w_loc.nullifier_tx_comm;
          nullifier_accum = w_loc.nullifier_accum;
        } in
        let nullifier_accums : List Bytes =
          map (λ (c : Coin). c.nullifier_accum) prev_coins
          ++ prev_state.nullifier_accum ∷ tx.conditional_nav ∷ [] in
        if p.verify_distinct_element tx.conditional_nav w_loc.nullifier_accum w_loc.nap_proof
        then returned (
            some (
              record {
                partial_output = partial;
                acct_state_essence = record acct_state_essence {
                  balance = prev_state.essence.balance;
                };
                spent_accum = prev_state.spent_accum;
                coin_essences = [];
              },
              record { partial_output = partial; fee = 0 },
            ))
        else if not (p.verify_is_prefix nullifier_accums w_loc.nullifier_accum w_loc.nap_proof)
        then returned none
        else elim w_loc.new_coins [
          | [] ↦ panicked
          | first ∷ rest ↦ returned (
              some (
                record {
                  partial_output = partial;
                  acct_state_essence = acct_state_essence;
                  spent_accum = w_loc.new_spent_accum;
                  coin_essences = rest;
                },
                record { partial_output = partial; fee = w_loc.fee },
              ))
        ]

    unfoldable pub payment_init :
        AcctState x.PublicKey
        → List Coin
        → PaymentInitLocalInput x.PublicKey
        → Outcome (Option (PaymentInitOutput x.PublicKey × PaymentInitOutputFee x.PublicKey))
    unfolding payment_checks settle
    payment_init prev_state prev_coins w_loc =
        or_reject (settle prev_state prev_coins w_loc) (payment_checks prev_state prev_coins w_loc)

    unfoldable pub payment_init_newacct :
        List Coin
        → PaymentInitLocalInput x.PublicKey
        → Outcome (Option (PaymentInitOutput x.PublicKey × PaymentInitOutputFee x.PublicKey))
    payment_init_newacct prev_coins w_loc =
        payment_init
          (record {
            essence = record { id = w_loc.acct_id; balance = 0; nullifier_pk = w_loc.acct_id };
            spent_accum = new_acc_value;
            nullifier_accum = w_loc.nullifier_accum;
          })
          prev_coins w_loc

    unfoldable pub payment_finalize_internal :
        PaymentInitOutputPartial x.PublicKey → PaymentFinalizeLocalInput → Bool
    payment_finalize_internal out w_loc =
        if not (p.verify_is_prefix (out.nullifier_accum ∷ []) w_loc.nullifier_accum w_loc.nap_proof)
        then false
        else p.verify_union_membership w_loc.nullifier_accum
            (out.nullifier_pk, out.nullifier_tx_comm, w_loc.blockchain_loc, w_loc.fee_acct_comm)
            w_loc.nm_proof

    unfoldable pub payment_finalize_fee :
        PaymentInitOutputFee x.PublicKey → PaymentFinalizeLocalInput → Option Coin
    unfolding payment_finalize_internal
    payment_finalize_fee pay_init w_loc =
        if not (payment_finalize_internal pay_init.partial_output w_loc)
        then none
        else some (
            located pay_init.partial_output w_loc
              (record { address = w_loc.fee_acct_comm; amount = pay_init.fee; idx = fee_idx }))

    unfoldable pub payment_finalize :
        PaymentInitOutput x.PublicKey
        → PaymentFinalizeLocalInput
        → Option (AcctState x.PublicKey × List Coin)
    unfolding payment_finalize_internal
    payment_finalize pay_init w_loc =
        if not (payment_finalize_internal pay_init.partial_output w_loc)
        then none
        else some (
          record {
            essence = pay_init.acct_state_essence;
            spent_accum = pay_init.spent_accum;
            nullifier_accum = w_loc.nullifier_accum;
          },
          map (located pay_init.partial_output w_loc) pay_init.coin_essences,
        )
