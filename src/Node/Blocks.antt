-- ===== src/Node/Blocks.antt =====
-- `process_block`, `handle_reorg` and `accept_payment` of mixer_node.rs on the whole node.
use partymixrust.Prelude.{
  ℕ, zero, suc, ◌-◌, ◌≤◌, ◌<◌, ◌≡◌, ◌≢◌, ◌↔◌, refl, sym, ap, ◌∙◌, Bool, true, false, Bool-cases,
  inl, inr, none, some, List, [], ◌∷◌, ◌++◌, map, arith, Bytes, bytes_discrete, length, drop, last?,
  Member, length-append, drop-append, Result, ok, err, panicked,
}
use partymixrust.ShieldedCsv.Data.{AggregateNullifier, Coin, coin, ToSAccValue}
use partymixrust.ShieldedCsv.Platform.{Platform}
use partymixrust.ShieldedCsv.Primitives.{Primitives, hash, commit}
use partymixrust.ShieldedCsv.Accumulators.{ToSAccM, append_set, remove_set}
use partymixrust.ShieldedCsv.Payment.{on_chain_id}
use partymixrust.Types.{PoolCoin}
use partymixrust.Wallet.{WalletState}
use partymixrust.Wallet.History.{last-record, record_new, trim_lem}
use partymixrust.Crypto.Pcd.{PcdBackend, PcdError}
use partymixrust.Crypto.Nisshac.{state_update_tag, state_update_message}
use partymixrust.Node.{
  MixerNode, reorg_too_deep, contains, verified, remove_sets, apply_block, process_block,
  accept_payment, handle_reorg, current_nav,
}

-- The documented behaviour of `Message::from_digest_slice`: only 32 bytes are a digest.
abbrev pub WantsDigest : Platform → Type 0
WantsDigest x = (bs : Bytes) → length bs ≢ 32 → x.from_digest_slice bs ≡ none

-- The tag is 26 bytes long.
pub state_update_message-panicked :
    (x : Platform) → WantsDigest x → state_update_message x ≡ panicked
unfolding state_update_message
state_update_message-panicked x documented = rw (documented state_update_tag (omega arith))

module _ (x : Platform) (p : Primitives x) (b : PcdBackend x) where
  -- If a digest has 32 bytes, as secp256k1 documents, process_block panics on every node, height
  -- and block.
  pub process_block-panicked :
      WantsDigest x
      → (self : MixerNode x b) (height : ℕ) (aggs : List (AggregateNullifier x.PublicKey))
      → process_block x p b self height aggs ≡ panicked
  unfolding process_block
  process_block-panicked documented self height aggs =
      rw (state_update_message-panicked x documented, process_block)

  -- After a block, the current accumulator value is the hash of the one before, it is the last of
  -- the history, and the chain height is the block's.
  pub apply_block-nav :
      (msg : x.Message) (self : MixerNode x b) (height : ℕ)
      (aggs : List (AggregateNullifier x.PublicKey))
      → let self' = apply_block x p b msg self height aggs in
        (current_nav x b self' ≡ hash x (current_nav x b self))
        × (last? self'.wallet.nullifier_accum_history ≡ some (current_nav x b self'))
        × (self'.chain_height ≡ height)
  unfolding apply_block current_nav append_set
  apply_block-nav msg self height aggs = (refl, last-record x _ _, refl)

pub remove_sets-value : (n : ℕ) (a : ToSAccM) → (remove_sets n a).value ≡ a.value
unfolding remove_sets
remove_sets-value zero a = refl
remove_sets-value (suc n) a = remove_sets-value n (remove_set a)

module _ (x : Platform) (b : PcdBackend x) (self : MixerNode x b) (n : ℕ) where
  abbrev history : List ToSAccValue
  history = self.wallet.nullifier_accum_history

  pub handle_reorg_too_deep :
      length history < n → handle_reorg x b self n ≡ (self, err reorg_too_deep)
  unfolding handle_reorg
  handle_reorg_too_deep h = ground arith

  -- A reorganisation of at least one block and at most as many as the history has values
  -- succeeds, keeps that many values from the end of the history, and keeps the current
  -- accumulator value and the nullifier store.
  pub handle_reorg-history :
      0 < n
      → n ≤ length history
      → let (self', r) = handle_reorg x b self n in
        (r ≡ ok tt)
        × (self'.wallet.nullifier_accum_history ≡ drop (length history - n) history)
        × (current_nav x b self' ≡ current_nav x b self)
        × (self'.wallet.nullifier_kv ≡ self.wallet.nullifier_kv)
  unfolding handle_reorg current_nav
  handle_reorg-history pos fits =
      ground (
        arith,
        trim_lem x self.wallet (length history - n),
        remove_sets-value n self.nullifier_accum,
      )

module _ (x : Platform) (p : Primitives x) (b : PcdBackend x) where
  pub apply_block-history :
      (msg : x.Message) (self : MixerNode x b) (height : ℕ)
      (aggs : List (AggregateNullifier x.PublicKey))
      → last? self.wallet.nullifier_accum_history ≢ some (hash x (current_nav x b self))
      → (apply_block x p b msg self height aggs).wallet.nullifier_accum_history
        ≡ self.wallet.nullifier_accum_history ++ hash x (current_nav x b self) ∷ []
  unfolding apply_block current_nav append_set
  apply_block-history msg self height aggs new =
      ap (λ (w : WalletState x). w.nullifier_accum_history) (record_new x _ _ new)

  drop_last :
      (h : List ToSAccValue) (v : ToSAccValue)
      → drop (length (h ++ v ∷ []) - 1) (h ++ v ∷ []) ≡ v ∷ []
  drop_last h v =
      let e : length (h ++ v ∷ []) - 1 ≡ length h = omega (arith, length-append h (v ∷ [])) in
      rw (e, drop-append h (v ∷ []))

  -- When a block's new accumulator value is not the last of the history, disconnecting that one
  -- block succeeds, leaves only the disconnected block's value in the history, does not roll the
  -- current value back, and keeps the block's entries in the nullifier store.
  apply_block-handle_reorg :
      (msg : x.Message) (self : MixerNode x b) (height : ℕ)
      (aggs : List (AggregateNullifier x.PublicKey))
      → last? self.wallet.nullifier_accum_history ≢ some (hash x (current_nav x b self))
      → let connected = apply_block x p b msg self height aggs in
        let (after, r) = handle_reorg x b connected 1 in
        (r ≡ ok tt)
        × (after.wallet.nullifier_accum_history ≡ hash x (current_nav x b self) ∷ [])
        × (current_nav x b after ≡ hash x (current_nav x b self))
        × (after.wallet.nullifier_kv ≡ connected.wallet.nullifier_kv)
  apply_block-handle_reorg msg self height aggs new =
      let connected = apply_block x p b msg self height aggs in
      let h = self.wallet.nullifier_accum_history in
      let v = hash x (current_nav x b self) in
      let grown = apply_block-history msg self height aggs new in
      let (done, trimmed, nav, kv) =
        handle_reorg-history x b connected 1 (omega arith)
          (rw grown (omega (arith, length-append h (v ∷ [])))) in
      (
        done,
        trimmed ∙ rw grown (drop_last h v),
        nav ∙ (apply_block-nav x p b msg self height aggs).0,
        kv,
      )

Member-of_contains : (bs : List Bytes) (a : Bytes) → contains bs a ≡ true → Member a bs
unfolding contains
Member-of_contains [] a h = cc
Member-of_contains (b ∷ bs) a h = elim (bytes_discrete b a) [
  | yes e ↦ inl (sym e)
  | no ne ↦ inr (Member-of_contains bs a (ground arith))
]

pub contains-of_Member : (bs : List Bytes) (a : Bytes) → Member a bs → contains bs a ≡ true
unfolding contains
contains-of_Member [] a h = absurd h
contains-of_Member (b ∷ bs) a (inl e) = ground arith
contains-of_Member (b ∷ bs) a (inr m) = ground (arith, contains-of_Member bs a m)

verified-true : (r : Result PcdError Bool) → verified r ≡ true → r ≡ ok true
verified-true (ok v) h = rw h
verified-true (err e) h = cc

-- What `accept_payment` asks of a coin, its proof and the opening of its address.
pub record Acceptable (x : Platform) (b : PcdBackend x) (self : MixerNode x b) (c : Coin)
    (proof acct rand : Bytes) : Type 0 where
  pub addressed : c.essence.address ≡ commit x acct rand
  pub unseen :
      ¬ Member
        (on_chain_id c)
        (map (λ (u : PoolCoin x). on_chain_id u.coin) self.wallet.unspent_coins)
  pub historic : Member c.nullifier_accum self.wallet.nullifier_accum_history
  pub proved : b.verify self.pcd_vk (coin c) proof ≡ ok true

module _ (x : Platform) (b : PcdBackend x) (self : MixerNode x b) (c : Coin)
    (proof acct rand : Bytes) where
  abbrev received : List Bytes
  received = map (λ (u : PoolCoin x). on_chain_id u.coin) self.wallet.unspent_coins

  unseen-false : ¬ Member (on_chain_id c) received → contains received (on_chain_id c) ≡ false
  unseen-false h = elim (Bool-cases (contains received (on_chain_id c))) [
    | inl seen ↦ absurd (h (Member-of_contains received (on_chain_id c) seen))
    | inr new ↦ new
  ]

  accept_payment-ok :
      (n : ℕ)
      → accept_payment x b self c proof acct rand ≡ ok n
      → Acceptable x b self c proof acct rand × (n ≡ c.essence.amount)
  unfolding accept_payment
  accept_payment-ok n h = (
    record {
      addressed = ground arith;
      unseen = λ m. ground (arith, contains-of_Member received (on_chain_id c) m);
      historic =
          Member-of_contains self.wallet.nullifier_accum_history c.nullifier_accum (ground arith);
      proved = verified-true (b.verify self.pcd_vk (coin c) proof) (ground arith);
    },
    ground arith,
  )

  ok-accept_payment :
      Acceptable x b self c proof acct rand
      → accept_payment x b self c proof acct rand ≡ ok c.essence.amount
  unfolding accept_payment
  ok-accept_payment a = ground (
    arith,
    unseen-false a.unseen,
    contains-of_Member self.wallet.nullifier_accum_history c.nullifier_accum a.historic,
  )

  -- A payment is accepted with answer n exactly when the coin is addressed to the given account
  -- and opening, its on-chain identifier is that of no unspent coin of the node's wallet, its
  -- accumulator value is in the wallet's history, the backend verifies its proof, and n is the
  -- coin's amount.
  pub accept_payment_iff :
      (n : ℕ)
      → (accept_payment x b self c proof acct rand ≡ ok n)
        ↔ (Acceptable x b self c proof acct rand × (n ≡ c.essence.amount))
  accept_payment_iff n = (accept_payment-ok n, λ a. ok-accept_payment a.0 ∙ ap ok (sym a.1))
