-- ===== src/Node/Reachable.antt =====
-- The states that a node of mixer_node.rs reaches by blocks and reorganisations.
use partymixrust.Prelude.{
  ℕ, zero, suc, ◌<◌, ◌≡◌, refl, ap, sym, ◌∙◌, inl, inr, Bool-cases, some, List, [], ◌∷◌, arith,
  length, drop, last?, ltb,
}
use partymixrust.ShieldedCsv.Data.{AggregateNullifier, ToSAccValue}
use partymixrust.ShieldedCsv.Platform.{Platform}
use partymixrust.ShieldedCsv.Primitives.{Primitives, hash, zero_bytes}
use partymixrust.Types.{MixerConfig}
use partymixrust.Wallet.{WalletState, new_wallet, trim_nullifier_history}
use partymixrust.Crypto.Pcd.{PcdBackend}
use partymixrust.Node.{MixerNode, new_node, apply_block, handle_reorg, current_nav}
use partymixrust.Node.Blocks.{apply_block-nav, remove_sets-value}

last?-drop : (n : ℕ) (h : List ToSAccValue) → n < length h → last? (drop n h) ≡ last? h
last?-drop zero h small = refl
last?-drop (suc n) [] small = absurd (omega arith)
last?-drop (suc n) (a ∷ []) small = absurd (omega arith)
last?-drop (suc n) (a ∷ b ∷ bs) small = last?-drop n (b ∷ bs) (omega arith)

last-trim :
    (x : Platform) (w : WalletState x) (n : ℕ)
    → last? (trim_nullifier_history x w n).nullifier_accum_history ≡ last? w.nullifier_accum_history
unfolding trim_nullifier_history
last-trim x w n = elim (Bool-cases (ltb n (length w.nullifier_accum_history))) [
  | inl short ↦ rw short (last?-drop n w.nullifier_accum_history (ground arith))
  | inr long ↦ rw long refl
]

-- The hash, so many times.
unfoldable pub hashed : (x : Platform) → ℕ → ToSAccValue → ToSAccValue
hashed x zero v = v
hashed x (suc n) v = hash x (hashed x n v)

module _ (x : Platform) (p : Primitives x) (b : PcdBackend x) where
  -- Blocks and reorganisations lead from one state to another.
  pub data Leads (from : MixerNode x b) : MixerNode x b → Type 0 where
    here : Leads from from
    block :
        (self : MixerNode x b) (msg : x.Message) (height : ℕ)
        (aggs : List (AggregateNullifier x.PublicKey))
        → Leads from self
        → Leads from (apply_block x p b msg self height aggs)
    reorg :
        (self : MixerNode x b) (disconnected : ℕ)
        → Leads from self
        → Leads from (handle_reorg x b self disconnected).0

  -- They lead there from a new node on a new wallet.
  abbrev pub Reachable : MixerConfig → MixerNode x b → Type 0
  Reachable config self = Leads (new_node x b config (new_wallet x)) self

  handle_reorg-last :
      (self : MixerNode x b) (n : ℕ)
      → last? self.wallet.nullifier_accum_history ≡ some (current_nav x b self)
      → let after = (handle_reorg x b self n).0 in
        last? after.wallet.nullifier_accum_history ≡ some (current_nav x b after)
  unfolding handle_reorg current_nav
  handle_reorg-last self n h =
      elim (Bool-cases (ltb (length self.wallet.nullifier_accum_history) n)) [
        | inl deep ↦ rw (deep, handle_reorg) h
        | inr known ↦
            rw (known, handle_reorg)
              (last-trim x self.wallet _
                ∙ h
                ∙ ap some (sym (remove_sets-value n self.nullifier_accum)))
      ]

  pub Leads-last :
      {from self : MixerNode x b}
      → Leads from self
      → last? from.wallet.nullifier_accum_history ≡ some (current_nav x b from)
      → last? self.wallet.nullifier_accum_history ≡ some (current_nav x b self)
  Leads-last here h = h
  Leads-last (block self msg height aggs r) h = (apply_block-nav x p b msg self height aggs).1
  Leads-last (reorg self n r) h = handle_reorg-last self n (Leads-last r h)

  -- The blocks on the way, connected still or not.
  unfoldable pub blocks_seen : {from self : MixerNode x b} → Leads from self → ℕ
  blocks_seen here = 0
  blocks_seen (block self msg height aggs r) = suc (blocks_seen r)
  blocks_seen (reorg self n r) = blocks_seen r

  handle_reorg-nav :
      (self : MixerNode x b) (n : ℕ)
      → current_nav x b (handle_reorg x b self n).0 ≡ current_nav x b self
  unfolding handle_reorg current_nav
  handle_reorg-nav self n = elim (Bool-cases (ltb (length self.wallet.nullifier_accum_history) n)) [
    | inl deep ↦ rw (deep, handle_reorg) refl
    | inr known ↦ rw (known, handle_reorg) (remove_sets-value n self.nullifier_accum)
  ]

  Leads-nav :
      {from self : MixerNode x b} (r : Leads from self)
      → current_nav x b self ≡ hashed x (blocks_seen r) (current_nav x b from)
  unfolding blocks_seen hashed
  Leads-nav here = refl
  Leads-nav (block self msg height aggs r) =
      (apply_block-nav x p b msg self height aggs).0 ∙ ap (hash x) (Leads-nav r)
  Leads-nav (reorg self n r) = handle_reorg-nav self n ∙ Leads-nav r

  -- In every state that a new node on a new wallet reaches by any sequence of blocks and
  -- reorganisations, the last value of the wallet's history is the node's current accumulator
  -- value, and that is 32 zero bytes hashed once for each block that was seen, disconnected ones
  -- included.
  pub Reachable-last :
      (config : MixerConfig) {self : MixerNode x b} (r : Reachable config self)
      → (last? self.wallet.nullifier_accum_history ≡ some (current_nav x b self))
        × (current_nav x b self ≡ hashed x (blocks_seen r) (zero_bytes 32))
  unfolding new_node current_nav
  Reachable-last config r = (Leads-last r refl, Leads-nav r)
