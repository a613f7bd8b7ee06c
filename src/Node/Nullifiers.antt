-- ===== src/Node/Nullifiers.antt =====
-- The key-value store of nullifiers under `process_block` of mixer_node.rs.
use mathlib.Core.Logic.{ite}
use partymixrust.Prelude.{
  ℕ, ◌+◌, ◌≡◌, ◌≢◌, sym, subst, Bool-cases, Option-cases, none, some, inl, inr, ◌⊎◌, List, [], ◌∷◌,
  ◌++◌, map, arith, All, All-mono, All-snoc, Apart, Apart-snoc,
}
use partymixrust.Prelude.HashMap
use partymixrust.Prelude.HashMap.{HashMap, contains_key, get-insert}
use partymixrust.ShieldedCsv.Data.{Signature, Commitment, AggregateNullifier, ToSAccSetElement}
use partymixrust.ShieldedCsv.Platform.{Platform}
use partymixrust.ShieldedCsv.Primitives.{Primitives}
use partymixrust.Wallet.{NullifierKvEntry}
use partymixrust.Node.{location, Scan, add_key, scan_key, scan_keys, scan_aggregate, scan_block}

module _ (x : Platform) (p : Primitives x) where
  -- What holds before a scan, and after each new key, holds after the scan.
  module _ (P : Scan x → Type 0)
      (step : (sig : Signature) (fee : Commitment) (i : ℕ) (pk : x.PublicKey) (s : Scan x)
        → HashMap.get x.pk_discrete pk s.kv ≡ none
        → P s
        → P (add_key x p sig fee i pk s)) where
    scan_key-induction :
        (sig : Signature) (fee : Commitment) (i : ℕ) (pk : x.PublicKey) (s : Scan x)
        → P s
        → P (scan_key x p sig fee i pk s)
    unfolding scan_key
    scan_key-induction sig fee i pk s h = elim (Option-cases (HashMap.get x.pk_discrete pk s.kv)) [
      | inl new ↦ rw (new, contains_key) (step sig fee i pk s new h)
      | inr (e, old) ↦ rw (old, contains_key) h
    ]

    pub scan_keys-induction :
        (sig : Signature) (fee : Commitment) (pks : List x.PublicKey) (i : ℕ) (s : Scan x)
        → P s
        → P (scan_keys x p sig fee i pks s)
    unfolding scan_keys
    scan_keys-induction sig fee [] i s h = h
    scan_keys-induction sig fee (pk ∷ pks) i s h =
        scan_keys-induction sig fee pks (i + 1) (scan_key x p sig fee i pk s)
          (scan_key-induction sig fee i pk s h)

    pub scan_block-induction :
        (msg : x.Message) (aggs : List (AggregateNullifier x.PublicKey)) (s : Scan x)
        → P s
        → P (scan_block x p msg aggs s)
    unfolding scan_block scan_aggregate
    scan_block-induction msg [] s h = h
    scan_block-induction msg (a ∷ as') s h =
        scan_block-induction msg as' (scan_aggregate x p msg a s)
          (elim (Bool-cases (p.agg_verify a.sig (map (λ pk. (pk, msg)) a.pks))) [
            | inl good ↦ rw good (scan_keys-induction a.sig a.fee_acct_comm a.pks 0 s h)
            | inr bad ↦ rw bad h
          ])

  -- A listed nullifier, as its entry in the store.
  abbrev entry_of : ToSAccSetElement x.PublicKey → NullifierKvEntry
  entry_of e = record { sig_comm = e.1; blockchain_loc = e.2; fee_acct_comm = e.3 }

  -- The key of one of the listed nullifiers.
  abbrev pub Listed : x.PublicKey → List (ToSAccSetElement x.PublicKey) → Type 0
  Listed k [] = ⊥
  Listed k (e ∷ es) = (k ≡ e.0) ⊎ Listed k es

  Listed-snoc_old :
      (k : x.PublicKey) (es : List (ToSAccSetElement x.PublicKey))
      (e : ToSAccSetElement x.PublicKey)
      → Listed k es
      → Listed k (es ++ e ∷ [])
  Listed-snoc_old k [] e h = absurd h
  Listed-snoc_old k (d ∷ ds) e (inl h) = inl h
  Listed-snoc_old k (d ∷ ds) e (inr h) = inr (Listed-snoc_old k ds e h)

  Listed-snoc_new :
      (k : x.PublicKey) (es : List (ToSAccSetElement x.PublicKey))
      (e : ToSAccSetElement x.PublicKey)
      → k ≡ e.0
      → Listed k (es ++ e ∷ [])
  Listed-snoc_new k [] e h = inl h
  Listed-snoc_new k (d ∷ ds) e h = inr (Listed-snoc_new k ds e h)

  -- The nullifiers of the block are the keys that are in the store now and were not in `kv`.
  pub record Extends (kv : HashMap x.PublicKey NullifierKvEntry) (s : Scan x) : Type 0 where
    pub kept :
        (k : x.PublicKey) (e : NullifierKvEntry)
        → HashMap.get x.pk_discrete k kv ≡ some e
        → HashMap.get x.pk_discrete k s.kv ≡ some e
    pub fresh : All (λ e. HashMap.get x.pk_discrete e.0 kv ≡ none) s.block_nullifiers
    pub stored :
        All (λ e. HashMap.get x.pk_discrete e.0 s.kv ≡ some (entry_of e)) s.block_nullifiers
    pub distinct : Apart (λ a c. a.0 ≢ c.0) s.block_nullifiers
    pub covered :
        (k : x.PublicKey)
        → HashMap.get x.pk_discrete k kv ≡ none
        → (HashMap.get x.pk_discrete k s.kv ≡ none) ⊎ Listed k s.block_nullifiers

  module _ (kv : HashMap x.PublicKey NullifierKvEntry) (sig : Signature) (fee : Commitment) (i : ℕ)
      (pk : x.PublicKey) (s : Scan x) (new : HashMap.get x.pk_discrete pk s.kv ≡ none)
      (h : Extends kv s) where
    new_in_kv : HashMap.get x.pk_discrete pk kv ≡ none
    new_in_kv = elim (Option-cases (HashMap.get x.pk_discrete pk kv)) [
      | inl absent ↦ absent
      | inr (e, old) ↦ absurd (cc (h.kept pk e old))
    ]

    get-add_key :
        (k : x.PublicKey)
        → HashMap.get x.pk_discrete k (add_key x p sig fee i pk s).kv
          ≡ ite
              (x.pk_discrete pk k)
              (some (record {
                sig_comm = p.commit_retrieve sig i;
                blockchain_loc = location s.loc;
                fee_acct_comm = fee;
              }))
              (HashMap.get x.pk_discrete k s.kv)
    get-add_key k = get-insert x.pk_discrete pk k _ s.kv

    add_key-covered :
        (k : x.PublicKey)
        → HashMap.get x.pk_discrete k kv ≡ none
        → (HashMap.get x.pk_discrete k (add_key x p sig fee i pk s).kv ≡ none)
          ⊎ Listed k (add_key x p sig fee i pk s).block_nullifiers
    add_key-covered k absent = elim (x.pk_discrete pk k) [
      | yes e ↦ inr (Listed-snoc_new k s.block_nullifiers _ (sym e))
      | no ne ↦ elim (h.covered k absent) [
        | inl still ↦ inl (rw (get-add_key k) (ground arith))
        | inr listed ↦ inr (Listed-snoc_old k s.block_nullifiers _ listed)
      ]
    ]

    add_key-Extends : Extends kv (add_key x p sig fee i pk s)
    add_key-Extends = record {
      kept = λ k e old. rw (get-add_key k) (ground (arith, h.kept k e old));
      fresh =
          All-snoc (λ e. HashMap.get x.pk_discrete e.0 kv ≡ none) s.block_nullifiers _ h.fresh
            new_in_kv;
      stored =
          All-snoc _ s.block_nullifiers _
            (All-mono (λ e. HashMap.get x.pk_discrete e.0 s.kv ≡ some (entry_of e)) _
              s.block_nullifiers (λ e old. rw (get-add_key e.0) (ground (arith, old))) h.stored)
            (rw (get-add_key pk) (ground arith));
      distinct =
          Apart-snoc (λ a c. a.0 ≢ c.0) s.block_nullifiers _ h.distinct
            (All-mono (λ e. HashMap.get x.pk_discrete e.0 s.kv ≡ some (entry_of e)) _
              s.block_nullifiers
              (λ e old q.
                cc (subst (λ k. HashMap.get x.pk_discrete k s.kv ≡ some (entry_of e)) q old))
              h.stored);
      covered = add_key-covered;
    }

  -- A scan that starts with no nullifier listed keeps every stored key with its entry, lists
  -- exactly keys that were not stored before, each once and with the entry that is now in the
  -- store, and every key that it adds is listed.
  pub scan_block-Extends :
      (msg : x.Message) (aggs : List (AggregateNullifier x.PublicKey)) (s : Scan x)
      → s.block_nullifiers ≡ []
      → Extends s.kv (scan_block x p msg aggs s)
  scan_block-Extends msg aggs s empty =
      scan_block-induction (Extends s.kv) (λ sig fee i pk t. add_key-Extends s.kv sig fee i pk t)
        msg aggs s
        (record {
          kept = λ k e h. h;
          fresh = rw empty tt;
          stored = rw empty tt;
          distinct = rw empty tt;
          covered = λ k h. inl h;
        })
