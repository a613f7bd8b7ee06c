-- ===== src/Node/Stored.antt =====
-- The keys of an aggregate that verifies are in the store after `process_block` of mixer_node.rs.
use partymixrust.Prelude.{
  ℕ, ◌+◌, ◌≡◌, subst, true, Option-cases, inl, inr, none, some, List, [], ◌∷◌, ◌++◌, map, arith,
  Member,
}
use partymixrust.Prelude.HashMap
use partymixrust.Prelude.HashMap.{contains_key, get-insert}
use partymixrust.ShieldedCsv.Data.{AggregateNullifier, Signature, Commitment}
use partymixrust.ShieldedCsv.Platform.{Platform}
use partymixrust.ShieldedCsv.Primitives.{Primitives}
use partymixrust.Wallet.{NullifierKvEntry}
use partymixrust.Node.{Scan, location, add_key, scan_key, scan_keys, scan_aggregate, scan_block}
use partymixrust.Node.Nullifiers.{scan_keys-induction, scan_block-induction}

-- The entry that `scan_key` stores for the key at position `i`.
abbrev entry_at :
    (x : Platform) → Primitives x → Signature → Commitment → ℕ → Scan x → NullifierKvEntry
entry_at x p sig fee i s = record {
  sig_comm = p.commit_retrieve sig i;
  blockchain_loc = location s.loc;
  fee_acct_comm = fee;
}

module _ (x : Platform) (p : Primitives x) (k : x.PublicKey) where
  -- The store has an entry for the key.
  abbrev pub IsStored : Scan x → Type 0
  IsStored s = (e : NullifierKvEntry) × (HashMap.get x.pk_discrete k s.kv ≡ some e)

  add_key-IsStored :
      (sig : Signature) (fee : Commitment) (i : ℕ) (pk : x.PublicKey) (s : Scan x)
      → HashMap.get x.pk_discrete pk s.kv ≡ none
      → IsStored s
      → IsStored (add_key x p sig fee i pk s)
  add_key-IsStored sig fee i pk s new (e, old) = elim (x.pk_discrete pk k) [
    | yes same ↦
        (entry_at x p sig fee i s, rw (get-insert x.pk_discrete pk k _ s.kv) (ground arith))
    | no other ↦ (e, rw (get-insert x.pk_discrete pk k _ s.kv) (ground arith))
  ]

  scan_key-IsStored :
      (sig : Signature) (fee : Commitment) (i : ℕ) (s : Scan x)
      → IsStored (scan_key x p sig fee i k s)
  unfolding scan_key
  scan_key-IsStored sig fee i s = elim (Option-cases (HashMap.get x.pk_discrete k s.kv)) [
    | inl new ↦
        rw (new, contains_key)
          (entry_at x p sig fee i s, rw (get-insert x.pk_discrete k k _ s.kv) (ground arith))
    | inr old ↦ rw (old.1, contains_key) old
  ]

  scan_keys-IsStored :
      (sig : Signature) (fee : Commitment) (pks : List x.PublicKey) (i : ℕ) (s : Scan x)
      → Member k pks
      → IsStored (scan_keys x p sig fee i pks s)
  unfolding scan_keys
  scan_keys-IsStored sig fee [] i s m = absurd m
  scan_keys-IsStored sig fee (pk ∷ pks) i s (inl e) =
      scan_keys-induction x p IsStored add_key-IsStored sig fee pks (i + 1)
        (scan_key x p sig fee i pk s)
        (subst (λ j. IsStored (scan_key x p sig fee i j s)) e (scan_key-IsStored sig fee i s))
  scan_keys-IsStored sig fee (pk ∷ pks) i s (inr m) =
      scan_keys-IsStored sig fee pks (i + 1) (scan_key x p sig fee i pk s) m

  pub scan_block-IsStored :
      (msg : x.Message) (before after : List (AggregateNullifier x.PublicKey))
      (a : AggregateNullifier x.PublicKey) (s : Scan x)
      → p.agg_verify a.sig (map (λ pk. (pk, msg)) a.pks) ≡ true
      → Member k a.pks
      → IsStored (scan_block x p msg (before ++ a ∷ after) s)
  unfolding scan_block scan_aggregate
  scan_block-IsStored msg [] after a s good m =
      scan_block-induction x p IsStored add_key-IsStored msg after (scan_aggregate x p msg a s)
        (rw good (scan_keys-IsStored a.sig a.fee_acct_comm a.pks 0 s m))
  scan_block-IsStored msg (b ∷ bs) after a s good m =
      scan_block-IsStored msg bs after a (scan_aggregate x p msg b s) good m
