-- ===== src/Node/Locations.antt =====
-- The blockchain locations that `process_block` of mixer_node.rs assigns to nullifiers.
use partymixrust.Prelude.{
  ℕ, suc, ◌+◌, ◌*◌, ◌/◌, ◌^◌, ◌≤◌, ◌<◌, ◌≡◌, ◌↔◌, ap, subst, Bool-cases, inl, inr, List, [], ◌∷◌,
  map, arith, All, All-snoc, length,
}
use partymixrust.Prelude.Words.{u64_mod}
use partymixrust.Prelude.Digits.{to_be_bytes, to_be_bytes-injective}
use partymixrust.Prelude.HashMap.{contains_key}
use partymixrust.ShieldedCsv.Data.{Signature, Commitment, AggregateNullifier, ToSAccSetElement}
use partymixrust.ShieldedCsv.Platform.{Platform}
use partymixrust.ShieldedCsv.Primitives.{Primitives}
use partymixrust.Node.{location, Scan, scan_key, scan_keys, scan_aggregate, scan_block, first_loc}

pub location-eq-high : (v : ℕ) → location v ≡ to_be_bytes 6 (v / 65536)
unfolding location to_be_bytes
location-eq-high v = let e : v / 256 / 256 ≡ v / 65536 = omega arith in ap (λ n. to_be_bytes 6 n) e

-- Two u64 location numbers have the same six location bytes exactly when they agree after
-- division by 65536.
pub location_iff :
    (v w : ℕ) → v < u64_mod → w < u64_mod → (location v ≡ location w) ↔ (v / 65536 ≡ w / 65536)
location_iff v w hv hw = (
  λ e.
      to_be_bytes-injective 6 (v / 65536) (w / 65536) (omega arith) (omega arith)
        (rw (← location-eq-high v, ← location-eq-high w) e),
  λ e. rw (location-eq-high v, location-eq-high w, e),
)

-- How many keys the aggregates of a block list.
unfoldable pub key_count : {K : Type 0} → List (AggregateNullifier K) → ℕ
key_count [] = 0
key_count (a ∷ as') = length a.pks + key_count as'

module _ (x : Platform) (p : Primitives x) (height : ℕ) (low : height < 2 ^ 40) where
  -- The nullifier's location is that of the block's first nullifier.
  abbrev AtBlock : ToSAccSetElement x.PublicKey → Type 0
  AtBlock e = e.2 ≡ to_be_bytes 6 (height * 256)

  -- At most `k` keys of the block have been given a location.
  record InBlock (k : ℕ) (s : Scan x) : Type 0 where
    lower : height * 2 ^ 24 ≤ s.loc
    upper : s.loc ≤ height * 2 ^ 24 + k
    at_block : All AtBlock s.block_nullifiers

  location_in_block :
      (v : ℕ)
      → height * 2 ^ 24 ≤ v
      → v < height * 2 ^ 24 + 65536
      → location v ≡ to_be_bytes 6 (height * 256)
  location_in_block v h k =
      let e : v / 65536 ≡ height * 256 = omega arith in rw (location-eq-high v, e)

  scan_key-InBlock :
      (sig : Signature) (fee : Commitment) (i : ℕ) (pk : x.PublicKey) (k : ℕ) (s : Scan x)
      → k < 65536
      → InBlock k s
      → InBlock (k + 1) (scan_key x p sig fee i pk s)
  unfolding scan_key
  scan_key-InBlock sig fee i pk k s room h =
      elim (Bool-cases (contains_key x.pk_discrete pk s.kv)) [
        | inl old ↦ rw old (record { lower = h.lower; upper = omega arith; at_block = h.at_block })
        | inr new ↦ rw new (record {
          lower = omega arith;
          upper = omega arith;
          at_block =
              All-snoc AtBlock s.block_nullifiers _ h.at_block
                (location_in_block s.loc h.lower (omega arith));
        })
      ]

  scan_keys-InBlock :
      (sig : Signature) (fee : Commitment) (pks : List x.PublicKey) (i k : ℕ) (s : Scan x)
      → k + length pks ≤ 65536
      → InBlock k s
      → InBlock (k + length pks) (scan_keys x p sig fee i pks s)
  unfolding scan_keys
  scan_keys-InBlock sig fee [] i k s room h = record {
    lower = h.lower;
    upper = omega arith;
    at_block = h.at_block;
  }
  scan_keys-InBlock sig fee (pk ∷ pks) i k s room h =
      let e : k + 1 + length pks ≡ k + suc (length pks) = omega arith in
      subst (λ n. InBlock n (scan_keys x p sig fee (i + 1) pks (scan_key x p sig fee i pk s))) e
        (scan_keys-InBlock sig fee pks (i + 1) (k + 1) (scan_key x p sig fee i pk s) (omega arith)
          (scan_key-InBlock sig fee i pk k s (omega arith) h))

  scan_aggregate-InBlock :
      (msg : x.Message) (a : AggregateNullifier x.PublicKey) (k : ℕ) (s : Scan x)
      → k + length a.pks ≤ 65536
      → InBlock k s
      → InBlock (k + length a.pks) (scan_aggregate x p msg a s)
  unfolding scan_aggregate
  scan_aggregate-InBlock msg a k s room h =
      elim (Bool-cases (p.agg_verify a.sig (map (λ pk. (pk, msg)) a.pks))) [
        | inl good ↦ rw good (scan_keys-InBlock a.sig a.fee_acct_comm a.pks 0 k s room h)
        | inr bad ↦ rw bad (record { lower = h.lower; upper = omega arith; at_block = h.at_block })
      ]

  scan_block-InBlock :
      (msg : x.Message) (aggs : List (AggregateNullifier x.PublicKey)) (k : ℕ) (s : Scan x)
      → k + key_count aggs ≤ 65536
      → InBlock k s
      → InBlock (k + key_count aggs) (scan_block x p msg aggs s)
  unfolding scan_block key_count
  scan_block-InBlock msg [] k s room h = record {
    lower = h.lower;
    upper = omega arith;
    at_block = h.at_block;
  }
  scan_block-InBlock msg (a ∷ as') k s room h =
      let e : k + length a.pks + key_count as' ≡ k + (length a.pks + key_count as') = omega arith in
      subst (λ n. InBlock n (scan_block x p msg as' (scan_aggregate x p msg a s))) e
        (scan_block-InBlock msg as' (k + length a.pks) (scan_aggregate x p msg a s) (omega arith)
          (scan_aggregate-InBlock msg a k s (omega arith) h))

  -- In a block of height below 2^40 whose aggregates list at most 65536 keys, the scan from the
  -- block's first location with an empty list gives every listed nullifier one and the same
  -- location, the six bytes of height * 256.
  pub scan_block-location :
      (msg : x.Message) (aggs : List (AggregateNullifier x.PublicKey)) (s : Scan x)
      → key_count aggs ≤ 65536
      → s.loc ≡ first_loc height
      → s.block_nullifiers ≡ []
      → All AtBlock (scan_block x p msg aggs s).block_nullifiers
  scan_block-location msg aggs s room start empty =
      let e : s.loc ≡ height * 2 ^ 24 = omega arith in
      (scan_block-InBlock msg aggs 0 s (omega arith)
        (record { lower = omega arith; upper = omega arith; at_block = rw empty tt })).at_block
