-- ===== src/Node/Mined.antt =====
-- Where the nullifiers of mixer_node.rs and the coins of protocol.rs say that they were mined.
use partymixrust.Prelude.{
  ℕ, ◌*◌, ◌^◌, ◌≤◌, ◌<◌, ◌≡◌, ◌↔◌, refl, ap, ap₂, sym, ◌∙◌, some, List, [], ◌++◌, arith, All-Member,
  Member, length, take, take-append, Bytes,
}
use partymixrust.Prelude.Digits.{to_be_bytes, to_be_bytes-injective, length-to_be_bytes}
use partymixrust.Prelude.HashMap.{HashMap}
use partymixrust.ShieldedCsv.Data.{
  AggregateNullifier, ToSAccSetElement, Coin, PaymentInitOutputFee, PaymentFinalizeLocalInput,
}
use partymixrust.ShieldedCsv.Platform.{Platform}
use partymixrust.ShieldedCsv.Primitives.{Primitives}
use partymixrust.ShieldedCsv.Payment.{
  on_chain_id, idx_bytes, fee_idx, payment_finalize_fee, located,
}
use partymixrust.Wallet.{NullifierKvEntry}
use partymixrust.Node.{scan_block, first_loc}
use partymixrust.Node.Locations.{key_count, scan_block-location}

module _ (x : Platform) (p : Primitives x) where
  -- The scan of a block of this height lists the nullifier.
  pub record MinedAt (height : ℕ) (e : ToSAccSetElement x.PublicKey) : Type 0 where
    pub msg : x.Message
    pub aggs : List (AggregateNullifier x.PublicKey)
    pub kv : HashMap x.PublicKey NullifierKvEntry
    pub low : height < 2 ^ 40
    pub few : key_count aggs ≤ 65536
    pub listed :
        Member e
          (scan_block x p msg aggs
            (record { kv = kv; loc = first_loc height; block_nullifiers = [] })).block_nullifiers

  MinedAt-location :
      (height : ℕ) (e : ToSAccSetElement x.PublicKey)
      → MinedAt height e
      → e.2 ≡ to_be_bytes 6 (height * 256)
  MinedAt-location height e m =
      All-Member (λ (d : ToSAccSetElement x.PublicKey). d.2 ≡ to_be_bytes 6 (height * 256)) _ e
        (scan_block-location x p height m.low m.msg m.aggs _ m.few refl refl) m.listed

  bytes_iff :
      (h h' : ℕ)
      → h < 2 ^ 40
      → h' < 2 ^ 40
      → (to_be_bytes 6 (h * 256) ≡ to_be_bytes 6 (h' * 256)) ↔ (h ≡ h')
  bytes_iff h h' low low' = (
    λ e.
        let s = to_be_bytes-injective 6 (h * 256) (h' * 256) (omega arith) (omega arith) e in
        omega arith,
    λ e. rw e refl,
  )

  MinedAt-location_iff :
      (h h' : ℕ) (e e' : ToSAccSetElement x.PublicKey)
      → MinedAt h e
      → MinedAt h' e'
      → (e.2 ≡ e'.2) ↔ (h ≡ h')
  MinedAt-location_iff h h' e e' m m' =
      rw (MinedAt-location h e m, MinedAt-location h' e' m') (bytes_iff h h' m.low m'.low)

  append_same : (as' bs s : Bytes) → length as' ≡ length bs → as' ++ s ≡ bs ++ s → as' ≡ bs
  append_same as' bs s n e = sym (take-append as' s) ∙ ap₂ take n e ∙ take-append bs s

  finalize_fee-on_chain_id :
      (f : PaymentInitOutputFee x.PublicKey) (w : PaymentFinalizeLocalInput) (c : Coin)
      → payment_finalize_fee x p f w ≡ some c
      → on_chain_id c ≡ w.blockchain_loc ++ idx_bytes fee_idx
  unfolding payment_finalize_fee on_chain_id
  finalize_fee-on_chain_id f w c h =
      let e : located x f.partial_output w
            (record { address = w.fee_acct_comm; amount = f.fee; idx = fee_idx })
          ≡ c =
        ground arith in
      ap on_chain_id (sym e)

  -- For nullifiers that scans of two blocks list, each of a height below 2^40 and with at most
  -- 65536 keys, and fee coins that are finalized at their locations, from whichever payments, the
  -- locations of the nullifiers are the same exactly when the heights are, and so are the
  -- on-chain identifiers of the fee coins.
  pub payment_finalize_fee-MinedAt :
      (h h' : ℕ) (e e' : ToSAccSetElement x.PublicKey) (f f' : PaymentInitOutputFee x.PublicKey)
      (w w' : PaymentFinalizeLocalInput) (c c' : Coin)
      → MinedAt h e
      → MinedAt h' e'
      → w.blockchain_loc ≡ e.2
      → w'.blockchain_loc ≡ e'.2
      → payment_finalize_fee x p f w ≡ some c
      → payment_finalize_fee x p f' w' ≡ some c'
      → ((e.2 ≡ e'.2) ↔ (h ≡ h')) × ((on_chain_id c ≡ on_chain_id c') ↔ (h ≡ h'))
  payment_finalize_fee-MinedAt h h' e e' f f' w w' c c' m m' loc loc' made made' =
      let id =
        finalize_fee-on_chain_id f w c made
        ∙ ap (λ l. l ++ idx_bytes fee_idx) (loc ∙ MinedAt-location h e m) in
      let id' =
        finalize_fee-on_chain_id f' w' c' made'
        ∙ ap (λ l. l ++ idx_bytes fee_idx) (loc' ∙ MinedAt-location h' e' m') in
      let (same_height, same_loc) = bytes_iff h h' m.low m'.low in
      let of_ids : on_chain_id c ≡ on_chain_id c' → h ≡ h' = λ q. same_height (
        append_same _ _ (idx_bytes fee_idx)
          (length-to_be_bytes 6 (h * 256) ∙ sym (length-to_be_bytes 6 (h' * 256)))
          (sym id ∙ q ∙ id')) in
      (
        MinedAt-location_iff h h' e e' m m',
        (of_ids, λ q. id ∙ ap (λ l. l ++ idx_bytes fee_idx) (same_loc q) ∙ sym id'),
      )
