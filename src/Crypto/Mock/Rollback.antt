-- ===== src/Crypto/Mock/Rollback.antt =====
-- Insertion and removal in the mock accumulators of crypto/mock.rs.
use mathlib.Core.List.{append_assoc}
use partymixrust.Prelude.{
  ℕ, zero, suc, ◌≡◌, refl, ap, ◌∙◌, List, [], ◌∷◌, ◌++◌, Bytes, arith, length, ok,
}
use partymixrust.ShieldedCsv.Data.{CoinIdOnChain, ToSAccSetElement}
use partymixrust.ShieldedCsv.Platform.{Platform}
use partymixrust.ShieldedCsv.Primitives.{hash}
use partymixrust.Crypto.Mock.{
  MockSpentState, MockNullifierState, pop, mock_insert, mock_append_set, mock_remove_set,
}

pop-snoc : {A : Type 0} (as' : List A) (a : A) → pop (as' ++ a ∷ []) ≡ as'
unfolding pop
pop-snoc [] a = refl
pop-snoc (b ∷ []) a = refl
pop-snoc (b ∷ c ∷ cs) a = ap (◌∷◌ b) (pop-snoc (c ∷ cs) a)

module _ (x : Platform) (debug_len : ℕ → Bytes) where
  -- The value is the one that an operation gives a state with these sets.
  abbrev pub IsCurrent : MockNullifierState x.PublicKey → Type 0
  IsCurrent s = s.value ≡ hash x (debug_len (length s.sets))

  unfoldable pub append_sets :
      MockNullifierState x.PublicKey
      → List (List (ToSAccSetElement x.PublicKey))
      → MockNullifierState x.PublicKey
  append_sets s [] = s
  append_sets s (set ∷ sets) = append_sets (mock_append_set x debug_len s set) sets

  unfoldable pub remove_times : ℕ → MockNullifierState x.PublicKey → MockNullifierState x.PublicKey
  remove_times zero s = s
  remove_times (suc n) s = mock_remove_set x debug_len (remove_times n s)

  remove-append :
      (s : MockNullifierState x.PublicKey) (set : List (ToSAccSetElement x.PublicKey))
      → IsCurrent s
      → mock_remove_set x debug_len (mock_append_set x debug_len s set) ≡ s
  unfolding mock_remove_set mock_append_set
  remove-append s set h = rw (pop-snoc s.sets set, ← h) refl

  -- In the mock nullifier accumulator, from a state whose value is the one that an operation
  -- gives its sets, appending any sets and then removing as many restores the state, its value
  -- included.
  pub remove_times-append_sets :
      (sets : List (List (ToSAccSetElement x.PublicKey))) (s : MockNullifierState x.PublicKey)
      → IsCurrent s
      → remove_times (length sets) (append_sets s sets) ≡ s
  unfolding append_sets remove_times mock_append_set
  remove_times-append_sets [] s h = refl
  remove_times-append_sets (set ∷ sets) s h =
      ap (mock_remove_set x debug_len)
        (remove_times-append_sets sets (mock_append_set x debug_len s set) refl)
      ∙ remove-append s set h

module _ (x : Platform) (debug_ids : List CoinIdOnChain → Bytes) where
  -- In the mock spent accumulator, an insertion after an insertion gives the state and the proof
  -- of one insertion of both lists of identifiers.
  pub mock_insert-append :
      (s s' : MockSpentState) (ids more : List CoinIdOnChain) (proof : Bytes)
      → mock_insert x debug_ids s ids ≡ ok (s', proof)
      → mock_insert x debug_ids s' more ≡ mock_insert x debug_ids s (ids ++ more)
  unfolding mock_insert
  mock_insert-append s s' ids more proof h =
      let e : s.inserted ++ ids ≡ s'.inserted = ground arith in
      rw (← e, append_assoc s.inserted ids more) refl
