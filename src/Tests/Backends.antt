-- ===== src/Tests/Backends.antt =====
-- Runs of the mock accumulators.
use partymixrust.Prelude.{ℕ, ◌≡◌, refl, [], ◌∷◌}
use partymixrust.ShieldedCsv.Data.{ToSAccSetElement}
use partymixrust.ShieldedCsv.Primitives.{hash, zero_bytes}
use partymixrust.Crypto.Mock.{MockNullifierState}
use partymixrust.Crypto.Mock.Rollback.{append_sets, remove_times, remove_times-append_sets}
use partymixrust.Tests.Data.{tiny}

abbrev element : ToSAccSetElement ℕ
element = (7, zero_bytes 32, zero_bytes 6, zero_bytes 32)

-- One set, and the value that an operation gives it.
abbrev one_set : MockNullifierState ℕ
one_set = record { value = hash tiny (1 ∷ []); sets = (element ∷ []) ∷ [] }

remove_times-append_sets_example :
    remove_times tiny
      (λ n. n ∷ [])
      2
      (append_sets tiny (λ n. n ∷ []) one_set ([] ∷ (element ∷ element ∷ []) ∷ []))
    ≡ one_set
remove_times-append_sets_example =
    remove_times-append_sets tiny (λ n. n ∷ []) ([] ∷ (element ∷ element ∷ []) ∷ []) one_set refl
