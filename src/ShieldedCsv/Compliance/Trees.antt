-- ===== src/ShieldedCsv/Compliance/Trees.antt =====
-- The proof trees that a recursive prover builds from the compliance predicate of protocol.rs.
use partymixrust.Prelude.{◌≡◌, true, arith, List, [], ◌∷◌, returned}
use partymixrust.ShieldedCsv.Data.{
  LocalInput, issuance_input, payment_init_input, payment_finalize_input, EdgeLabel,
}
use partymixrust.ShieldedCsv.Platform.{Platform}
use partymixrust.ShieldedCsv.Primitives.{Primitives}
use partymixrust.ShieldedCsv.Compliance.{issuance, issuance_matches, compliance_predicate}

module _ (x : Platform) (p : Primitives x) where
  -- The predicate returns true.
  abbrev pub IsCompliant :
      EdgeLabel x.PublicKey → LocalInput x.PublicKey → List (EdgeLabel x.PublicKey) → Type 0
  IsCompliant z w es = compliance_predicate x p z w es ≡ returned true

  mutual
    -- An edge that has a proof: it is compliant, and so is everything that it comes from.
    pub data Proven : EdgeLabel x.PublicKey → Type 0 where
      proved :
          (z : EdgeLabel x.PublicKey) (w : LocalInput x.PublicKey)
          (es : List (EdgeLabel x.PublicKey))
          → IsCompliant z w es
          → AllProven es
          → Proven z

    pub data AllProven : List (EdgeLabel x.PublicKey) → Type 0 where
      all_proved : AllProven []
      more_proved :
          (e : EdgeLabel x.PublicKey) (es : List (EdgeLabel x.PublicKey))
          → Proven e
          → AllProven es
          → AllProven (e ∷ es)

  source-noncompliant :
      (z : EdgeLabel x.PublicKey) (w : LocalInput x.PublicKey) → ¬ IsCompliant z w []
  unfolding compliance_predicate issuance_matches issuance
  source-noncompliant z issuance_input h = absurd (ground (arith, h))
  source-noncompliant z (payment_init_input w) h = absurd (ground (arith, h))
  source-noncompliant z (payment_finalize_input w) h = absurd (ground (arith, h))

  -- No edge has a proof tree, in which every edge is compliant with the edges that it comes from.
  pub Proven-none : (z : EdgeLabel x.PublicKey) → ¬ Proven z
  Proven-none _ (proved z w [] h all_proved) = source-noncompliant z w h
  Proven-none _ (proved z w (e ∷ es) h (more_proved _ _ t ts)) = Proven-none e t
