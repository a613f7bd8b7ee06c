-- ===== src/Crypto/Pcd/Forgery.antt =====
-- Which proofs the PCD verifiers of mock.rs, primitives.rs and wallet_state.rs accept.
use partymixrust.Prelude.{◌≡◌, ◌↔◌, refl, ap, ◌∙◌, true, [], ◌∷◌, ◌++◌, arith, Bytes}
use partymixrust.ShieldedCsv.Data.{Coin, EdgeLabel}
use partymixrust.ShieldedCsv.Platform.{Platform}
use partymixrust.Crypto.Pcd.{mock_pcd_prefix, starts_with, pcd_prove, pcd_verify, verify_coin_proof}

starts_with-prefix : (bs ps : Bytes) → starts_with bs ps ≡ true → (rest : Bytes) × (bs ≡ ps ++ rest)
unfolding starts_with
starts_with-prefix bs [] h = (bs, refl)
starts_with-prefix [] (p ∷ ps) h = cc
starts_with-prefix (b ∷ bs) (p ∷ ps) h =
    let (rest, e) = starts_with-prefix bs ps (ground arith) in (rest, ground arith)

starts_with-append : (ps rest : Bytes) → starts_with (ps ++ rest) ps ≡ true
unfolding starts_with
starts_with-append [] rest = refl
starts_with-append (p ∷ ps) rest = ground (arith, starts_with-append ps rest)

-- The proof is the marker and any bytes after it.
abbrev pub IsMarked : Bytes → Type 0
IsMarked proof = (rest : Bytes) × (proof ≡ mock_pcd_prefix ++ rest)

pub starts_with_iff : (proof : Bytes) → (starts_with proof mock_pcd_prefix ≡ true) ↔ IsMarked proof
starts_with_iff proof = (
  starts_with-prefix proof mock_pcd_prefix,
  λ m. ap (λ bs. starts_with bs mock_pcd_prefix) m.1 ∙ starts_with-append mock_pcd_prefix m.0,
)

module _ (x : Platform) where
  pub verify_coin_proof_iff :
      (vk : Unit {0}) (c : Coin) (proof : Bytes)
      → (verify_coin_proof x vk c proof ≡ true) ↔ IsMarked proof
  unfolding verify_coin_proof
  verify_coin_proof_iff vk c proof = starts_with_iff proof

  -- `prove` gives what `verify` takes, for any two labels.
  pub pcd_verify-prove :
      (z z' : EdgeLabel x.PublicKey) (w : _) (es : _) (ps : _)
      → pcd_verify x tt z (pcd_prove x tt z' w es ps) ≡ true
  unfolding pcd_verify pcd_prove
  pcd_verify-prove z z' w es ps = starts_with-append mock_pcd_prefix []
