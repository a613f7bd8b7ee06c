-- ===== src/Wallet/Own.antt =====
-- One account among those of `Trace`: what the calls of other users do to it.
use partymixrust.Prelude.{
  ℕ, ◌≡◌, ◌≢◌, refl, ap, sym, ◌∙◌, Option, none, some, List, [], ◌∷◌, arith, Bytes, bytes_discrete,
  same, if◌then◌else◌,
}
use partymixrust.Wallet.Ledger.{Accounts, credited, debited, pay}
use partymixrust.Wallet.Trace.{LedgerCall, credit, debit, spec_run}

-- The credits and debits of the user `u`.
unfoldable pub own_ledger : Bytes → List LedgerCall → List LedgerCall
own_ledger u [] = []
own_ledger u (credit v n ∷ cs) =
    let rest = own_ledger u cs in if same (bytes_discrete v u) then credit v n ∷ rest else rest
own_ledger u (debit v n ∷ cs) =
    let rest = own_ledger u cs in if same (bytes_discrete v u) then debit v n ∷ rest else rest

pub pay_other :
    (u v : Bytes) (n : ℕ) (f : Accounts) (o : Option ℕ) → v ≢ u → (pay v n f o).0 u ≡ f u
pay_other u v n f none apart = refl
pay_other u v n f (some m) apart = ground arith

pay_own :
    (u v : Bytes) (n : ℕ) (f g : Accounts) (o : Option ℕ)
    → v ≡ u
    → f u ≡ g u
    → (pay v n f o).0 u ≡ (pay v n g o).0 u
pay_own u v n f g none own e = e
pay_own u v n f g (some m) own e = ground arith

pub pay_answer :
    (u : Bytes) (n : ℕ) (f g : Accounts) (o : Option ℕ) → (pay u n f o).1 ≡ (pay u n g o).1
pay_answer u n f g none = refl
pay_answer u n f g (some m) = ground arith

pub spec_run-own_ledger :
    (u : Bytes) (cs : List LedgerCall) (f g : Accounts)
    → f u ≡ g u
    → (spec_run f cs).0 u ≡ (spec_run g (own_ledger u cs)).0 u
unfolding spec_run own_ledger
spec_run-own_ledger u [] f g e = e
spec_run-own_ledger u (credit v n ∷ cs) f g e = elim (bytes_discrete v u) [
  | yes own ↦ ground (arith, spec_run-own_ledger u cs (credited v n f) (credited v n g))
  | no other ↦ ground (arith, spec_run-own_ledger u cs (credited v n f) g)
]
spec_run-own_ledger u (debit v n ∷ cs) f g e = elim (bytes_discrete v u) [
  | yes own ↦
      let paid : (debited v n f).0 u ≡ (debited v n g).0 u =
        pay_own u v n f g (f v) own e
        ∙ ap (λ o. (pay v n g o).0 u) (ap f own ∙ e ∙ sym (ap g own)) in
      ground (arith, spec_run-own_ledger u cs (debited v n f).0 (debited v n g).0 paid)
  | no other ↦
      let kept = pay_other u v n f (f v) other ∙ e in
      ground (arith, spec_run-own_ledger u cs (debited v n f).0 g kept)
]
