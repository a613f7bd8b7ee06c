-- ===== src/Tests/Sound.antt =====
-- A withdrawal from a mixer whose backend runs the compliance predicate.
use partymixrust.Prelude.{
  ◌≡◌, refl, true, false, Bool, List, [], ◌∷◌, arith, Bytes, Result, ok, err, Outcome, returned,
  panicked, bytes_discrete,
}
use partymixrust.Prelude.HashMap
use partymixrust.ShieldedCsv.Primitives.{stubs}
use partymixrust.ShieldedCsv.Payment.{on_chain_id}
use partymixrust.ShieldedCsv.Compliance.{compliance_predicate}
use partymixrust.Types.{default_config, available}
use partymixrust.Crypto.Pcd.{PcdBackend, PcdError, prove_failed, mock_pcd_prefix}
use partymixrust.Node.{MixerNode, new_node}
use partymixrust.Withdrawal.Compliance.{ProvesCompliant}
use partymixrust.Mixer.{MixerCall, deposit_call, withdraw_call, consolidate_call, offered}
use partymixrust.Mixer.Lost.{Lost, queue_withdrawal-Lost}
use partymixrust.Tests.Data.{tiny, pcd, a_coin, user, wallet}
use partymixrust.Tests.Deposits
use partymixrust.Tests.Withdrawals
use partymixrust.Tests.Withdrawals.{request, rich, rich-IsLedger}
use partymixrust.Tests.Service.{large, stranger}

-- A backend that runs the predicate before it proves.
abbrev proof_if : Outcome Bool → Result PcdError Bytes
proof_if panicked = err (prove_failed "panicked")
proof_if (returned false) = err (prove_failed "not compliant")
proof_if (returned true) = ok mock_pcd_prefix

abbrev checking : PcdBackend tiny
checking = record pcd {
  prove = λ k z w es ps. proof_if (compliance_predicate tiny (stubs tiny) z w es);
}

proof_if-true : (o : Outcome Bool) (proof : Bytes) → proof_if o ≡ ok proof → o ≡ returned true
proof_if-true panicked proof h = cc
proof_if-true (returned false) proof h = cc
proof_if-true (returned true) proof h = refl

checking-ProvesCompliant : ProvesCompliant tiny (stubs tiny) checking
checking-ProvesCompliant k z w es ps proof h =
    proof_if-true (compliance_predicate tiny (stubs tiny) z w es) proof h

abbrev checking_node : MixerNode tiny checking
checking_node = new_node tiny checking default_config wallet

-- Another user deposits, the coin is consolidated, and the user asks again.
abbrev later_calls : List (MixerCall tiny checking)
later_calls =
    deposit_call checking_node stranger large 12 tt
    ∷ consolidate_call checking_node (on_chain_id a_coin)
    ∷ withdraw_call user (request 3000) 14 tt
    ∷ []

queue_withdrawal-Lost_example :
    Lost tiny checking user
      (stubs tiny)
      checking-ProvesCompliant
      Deposits.handler
      Withdrawals.handler
      (request 3000)
      13
      tt
      4900
      rich
      later_calls
unfolding offered available HashMap.get bytes_discrete
queue_withdrawal-Lost_example =
    queue_withdrawal-Lost tiny checking user (stubs tiny) checking-ProvesCompliant Deposits.handler
      Withdrawals.handler (request 3000) 13 tt 5000 4900 rich later_calls rich-IsLedger
      (omega arith) refl (omega arith) ((λ e. cc), (tt, (tt, tt)))
