-- ===== src/Protocol/Tests.antt =====
-- The theorems on common/protocol at concrete blocks.
use lsfg_nx.Base.{Bool, ◌≡◌, refl, arith, List, [], ◌∷◌, true}
use lsfg_nx.Protocol.{initialize_reports, push_report, peek_report, consume_report}
use lsfg_nx.Protocol.Ring.{
  Call, pushes, peeks, consumes, Reply, run, run_queue, view, run_refines,
  initialize_reports-IsValid,
}

abbrev script : List Call
script = pushes (1 ∷ 2 ∷ []) ∷ peeks ∷ pushes [] ∷ pushes (3 ∷ []) ∷ consumes ∷ peeks ∷ []

script_runs :
    run initialize_reports script
    ≡ Reply.pushed true
      ∷ Reply.peeked (1 ∷ 2 ∷ [])
      ∷ Reply.pushed Bool.false
      ∷ Reply.pushed true
      ∷ Reply.done
      ∷ Reply.peeked (3 ∷ [])
      ∷ []
unfolding run push_report peek_report consume_report initialize_reports
script_runs = refl

run_refines_example : run initialize_reports script ≡ run_queue (view initialize_reports) script
unfolding initialize_reports
run_refines_example =
    run_refines script {r = initialize_reports} initialize_reports-IsValid.0 (omega arith)
      (omega arith)
