-- ===== src/Events/Verdict.antt =====
-- When the analyzer gives each of its verdicts.

use coretrace_runtime_analyz.Base.{Bool, [], arith, false, true, ◌↔◌, ◌≡◌, ◌≢◌, ◌≤◌}
use coretrace_runtime_analyz.Types.{AnalyzerResult}
use coretrace_runtime_analyz.Events.{exit_findings, exit_no_findings, exit_not_analyzed, verdict}

-- The program was built, and run where it was to be run.
abbrev pub Analyzed : AnalyzerResult → Bool → Type 0
Analyzed r run_program = (r.compile_success ≡ true) × (run_program ≡ true → r.executed ≡ true)

-- The verdict is 1 exactly when the program was built, run where asked, and has a finding, even if
-- it was then killed at the timeout; 0 exactly when it was built, run where asked, has no finding
-- and was not killed; and 2 otherwise.
pub verdict_iff :
    (r : AnalyzerResult) (run_program : Bool)
    → ((verdict r run_program ≡ exit_findings) ↔ (Analyzed r run_program × (r.findings ≢ [])))
      × ((verdict r run_program ≡ exit_no_findings)
          ↔ (Analyzed r run_program × (r.findings ≡ []) × (r.timed_out ≡ false)))
      × (verdict r run_program ≤ exit_not_analyzed)
unfolding verdict
verdict_iff r run_program = ground arith
