-- ===== src/Findings/Parser/Total.antt =====
-- `ParseFindings` returns, and what it returns is in order.

use coretrace_runtime_analyz.Base.{
  All, Bytes, List, Option-cases, [], inl, inr, some, ◌∙◌, ◌∷◌, ◌≡◌,
}
use coretrace_runtime_analyz.Text.Lines.{lines}
use coretrace_runtime_analyz.Types.{Finding}
use coretrace_runtime_analyz.Findings.Parser.{ParseState, initial, parse_findings, step}
use coretrace_runtime_analyz.Findings.Parser.Lines.{parse_findings-lines, run}
use coretrace_runtime_analyz.Findings.Parser.Reported.{IsReported}
use coretrace_runtime_analyz.Findings.Parser.Invariant.{Invariant, Keeps, step-Keeps}

pub initial-Invariant : Invariant initial
initial-Invariant = record { has_back = λ h. cc; box_alone = λ h. cc; reported = tt }

run-Keeps : (ls : List Bytes) (s : ParseState) → Invariant s → Keeps (run s ls)
unfolding run
run-Keeps [] s inv = inv
run-Keeps (l ∷ ls) s inv = elim (Option-cases (step s l)) [
  | inl e ↦ absurd (rw e at (step-Keeps s inv l))
  | inr (t, e) ↦ rw (e, run) (run-Keeps ls t (rw e at (step-Keeps s inv l)))
]

-- For every text, `ParseFindings` returns a list of findings: no line accesses the last of no
-- findings, and the loop ends. Each finding has a rule of the catalogue, a message, and no site
-- or one with a file, a line from 1 on and numbers below 2 ^ 32.
pub parse_findings-total :
    (output : Bytes) → (fs : List Finding) × (parse_findings output ≡ some fs) × All IsReported fs
parse_findings-total output = elim (Option-cases (run initial (lines output))) [
  | inl e ↦ absurd (rw e at (run-Keeps (lines output) initial initial-Invariant))
  | inr (s, e) ↦ (
    s.findings,
    parse_findings-lines output ∙ rw e,
    Invariant.reported (rw e at (run-Keeps (lines output) initial initial-Invariant)),
  )
]
