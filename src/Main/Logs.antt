-- ===== src/Main/Logs.antt =====
-- What stands on the standard output with `--format sarif`.

use mathlib.Core.Path.{subst}
use coretrace_runtime_analyz.Sarif.{sarif_log}
use coretrace_runtime_analyz.Base.{
  All, All-append, Bool, Bool-cases, List, [], ap, arith, codes, if◌then◌else◌, inl, inr, is_empty,
  map, refl, ◌++◌, ◌↔◌, ◌∷◌, ◌≡◌, ◌≢◌,
}
use coretrace_runtime_analyz.Types.{AnalyzerOptions, AnalyzerResult, Finding, TestFileResult}
use coretrace_runtime_analyz.Events.{exit_findings, exit_no_findings, verdict}
use coretrace_runtime_analyz.Events.Verdict.{verdict_iff}
use coretrace_runtime_analyz.World.{World}
use coretrace_runtime_analyz.Findings.Parser.Reported.{IsReported}
use coretrace_runtime_analyz.Args.Parse.{ParseResult, sarif}
use coretrace_runtime_analyz.Analyzer.{all_findings, run_analyzer, run_batch}
use coretrace_runtime_analyz.Analyzer.Runs.{IsResult, IsResult-output_path, run_analyzer_parts}
use coretrace_runtime_analyz.Analyzer.Batch.{Quiet}
use coretrace_runtime_analyz.Analyzer.Discovered.{run_batch-IsBatchResult}
use coretrace_runtime_analyz.Main.{
  Build, Outcome, name_output, report_batch, report_run, run_accepted, write_sarif,
}
use coretrace_runtime_analyz.Analyzer.Each.{EachIsResult, run_batch-EachIsResult}

-- The status tells whether there are findings, for a result whose parts agree.
verdict-found :
    (r : AnalyzerResult) (run_program : Bool)
    → IsResult run_program r
    → (verdict r run_program ≡ exit_findings) ↔ (r.findings ≢ [])
verdict-found r run_program i =
    let iff = (verdict_iff r run_program).0 in
    (
      λ h. (iff.0 h).1,
      λ ne. let ran = i.found_ran ne in iff.1 (((i.executed_built ran).0, λ _. ran), ne),
    )

module _ (b : Build) where
  -- On the standard output stands the log of some findings and nothing else.
  abbrev pub LogsFindings : Outcome → List Finding → Type 0
  LogsFindings outcome fs =
      (outcome.out ≡ b.print_json (sarif_log b.json_strings fs) ++ codes "\n")
      × All IsReported fs
      × (outcome.status ≡ exit_no_findings → fs ≡ [])

  report_run-LogsFindings :
      (parsed : ParseResult) (r : AnalyzerResult)
      → parsed.format ≡ sarif
      → IsResult parsed.options.run_program r
      → LogsFindings (report_run b parsed r) r.findings
        × (((report_run b parsed r).status ≡ exit_findings) ↔ (r.findings ≢ []))
  unfolding report_run write_sarif
  report_run-LogsFindings parsed r f i =
      let found = verdict-found r parsed.options.run_program i in
      let quiet = (verdict_iff r parsed.options.run_program).1 in
      rw (report_run, f) ((refl, i.findings_ok, λ h. (quiet.0 h).1), found)

  all_findings-IsReported :
      (ts : List TestFileResult)
      → All (λ t. All IsReported t.analyzer_result.findings) ts
      → All IsReported (all_findings ts)
  unfolding all_findings
  all_findings-IsReported [] h = tt
  all_findings-IsReported (t ∷ ts) h =
      All-append IsReported t.analyzer_result.findings (all_findings ts) h.0
        (all_findings-IsReported ts h.1)

  all_findings-Quiet :
      (run_program : Bool) (ts : List TestFileResult)
      → All (Quiet run_program) ts
      → all_findings ts ≡ []
  unfolding all_findings
  all_findings-Quiet run_program [] h = refl
  all_findings-Quiet run_program (t ∷ ts) h =
      let none_here = ((verdict_iff t.analyzer_result run_program).1.0 h.0).1 in
      rw (none_here, all_findings-Quiet run_program ts h.1) refl

name_output-IsResult :
    (options : AnalyzerOptions) (run_program : Bool) (r : AnalyzerResult)
    → IsResult run_program r
    → IsResult run_program (name_output options r)
unfolding name_output
name_output-IsResult options run_program r i = elim (Bool-cases (is_empty r.output_path)) [
  | inl e ↦ rw (name_output, e) (IsResult-output_path i options.output_path)
  | inr e ↦ rw (name_output, e) i
]

EachIsResult-IsReported :
    (run_program : Bool) (ts : List TestFileResult)
    → EachIsResult run_program ts
    → All (λ t. All IsReported t.analyzer_result.findings) ts
EachIsResult-IsReported run_program [] h = tt
EachIsResult-IsReported run_program (t ∷ ts) h =
    (h.0.findings_ok, EachIsResult-IsReported run_program ts h.1)

name_output-findings :
    (options : AnalyzerOptions) (r : AnalyzerResult) → (name_output options r).findings ≡ r.findings
unfolding name_output
name_output-findings options r = ground arith

abbrev pub test_findings : TestFileResult → List Finding
test_findings test = test.analyzer_result.findings

-- The lists, one behind the other.
abbrev pub concat : List (List Finding) → List Finding
concat [] = []
concat (fs ∷ lists) = fs ++ concat lists

all_findings-concat : (ts : List TestFileResult) → all_findings ts ≡ concat (map test_findings ts)
unfolding all_findings
all_findings-concat [] = refl
all_findings-concat (t ∷ ts) = ap (λ l. test_findings t ++ l) (all_findings-concat ts)

module _ (b : Build) (w : World) where
  report_batch-LogsFindings :
      (parsed : ParseResult) (s : w.State)
      → parsed.format ≡ sarif
      → LogsFindings b
          (report_batch b parsed (run_batch w parsed.options s).0)
          (all_findings (run_batch w parsed.options s).0.tests)
  unfolding report_batch write_sarif
  report_batch-LogsFindings parsed s f =
      let r = (run_batch w parsed.options s).0 in
      let ts = r.tests in
      let each =
        EachIsResult-IsReported parsed.options.run_program ts
          (run_batch-EachIsResult w parsed.options s) in
      let quiet = (run_batch-IsBatchResult w parsed.options s).0.zero_quiet in
      rw (report_batch, f)
        (
          refl,
          all_findings-IsReported b ts each,
          λ h. all_findings-Quiet b parsed.options.run_program ts (quiet h).0,
        )

  -- What an accepted command line runs, and the findings that its log holds: those of the run, or
  -- those of all tests of the batch, one test behind the other.
  abbrev pub found_by : ParseResult → w.State → List Finding
  found_by parsed s =
      if is_empty parsed.options.test_directories
      then (run_analyzer w parsed.options s).0.findings
      else concat (map test_findings (run_batch w parsed.options s).0.tests)

  abbrev pub Logged : ParseResult → w.State → Outcome → Type 0
  Logged parsed s outcome =
      let fs = found_by parsed s in
      LogsFindings b outcome fs
      × (parsed.options.test_directories ≡ [] → (outcome.status ≡ exit_findings) ↔ (fs ≢ []))

  pub run_accepted-Logged :
      (parsed : ParseResult) (s : w.State)
      → parsed.format ≡ sarif
      → Logged parsed s (run_accepted b w parsed s).0
  unfolding run_accepted
  run_accepted-Logged parsed s f = elim (Bool-cases (is_empty parsed.options.test_directories)) [
    | inr e ↦
        rw (run_accepted, e)
          (
            subst (LogsFindings b (report_batch b parsed (run_batch w parsed.options s).0))
                (all_findings-concat (run_batch w parsed.options s).0.tests)
                (report_batch-LogsFindings parsed s f),
            λ h. absurd (ground (arith, h, e)),
          )
    | inl e ↦
        let r = (run_analyzer w parsed.options s).0 in
        let i =
          name_output-IsResult parsed.options parsed.options.run_program r
            (run_analyzer_parts w parsed.options s) in
        let (logs, found) = report_run-LogsFindings b parsed (name_output parsed.options r) f i in
        let same = name_output-findings parsed.options r in
        rw (run_accepted, e)
          (
            subst (LogsFindings b (report_run b parsed (name_output parsed.options r))) same logs,
            λ _.
                subst
                  (λ fs.
                    ((report_run b parsed (name_output parsed.options r)).status ≡ exit_findings)
                    ↔ (fs ≢ []))
                  same found,
          )
  ]
