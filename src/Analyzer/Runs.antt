-- ===== src/Analyzer/Runs.antt =====
-- The result of one run.

use coretrace_runtime_analyz.Findings.Parser.{parse_findings}
use coretrace_runtime_analyz.World.{CompileResult, ProcessResult, World}
use coretrace_runtime_analyz.Args.Compiler.{
  build_compiler_arguments, find_output_argument, has_compile_only_action,
}
use mathlib.Core.Path.{ap₂, subst}
use coretrace_runtime_analyz.Base.{
  All, All-append, Bool, Bool-cases, Bytes, List, [], ap, arith, false, inl, inr, is_empty, keep,
  none, refl, some, sym, true, ◌&&◌, ◌++◌, ◌↔◌, ◌≡◌, ◌≢◌,
}
use coretrace_runtime_analyz.Base.Int.{negsuc, pos, ℤ}
use coretrace_runtime_analyz.Text.Lines.{lines}
use coretrace_runtime_analyz.Types.{AnalyzerOptions, AnalyzerResult, Finding, empty_summary}
use coretrace_runtime_analyz.Findings.Parser.Reported.{IsReported}
use coretrace_runtime_analyz.Findings.Parser.Total.{parse_findings-total}
use coretrace_runtime_analyz.Events.{is_coretrace_line, strip_ansi}
use coretrace_runtime_analyz.Events.Summary.{
  collect_events-kept, merge_summaries-append, summary_of,
}
use coretrace_runtime_analyz.Analyzer.{
  absolute_path, compile_and_run, findings_in, is_zero, read_output, run_analyzer, take_process,
}

findings_in-IsReported : (text : Bytes) → All IsReported (findings_in text)
unfolding findings_in
findings_in-IsReported text =
    let (fs, e, all) = parse_findings-total text in rw (findings_in, e) all

is_zero_lem : (n : ℤ) → is_zero n ≡ true → n ≡ pos 0
unfolding is_zero
is_zero_lem (pos n) h = ap pos (ground arith)
is_zero_lem (negsuc n) h = cc

is_zero_back : (n : ℤ) → n ≡ pos 0 → is_zero n ≡ true
unfolding is_zero
is_zero_back n h = rw h refl

-- The CoreTrace lines of an output.
abbrev pub events_in : Bytes → List Bytes
events_in output = keep is_coretrace_line (lines (strip_ansi output))

-- The findings of the two outputs, one behind the other.
abbrev pub FoundIn : Bytes → Bytes → List Finding → Type 0
FoundIn stdout_text stderr_text findings =
    (fs gs : List Finding) × (parse_findings (strip_ansi stdout_text) ≡ some fs)
    × (parse_findings (strip_ansi stderr_text) ≡ some gs)
    × (findings ≡ fs ++ gs)

findings_in_lem :
    (output : Bytes) (fs : List Finding) → parse_findings output ≡ some fs → findings_in output ≡ fs
unfolding findings_in
findings_in_lem output fs e = rw (findings_in, e) refl

findings_in-FoundIn :
    (stdout_text stderr_text : Bytes)
    → FoundIn stdout_text stderr_text
        (findings_in (strip_ansi stdout_text) ++ findings_in (strip_ansi stderr_text))
unfolding findings_in
findings_in-FoundIn stdout_text stderr_text =
    let (fs, e, _) = parse_findings-total (strip_ansi stdout_text) in
    let (gs, e', _) = parse_findings-total (strip_ansi stderr_text) in
    (fs, gs, e, e', ap₂ ◌++◌ (findings_in_lem _ fs e) (findings_in_lem _ gs e'))

-- The parts of a result agree with one another.
pub record IsResult (run_program : Bool) (r : AnalyzerResult) : Type 0 where
  pub executed_built : r.executed ≡ true → (r.compile_success ≡ true) × (run_program ≡ true)
  pub success_built : r.success ≡ true → r.compile_success ≡ true
  pub success_ran : r.success ≡ true → run_program ≡ true → r.executed ≡ true
  pub success_exit : r.success ≡ true → r.exit_code ≡ pos 0
  pub exit_success : r.executed ≡ true → r.exit_code ≡ pos 0 → r.success ≡ true
  pub found_ran : r.findings ≢ [] → r.executed ≡ true
  pub found_both : r.executed ≡ true → FoundIn r.stdout_text r.stderr_text r.findings
  pub events_ran : r.coretrace_events ≢ [] → r.executed ≡ true
  pub events_both :
      r.executed ≡ true → r.coretrace_events ≡ events_in r.stdout_text ++ events_in r.stderr_text
  pub findings_ok : All IsReported r.findings
  pub summary_counts : r.summary ≡ summary_of r.coretrace_events

-- The path of the binary does not matter.
pub IsResult-output_path :
    {run_program : Bool} {r : AnalyzerResult}
    → IsResult run_program r
    → (path : Bytes) → IsResult run_program (record r { output_path = path })
IsResult-output_path i path = record {
  executed_built = i.executed_built;
  success_built = i.success_built;
  success_ran = i.success_ran;
  success_exit = i.success_exit;
  exit_success = i.exit_success;
  found_ran = i.found_ran;
  found_both = i.found_both;
  events_ran = i.events_ran;
  events_both = i.events_both;
  findings_ok = i.findings_ok;
  summary_counts = i.summary_counts;
}

-- Summary and events of the two outputs together.
read_output-summary :
    (r : AnalyzerResult) → (read_output r).summary ≡ summary_of (read_output r).coretrace_events
unfolding read_output
read_output-summary r =
    rw (collect_events-kept r.stdout_text [], collect_events-kept r.stderr_text [])
      (sym (
        merge_summaries-append (keep is_coretrace_line (lines (strip_ansi r.stdout_text)))
          (keep is_coretrace_line (lines (strip_ansi r.stderr_text)))))

read_output-IsResult :
    (r : AnalyzerResult)
    → r.compile_success ≡ true
    → r.executed ≡ true
    → IsResult true (read_output r)
unfolding read_output
read_output-IsResult r c e = record {
  executed_built = λ _. (c, refl);
  success_built = λ _. c;
  success_ran = λ _ _. e;
  success_exit = is_zero_lem r.exit_code;
  exit_success = λ _. is_zero_back r.exit_code;
  found_ran = λ _. e;
  found_both = λ _. findings_in-FoundIn r.stdout_text r.stderr_text;
  events_ran = λ _. e;
  events_both =
      λ _. rw (collect_events-kept r.stdout_text [], collect_events-kept r.stderr_text []) refl;
  findings_ok =
      All-append IsReported (findings_in (strip_ansi r.stdout_text))
        (findings_in (strip_ansi r.stderr_text)) (findings_in-IsReported (strip_ansi r.stdout_text))
        (findings_in-IsReported (strip_ansi r.stderr_text));
  summary_counts = read_output-summary r;
}

-- A result of a run that did not take place.
quiet-IsResult :
    (run_program : Bool) (r : AnalyzerResult)
    → r.executed ≡ false
    → r.findings ≡ []
    → r.coretrace_events ≡ []
    → r.summary ≡ empty_summary
    → (r.success ≡ true
        → (r.compile_success ≡ true) × (run_program ≡ false) × (r.exit_code ≡ pos 0))
    → IsResult run_program r
quiet-IsResult run_program r e f v s ok = record {
  executed_built = λ h. absurd (cc);
  success_built = λ h. (ok h).0;
  success_ran = λ h k. absurd (cc (ok h).1);
  success_exit = λ h. (ok h).2;
  exit_success = λ h. absurd (cc);
  found_ran = λ h. absurd (h f);
  found_both = λ h. absurd (cc);
  events_ran = λ h. absurd (h v);
  events_both = λ h. absurd (cc);
  findings_ok = subst (All IsReported) (sym f) tt;
  summary_counts = rw (v, s) refl;
}

take_process-IsResult :
    (options : AnalyzerOptions) (r : AnalyzerResult) (process : ProcessResult)
    → r.compile_success ≡ true
    → r.success ≡ false
    → r.findings ≡ []
    → r.coretrace_events ≡ []
    → r.summary ≡ empty_summary
    → IsResult true (take_process options r process)
unfolding take_process
take_process-IsResult options r process c n f v s =
    elim (Bool-cases (is_empty process.error_text)) [
      | inl e ↦ rw (take_process, e) (read_output-IsResult _ c refl)
      | inr e ↦ rw (take_process, e) (quiet-IsResult true _ refl f v s (λ h. absurd (cc)))
    ]

module _ (w : World) (options : AnalyzerOptions) (s : w.State) where
  compile_and_run-IsResult : IsResult options.run_program (compile_and_run w options s).0
  unfolding compile_and_run
  compile_and_run-IsResult =
      let built = build_compiler_arguments options in
      let compiled = w.compile built.0 s in
      elim (Bool-cases compiled.0.success) [
        | inr e ↦
            rw (compile_and_run, e) (quiet-IsResult _ _ refl refl refl refl (λ h. absurd (cc)))
        | inl e ↦ elim (Bool-cases options.run_program) [
          | inr q ↦
              rw (compile_and_run, e, q)
                (quiet-IsResult false _ refl refl refl refl (λ h. (refl, refl, refl)))
          | inl q ↦
              rw (compile_and_run, e, q) (take_process-IsResult _ _ _ refl refl refl refl refl)
        ]
      ]

  pub run_analyzer_parts : IsResult options.run_program (run_analyzer w options s).0
  unfolding run_analyzer
  run_analyzer_parts =
      elim (Bool-cases (has_compile_only_action options.compiler_args && options.run_program)) [
        | inl e ↦ rw (run_analyzer, e) (quiet-IsResult _ _ refl refl refl refl (λ h. absurd (cc)))
        | inr e ↦
            elim (Bool-cases (
              options.explicit_output_path
              && (find_output_argument options.compiler_args).present)) [
                | inl o ↦
                    rw (run_analyzer, e, o)
                      (quiet-IsResult _ _ refl refl refl refl (λ h. absurd (cc)))
                | inr o ↦ rw (run_analyzer, e, o) compile_and_run-IsResult
              ]
      ]

  -- What `Run` compiles, and what it asks of the process runner behind that.
  abbrev pub compiled_of : CompileResult × w.State
  compiled_of = w.compile (build_compiler_arguments options).0 s

  abbrev pub process_of : ProcessResult
  process_of =
      let (_, s') = compiled_of in
      (w.run_process
        (record {
          executable = elim (w.absolute (build_compiler_arguments options).1 s') [
            | none ↦ (build_compiler_arguments options).1
            | some p ↦ p
          ];
          args = options.program_args;
          environment = options.environment;
          working_directory = options.working_directory;
          timeout = options.timeout;
        })
        s').0

  -- A result is that of the process.
  abbrev pub IsOf : ProcessResult → AnalyzerResult → Type 0
  IsOf process r =
      (r.exit_code ≡ process.exit_code)
      × (r.stdout_text ≡ process.stdout_text)
      × (r.stderr_text ≡ process.stderr_text)
      × (r.timed_out ≡ process.timed_out)

  compile_and_run_executed : ((compile_and_run w options s).0.executed ≡ true) ↔ (
      (compiled_of.0.success ≡ true)
      × (options.run_program ≡ true)
      × (is_empty process_of.error_text ≡ true))
  unfolding compile_and_run take_process read_output absolute_path
  compile_and_run_executed = ground arith

  compile_and_run-IsOf :
      (compile_and_run w options s).0.executed ≡ true
      → IsOf process_of (compile_and_run w options s).0
  unfolding compile_and_run take_process read_output absolute_path
  compile_and_run-IsOf h = ground arith

  -- Whatever the compiler and the program do: the program is executed exactly if the run is not
  -- refused, it was built, it is meant to run and it could be started. Then the outputs and the
  -- exit code are those of the process, the findings are those that `ParseFindings` reads in the
  -- one output and then in the other, the events are the CoreTrace lines of the one and then of the
  -- other, and the run is a success exactly with the exit code 0. If it is not executed, there are
  -- no findings and no events. In each case the summary is that of the events, each finding is well
  -- formed, and a success was built.
  pub run_analyzer-IsResult :
      let r = (run_analyzer w options s).0 in
      IsResult options.run_program r
      × ((r.executed ≡ true) ↔ (
          ((has_compile_only_action options.compiler_args && options.run_program) ≡ false)
          × ((options.explicit_output_path && (find_output_argument options.compiler_args).present)
              ≡ false)
          × (compiled_of.0.success ≡ true)
          × (options.run_program ≡ true)
          × (is_empty process_of.error_text ≡ true)))
      × (r.executed ≡ true → IsOf process_of r)
  unfolding run_analyzer
  run_analyzer-IsResult =
      let iff = compile_and_run_executed in
      let same = compile_and_run-IsOf in
      (run_analyzer_parts, ground arith, λ h. ground (arith, same))
