-- ===== src/Analyzer.antt =====
-- src/runtime_analyzer.cpp: `Run`, `RunBatch` and `AllFindings`.
pub mod Runs
pub mod EachRun
pub mod Batch
pub mod Discovered
pub mod Each
use coretrace_runtime_analyz.Base.{
  Bool, Bytes, List, Option, [], codes, false, if◌then◌else◌, is_empty, ltb, none, not, some, true,
  ℕ, ◌&&◌, ◌*◌, ◌++◌, ◌+◌, ◌/◌, ◌==◌, ◌||◌, ◌∷◌,
}
use coretrace_runtime_analyz.Base.Int.{negsuc, pos, ℤ}
use coretrace_runtime_analyz.Text.{ends_with}
use coretrace_runtime_analyz.Sources.{discover_source_files}
use coretrace_runtime_analyz.World.{ProcessResult, World}
use coretrace_runtime_analyz.Types.{
  AnalyzerOptions, AnalyzerResult, BatchResult, Finding, TestFileResult, default_batch,
  default_result,
}
use coretrace_runtime_analyz.Findings.Site.{to_decimal}
use coretrace_runtime_analyz.Findings.Parser.{parse_findings}
use coretrace_runtime_analyz.Events.{
  bump, collect_events, exit_findings, exit_no_findings, merge_summaries, strip_ansi, verdict,
}
use coretrace_runtime_analyz.Args.Compiler.{
  add_compatibility_args, build_compiler_arguments, find_output_argument, has_compile_only_action,
}
use coretrace_runtime_analyz.Args.Artifact.{make_test_output_path}
use mathlib.Core.Option

-- `std::to_string(duration_cast<seconds>(timeout).count())`
abbrev pub seconds_text : ℤ → Bytes
seconds_text (pos n) = to_decimal (n / 1000)
seconds_text (negsuc n) =
    if (n + 1) / 1000 == 0 then codes "0" else codes "-" ++ to_decimal ((n + 1) / 1000)

-- `if (!text.empty() && text.back() != '\n') text.push_back('\n');`
unfoldable pub end_line : Bytes → Bytes
end_line text = if is_empty text || ends_with text (codes "\n") then text else text ++ codes "\n"

-- The findings of `ParseFindings`; its `none` is a fault, for which there is no value in C++.
unfoldable pub findings_in : Bytes → List Finding
findings_in text = elim (parse_findings text) [ none ↦ [] | some fs ↦ fs ]

-- `exit_code == 0`
unfoldable pub is_zero : ℤ → Bool
is_zero (pos n) = n == 0
is_zero (negsuc n) = false

-- What `Run` reads from the output of a program that ran.
unfoldable pub read_output : AnalyzerResult → AnalyzerResult
read_output result =
    let (stdout_summary, stdout_events) = collect_events result.stdout_text [] in
    let (stderr_summary, stderr_events) = collect_events result.stderr_text [] in
    record result {
      summary = merge_summaries stdout_summary stderr_summary;
      coretrace_events = stdout_events ++ stderr_events;
      findings =
          findings_in (strip_ansi result.stdout_text)
          ++ findings_in (strip_ansi result.stderr_text);
      success = is_zero result.exit_code;
    }

-- What `Run` does with the process's result.
unfoldable pub take_process : AnalyzerOptions → AnalyzerResult → ProcessResult → AnalyzerResult
take_process options result process =
    let timeout_text =
      if process.timed_out
      then codes "program timed out after " ++ seconds_text options.timeout ++ codes " s\n"
      else [] in
    let ran = record result {
      stdout_text = process.stdout_text;
      stderr_text = process.stderr_text;
      exit_code = process.exit_code;
      executed = is_empty process.error_text;
      timed_out = process.timed_out;
      diagnostics = result.diagnostics ++ timeout_text;
    } in
    if not (is_empty process.error_text)
    then record ran { diagnostics = end_line (ran.diagnostics ++ process.error_text) }
    else read_output ran

abbrev pub compile_only_text : Bytes
compile_only_text =
    codes
      "runtime-analyzer requires a linked executable; remove compile-only flags or pass --no-run"

abbrev pub output_twice_text : Bytes
output_twice_text =
    codes "output path specified twice: use analyzer -o/--output or compiler -o, not both"

module _ (w : World) where
  -- `AbsolutePathForExecution`
  unfoldable pub absolute_path : Bytes → w.State → Bytes
  absolute_path path s = elim (w.absolute path s) [ none ↦ path | some p ↦ p ]

  -- `Run` behind its two checks.
  unfoldable pub compile_and_run : AnalyzerOptions → w.State → AnalyzerResult × w.State
  compile_and_run options s =
      let (args, output_path) = build_compiler_arguments options in
      let (compiled, s') = w.compile args s in
      let result = record default_result {
        diagnostics = compiled.diagnostics;
        output_path = output_path;
      } in
      if not compiled.success
      then (result, s')
      else if not options.run_program
      then (record result { compile_success = true; success = true; exit_code = pos 0 }, s')
      else (let (process, s'') =
            w.run_process
              (record {
                executable = absolute_path output_path s';
                args = options.program_args;
                environment = options.environment;
                working_directory = options.working_directory;
                timeout = options.timeout;
              })
              s' in
          (take_process options (record result { compile_success = true }) process, s''))

  -- `Run`
  unfoldable pub run_analyzer : AnalyzerOptions → w.State → AnalyzerResult × w.State
  run_analyzer options s =
      if has_compile_only_action options.compiler_args && options.run_program
      then (record default_result { diagnostics = compile_only_text }, s)
      else if options.explicit_output_path && (find_output_argument options.compiler_args).present
      then (record default_result { diagnostics = output_twice_text }, s)
      else compile_and_run options s

  -- The options of one test of a batch.
  unfoldable pub options_of_test : AnalyzerOptions → Bytes → w.State → AnalyzerOptions
  options_of_test options source s = record options {
    test_directories = [];
    output_path = make_test_output_path (λ p. w.relative p s) options source;
    explicit_output_path = true;
    compiler_args =
        add_compatibility_args (λ p. w.read_file p s) source options.compiler_args ++ source ∷ [];
  }

-- `std::max` of two verdicts
abbrev pub max_verdict : ℕ → ℕ → ℕ
max_verdict a b = if ltb a b then b else a

-- The loop's variables: `batch` and `verdict`.
pub record BatchState : Type 0 where
  pub batch : BatchResult
  pub worst : ℕ

-- The end of a round: what a test's result adds to the batch.
unfoldable pub add_test : AnalyzerOptions → Bytes → Bytes → BatchState → AnalyzerResult → BatchState
add_test options source output_path b analyzer =
    let named =
      if is_empty analyzer.output_path
      then record analyzer { output_path = output_path }
      else analyzer in
    let batch = b.batch in
    let failed_compile = not analyzer.compile_success in
    let timed = analyzer.compile_success && analyzer.timed_out in
    let failed_run =
      analyzer.compile_success && (not analyzer.timed_out && not (is_zero analyzer.exit_code)) in
    record {
      batch = record batch {
        diagnostics =
            if not (is_empty analyzer.diagnostics)
            then end_line (batch.diagnostics ++ source ++ codes ":\n" ++ analyzer.diagnostics)
            else batch.diagnostics;
        compile_failures = bump failed_compile batch.compile_failures;
        timeouts = bump timed batch.timeouts;
        runtime_failures = bump failed_run batch.runtime_failures;
        summary = merge_summaries batch.summary named.summary;
        tests = batch.tests ++ record { source_path = source; analyzer_result = named } ∷ [];
      };
      worst = max_verdict b.worst (verdict named options.run_program);
    }

module _ (w : World) where
  -- One round of the loop of `RunBatch`.
  unfoldable pub run_test : AnalyzerOptions → Bytes → BatchState → w.State → BatchState × w.State
  run_test options source b s =
      let o = options_of_test w options source s in
      let (analyzer, s') = run_analyzer w o (w.remove o.output_path s) in
      (add_test options source o.output_path b analyzer, s')

  unfoldable pub run_tests :
      AnalyzerOptions → List Bytes → BatchState → w.State → BatchState × w.State
  run_tests options [] b s = (b, s)
  run_tests options (source ∷ sources) b s =
      let (b', s') = run_test options source b s in run_tests options sources b' s'

-- The end of `RunBatch`.
unfoldable pub finish_batch : AnalyzerOptions → BatchState → BatchResult
finish_batch options b =
    let runtime_ok = if options.strict_test_exit then b.batch.runtime_failures == 0 else true in
    record b.batch {
      success = b.batch.compile_failures == 0 && runtime_ok;
      exit_code = if runtime_ok then b.worst else max_verdict b.worst exit_findings;
    }

module _ (w : World) where
  -- `RunBatch` behind the search for its sources, whose messages are the argument.
  unfoldable pub run_sources :
      AnalyzerOptions → List Bytes → Bytes → w.State → BatchResult × w.State
  run_sources options sources messages s =
      let batch = record default_batch { diagnostics = messages } in
      if is_empty sources
      then (record batch { diagnostics = messages ++ codes "no C/C++ test sources found\n" }, s)
      else (let (b, s') =
            run_tests w options sources (record { batch = batch; worst = exit_no_findings }) s in
          (finish_batch options b, s'))

abbrev pub batch_compile_only_text : Bytes
batch_compile_only_text =
    codes
      "runtime-analyzer batch mode requires linked executables; remove compile-only flags or pass --no-run"

module _ (w : World) where
  -- `RunBatch` behind `create_directories`, with the message of its error.
  unfoldable pub run_in_directory : AnalyzerOptions → Option Bytes → w.State → BatchResult × w.State
  run_in_directory options (some message) s = (
    record default_batch {
      diagnostics =
          codes "failed to create output directory "
          ++ options.output_directory
          ++ codes ": "
          ++ message;
    },
    s,
  )
  run_in_directory options none s =
      let (sources, messages) = discover_source_files w s options.test_directories in
      run_sources w options sources messages s

  -- `RunBatch`
  unfoldable pub run_batch : AnalyzerOptions → w.State → BatchResult × w.State
  run_batch options s =
      if has_compile_only_action options.compiler_args && options.run_program
      then (record default_batch { diagnostics = batch_compile_only_text }, s)
      else (let (failure, s') = w.create_directories options.output_directory s in
          run_in_directory options failure s')

-- `AllFindings`
unfoldable pub all_findings : List TestFileResult → List Finding
all_findings [] = []
all_findings (test ∷ tests) = test.analyzer_result.findings ++ all_findings tests
