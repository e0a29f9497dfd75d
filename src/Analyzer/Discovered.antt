-- ===== src/Analyzer/Discovered.antt =====
-- The results of `RunBatch` as a whole.

use coretrace_runtime_analyz.Sources.Found.{discover_source_files-IsStrict, holds_source}
use coretrace_runtime_analyz.Base.{
  All, Bool-cases, Bytes, List, Option, [], any, ap, arith, codes, false, inl, inr, is_some, none,
  refl, some, sym, true, ◌&&◌, ◌++◌, ◌∙◌, ◌∷◌, ◌≡◌, ◌≢◌, ◌≤◌,
}
use coretrace_runtime_analyz.World.{World}
use coretrace_runtime_analyz.Types.{AnalyzerOptions, BatchResult, TestFileResult, default_batch}
use coretrace_runtime_analyz.Events.{exit_no_findings, exit_not_analyzed}
use coretrace_runtime_analyz.Events.Summary.{summary_of}
use coretrace_runtime_analyz.Args.Compiler.{has_compile_only_action}
use coretrace_runtime_analyz.Sources.{discover_source_files, path_eq}
use coretrace_runtime_analyz.Sources.Order.{IsStrict, has}
use coretrace_runtime_analyz.Analyzer.{
  batch_compile_only_text, run_batch, run_in_directory, run_sources,
}
use coretrace_runtime_analyz.Analyzer.Batch.{Quiet, all_events, run_sources-exit, source_paths}
use coretrace_runtime_analyz.Analyzer.EachRun.{each_run}
use coretrace_runtime_analyz.Text.{bytes_eq}
use mathlib.Core.Path.{subst}
use mathlib.Core.List.{cons-ne-nil}

-- The parts of a batch's result agree.
pub record AgreesInParts (w : World) (options : AnalyzerOptions) (r : BatchResult) : Type 0 where
  pub once_each : IsStrict w.paths (source_paths r.tests)
  pub summary_counts : r.summary ≡ summary_of (all_events r.tests)
  pub exit_bound : r.exit_code ≤ exit_not_analyzed
  pub empty_exit : r.tests ≡ [] → r.exit_code ≡ exit_not_analyzed
  pub zero_quiet :
      r.exit_code ≡ exit_no_findings
      → All (Quiet options.run_program) r.tests
        × (options.strict_test_exit ≡ true → r.runtime_failures ≡ 0)
  pub quiet_zero :
      r.tests ≢ []
      → All (Quiet options.run_program) r.tests
      → (options.strict_test_exit ≡ true → r.runtime_failures ≡ 0)
      → r.exit_code ≡ exit_no_findings

-- A batch that runs nothing.
nothing-AgreesInParts :
    (w : World) (options : AnalyzerOptions) (messages : Bytes)
    → AgreesInParts w options (record default_batch { diagnostics = messages })
nothing-AgreesInParts w options messages = record {
  once_each = tt;
  summary_counts = refl;
  exit_bound = omega arith;
  empty_exit = λ _. refl;
  zero_quiet = λ h. absurd (omega arith);
  quiet_zero = λ ne _ _. absurd (ne refl);
}

module _ (w : World) (options : AnalyzerOptions) where
  run_sources-AgreesInParts :
      (sources : List Bytes) (messages : Bytes) (s : w.State)
      → IsStrict w.paths sources
      → AgreesInParts w options (run_sources w options sources messages s).0
  unfolding run_sources
  run_sources-AgreesInParts [] messages s strict =
      nothing-AgreesInParts w options (messages ++ codes "no C/C++ test sources found\n")
  run_sources-AgreesInParts (source ∷ sources) messages s strict =
      let r = (run_sources w options (source ∷ sources) messages s).0 in
      let (_, _, order, counts, le, exact) =
        run_sources-exit w options (source ∷ sources) messages s (cons-ne-nil source sources) in
      record {
        once_each = subst (IsStrict w.paths) (sym order) strict;
        summary_counts = counts;
        exit_bound = le;
        empty_exit = λ e. absurd (cons-ne-nil source sources (sym order ∙ ap source_paths e));
        zero_quiet = exact.0;
        quiet_zero = λ _ q k. exact.1 (q, k);
      }

  run_in_directory-AgreesInParts :
      (failure : Option Bytes) (s : w.State)
      → AgreesInParts w options (run_in_directory w options failure s).0
  unfolding run_in_directory
  run_in_directory-AgreesInParts (some message) s = nothing-AgreesInParts w options _
  run_in_directory-AgreesInParts none s =
      let (sources, messages) = discover_source_files w s options.test_directories in
      let (strict, _, _) = discover_source_files-IsStrict w s options.test_directories in
      run_sources-AgreesInParts sources messages s strict

  run_batch-AgreesInParts : (s : w.State) → AgreesInParts w options (run_batch w options s).0
  unfolding run_batch
  run_batch-AgreesInParts s =
      elim (Bool-cases (has_compile_only_action options.compiler_args && options.run_program)) [
        | inl e ↦ rw (run_batch, e) (nothing-AgreesInParts w options batch_compile_only_text)
        | inr e ↦
            let made = w.create_directories options.output_directory s in
            rw (run_batch, e) (run_in_directory-AgreesInParts made.0 made.1)
      ]

  run_sources-each_run :
      (sources : List Bytes) (messages : Bytes) (s : w.State)
      → let (r, s') = run_sources w options sources messages s in
        (r.tests ≡ (each_run w options sources s).0) × (s' ≡ (each_run w options sources s).1)
  unfolding run_sources
  run_sources-each_run [] messages s = (refl, refl)
  run_sources-each_run (source ∷ sources) messages s =
      let (tests, state, _, _, _, _) =
        run_sources-exit w options (source ∷ sources) messages s (cons-ne-nil source sources) in
      (tests, state)

  -- The runs of all sources that the directories hold, from the state `s` on.
  abbrev pub RunsFound : w.State → List TestFileResult → w.State → Type 0
  RunsFound s tests s' =
      (sources : List Bytes) × IsStrict w.paths sources
      × All (λ p. any (holds_source w s (bytes_eq p)) options.test_directories ≡ true) sources
      × ((z : Bytes)
          → has w.paths sources z
            ≡ any (holds_source w s (path_eq w.paths z)) options.test_directories)
      × (tests ≡ (each_run w options sources s).0)
      × (s' ≡ (each_run w options sources s).1)

  -- What a batch runs: nothing if it is refused or has no directory for its binaries, and otherwise
  -- all sources.
  abbrev pub RunsAll : w.State → List TestFileResult → w.State → Type 0
  RunsAll s tests s' =
      let made = w.create_directories options.output_directory s in
      let refused = has_compile_only_action options.compiler_args && options.run_program in
      (refused ≡ true → (tests ≡ []) × (s' ≡ s))
      × (refused ≡ false → is_some made.0 ≡ true → (tests ≡ []) × (s' ≡ made.1))
      × (refused ≡ false → is_some made.0 ≡ false → RunsFound made.1 tests s')

  abbrev pub IsBatchResult : w.State → BatchResult × w.State → Type 0
  IsBatchResult s (r, s') = AgreesInParts w options r × RunsAll s r.tests s'

  run_in_directory-none :
      (s : w.State) → let (r, s') = run_in_directory w options none s in RunsFound s r.tests s'
  unfolding run_in_directory
  run_in_directory-none s =
      let (sources, messages) = discover_source_files w s options.test_directories in
      let (strict, held, exact) = discover_source_files-IsStrict w s options.test_directories in
      let (tests, state) = run_sources-each_run sources messages s in
      (sources, strict, held, exact, tests, state)

  run_in_directory-made :
      (failure : Option Bytes) (s : w.State)
      → let (r, s') = run_in_directory w options failure s in
        (is_some failure ≡ true → (r.tests ≡ []) × (s' ≡ s))
        × (is_some failure ≡ false → RunsFound s r.tests s')
  unfolding run_in_directory
  run_in_directory-made (some message) s = (λ _. (refl, refl), λ h. absurd (cc))
  run_in_directory-made none s = (λ h. absurd (cc), λ _. run_in_directory-none s)

  run_batch-RunsAll : (s : w.State) → let (r, s') = run_batch w options s in RunsAll s r.tests s'
  unfolding run_batch
  run_batch-RunsAll s =
      elim (Bool-cases (has_compile_only_action options.compiler_args && options.run_program)) [
        | inl e ↦ rw (run_batch, e) (λ _. (refl, refl), λ h. absurd (cc), λ h. absurd (cc))
        | inr e ↦
            let made = w.create_directories options.output_directory s in
            let (failed, found) = run_in_directory-made made.0 made.1 in
            rw (run_batch, e) (λ h. absurd (cc), λ _. failed, λ _. found)
      ]

  -- A batch runs all the sources of its directories, each once and in the order of the paths, and
  -- nothing else. If it is not refused and the directory for its binaries is there, there is a list
  -- of sources in strict order, which are the regular files with one of the four extensions that the
  -- directories hold, and the tests and the state behind are those of `Run` for one after the other
  -- (`each_run`). If it is refused, or the directory cannot be made, nothing is run. Its summary is
  -- that of all tests. Its exit code is at most 2, and 2 if nothing was run; and it is 0 exactly when
  -- something was run, each test has the verdict 0 and, if the programs' exit codes count, none
  -- failed.
  pub run_batch-IsBatchResult : (s : w.State) → IsBatchResult s (run_batch w options s)
  run_batch-IsBatchResult s = (run_batch-AgreesInParts s, run_batch-RunsAll s)
