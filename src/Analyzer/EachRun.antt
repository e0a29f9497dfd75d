-- ===== src/Analyzer/EachRun.antt =====
-- The tests of a batch, each by its own run.

use coretrace_runtime_analyz.World.{World}
use coretrace_runtime_analyz.Base.{
  Bytes, List, [], ap, append-nil, append_assoc, if◌then◌else◌, is_empty, refl, sym, true, ◌++◌,
  ◌∙◌, ◌∷◌, ◌≡◌,
}
use coretrace_runtime_analyz.Types.{AnalyzerOptions, AnalyzerResult, TestFileResult}
use coretrace_runtime_analyz.Args.Compiler.{add_compatibility_args}
use coretrace_runtime_analyz.Args.Artifact.{make_test_output_path}
use coretrace_runtime_analyz.Analyzer.{
  BatchState, add_test, options_of_test, run_analyzer, run_test, run_tests,
}

-- The result of a source's run, with the path of its binary.
abbrev named_test : Bytes → Bytes → AnalyzerResult → TestFileResult
named_test source output_path r = record {
  source_path = source;
  analyzer_result = if is_empty r.output_path then record r { output_path = output_path } else r;
}

module _ (w : World) (options : AnalyzerOptions) where
  -- One source's run: its own binary's path, its own arguments, and nothing else of the batch.
  abbrev source_run : Bytes → w.State → AnalyzerResult × w.State
  source_run source s =
      let output_path = make_test_output_path (λ p. w.relative p s) options source in
      run_analyzer w
        (record options {
          test_directories = [];
          output_path = output_path;
          explicit_output_path = true;
          compiler_args =
              add_compatibility_args (λ p. w.read_file p s) source options.compiler_args
              ++ source ∷ [];
        })
        (w.remove output_path s)

  -- The runs of some sources, one behind the other.
  abbrev pub each_run : List Bytes → w.State → List TestFileResult × w.State
  each_run [] s = ([], s)
  each_run (source ∷ sources) s =
      let (r, s') = source_run source s in
      let (tests, s'') = each_run sources s' in
      (
        named_test source (make_test_output_path (λ p. w.relative p s) options source) r ∷ tests,
        s'',
      )

  add_test_lem :
      (source output_path : Bytes) (b : BatchState) (r : AnalyzerResult)
      → (add_test options source output_path b r).batch.tests
        ≡ b.batch.tests ++ named_test source output_path r ∷ []
  unfolding add_test
  add_test_lem source output_path b r = refl

  pub run_tests-each_run :
      (sources : List Bytes) (b : BatchState) (s : w.State)
      → let (b', s') = run_tests w options sources b s in
        (b'.batch.tests ≡ b.batch.tests ++ (each_run sources s).0) × (s' ≡ (each_run sources s).1)
  unfolding run_tests run_test options_of_test
  run_tests-each_run [] b s = (sym (append-nil b.batch.tests), refl)
  run_tests-each_run (source ∷ sources) b s =
      let (r, s') = source_run source s in
      let output_path = make_test_output_path (λ p. w.relative p s) options source in
      let test = named_test source output_path r in
      let (tests, state) =
        run_tests-each_run sources (add_test options source output_path b r) s' in
      (
        tests
            ∙ ap (λ l. l ++ (each_run sources s').0) (add_test_lem source output_path b r)
            ∙ append_assoc b.batch.tests (test ∷ []) (each_run sources s').0,
        state,
      )
