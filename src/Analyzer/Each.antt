-- ===== src/Analyzer/Each.antt =====
-- What holds of each test of a batch.

use coretrace_runtime_analyz.Base.{
  All, All-append, Bool, Bool-cases, Bytes, List, Option, [], inl, inr, is_empty, none, some, ◌&&◌,
  ◌∷◌,
}
use coretrace_runtime_analyz.Types.{
  AnalyzerOptions, AnalyzerResult, BatchResult, TestFileResult, default_batch,
}
use coretrace_runtime_analyz.World.{World}
use coretrace_runtime_analyz.Args.Compiler.{has_compile_only_action}
use coretrace_runtime_analyz.Sources.{discover_source_files}
use coretrace_runtime_analyz.Analyzer.{
  BatchState, add_test, batch_compile_only_text, finish_batch, options_of_test, run_analyzer,
  run_batch, run_in_directory, run_sources, run_test, run_tests,
}
use coretrace_runtime_analyz.Analyzer.Runs.{IsResult, IsResult-output_path, run_analyzer_parts}

abbrev pub EachIsResult : Bool → List TestFileResult → Type 0
EachIsResult run_program = All (λ (t : TestFileResult). IsResult run_program t.analyzer_result)

add_test-EachIsResult :
    (options : AnalyzerOptions) (b : BatchState) (source output_path : Bytes) (r : AnalyzerResult)
    → IsResult options.run_program r
    → EachIsResult options.run_program b.batch.tests
    → EachIsResult options.run_program (add_test options source output_path b r).batch.tests
unfolding add_test
add_test-EachIsResult options b source output_path r i h =
    elim (Bool-cases (is_empty r.output_path)) [
      | inl e ↦
          rw (add_test, e)
            (All-append (λ (t : TestFileResult). IsResult options.run_program t.analyzer_result)
              b.batch.tests _ h (IsResult-output_path i output_path, tt))
      | inr e ↦
          rw (add_test, e)
            (All-append (λ (t : TestFileResult). IsResult options.run_program t.analyzer_result)
              b.batch.tests _ h (i, tt))
    ]

module _ (w : World) (options : AnalyzerOptions) (I : BatchState → Type 0)
    (kept : (b : BatchState) (source output_path : Bytes) (r : AnalyzerResult)
      → IsResult options.run_program r
      → I b
      → I (add_test options source output_path b r)) where
  -- What each round keeps holds behind the loop.
  run_tests-keeps :
      (sources : List Bytes) (b : BatchState) (s : w.State)
      → I b
      → I (run_tests w options sources b s).0
  unfolding run_tests run_test options_of_test
  run_tests-keeps [] b s h = h
  run_tests-keeps (source ∷ sources) b s h =
      let o = options_of_test w options source s in
      let ran = run_analyzer w o (w.remove o.output_path s) in
      run_tests-keeps sources _ ran.1
        (kept b source o.output_path ran.0 (run_analyzer_parts w o (w.remove o.output_path s)) h)

  -- So it does for a batch, where it holds at the start and is about nothing but what the loop
  -- changes.
  module _ (P : BatchResult → Type 0)
      (started : (messages : Bytes)
        → I (record { batch = record default_batch { diagnostics = messages }; worst = 0 }))
      (empty : (messages : Bytes) → P (record default_batch { diagnostics = messages }))
      (finish : (b : BatchState) → I b → P (finish_batch options b)) where
    run_sources-keeps :
        (sources : List Bytes) (messages : Bytes) (s : w.State)
        → P (run_sources w options sources messages s).0
    unfolding run_sources
    run_sources-keeps [] messages s = empty _
    run_sources-keeps (source ∷ sources) messages s =
        finish _ (run_tests-keeps (source ∷ sources) _ s (started messages))

    run_in_directory-keeps :
        (failure : Option Bytes) (s : w.State) → P (run_in_directory w options failure s).0
    unfolding run_in_directory
    run_in_directory-keeps (some message) s = empty _
    run_in_directory-keeps none s =
        let found = discover_source_files w s options.test_directories in
        run_sources-keeps found.0 found.1 s

    pub run_batch-keeps : (s : w.State) → P (run_batch w options s).0
    unfolding run_batch
    run_batch-keeps s =
        elim (Bool-cases (has_compile_only_action options.compiler_args && options.run_program)) [
          | inl e ↦ rw (run_batch, e) (empty batch_compile_only_text)
          | inr e ↦
              let made = w.create_directories options.output_directory s in
              rw (run_batch, e) (run_in_directory-keeps made.0 made.1)
        ]

-- Each test of a batch is a result whose parts agree.
pub run_batch-EachIsResult :
    (w : World) (options : AnalyzerOptions) (s : w.State)
    → EachIsResult options.run_program (run_batch w options s).0.tests
unfolding finish_batch
run_batch-EachIsResult w options =
    run_batch-keeps w options (λ b. EachIsResult options.run_program b.batch.tests)
      (add_test-EachIsResult options) (λ r. EachIsResult options.run_program r.tests)
      (λ messages. tt) (λ messages. tt) (λ b h. h)
