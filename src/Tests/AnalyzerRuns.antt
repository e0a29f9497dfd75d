-- ===== src/Tests/AnalyzerRuns.antt =====
-- Runs and batches, with a compiler and a program that are given.

use coretrace_runtime_analyz.Tests.Worlds.{counting}
use coretrace_runtime_analyz.Base.{
  All, Bytes, List, [], codes, false, is_empty, refl, true, ℕ, ◌&&◌, ◌↔◌, ◌∷◌, ◌≡◌, ◌≤◌,
}
use coretrace_runtime_analyz.Base.Int.{pos}
use coretrace_runtime_analyz.Text.{bytes_eq, contains, find, starts_with}
use coretrace_runtime_analyz.Text.Lines.{lines}
use coretrace_runtime_analyz.Types.{AnalyzerOptions, AnalyzerResult, default_options}
use coretrace_runtime_analyz.Events.{
  collect_events, collect_lines, exit_no_findings, exit_not_analyzed, is_allocation,
  is_bounds_error, is_coretrace_line, is_entry, is_error, is_exit, is_leak_report, is_vtable_event,
  is_warning, merge_summaries, strip_ansi, strip_loop, update_summary,
}
use coretrace_runtime_analyz.Events.Summary.{summary_of}
use coretrace_runtime_analyz.Args.Compiler.{
  build_compiler_arguments, find_output_argument, has_compile_only_action, is_compile_only_flag,
  without_instrument,
}
use coretrace_runtime_analyz.Analyzer.{
  absolute_path, compile_and_run, is_zero, read_output, run_analyzer, run_sources, take_process,
}
use coretrace_runtime_analyz.Analyzer.Runs.{
  IsOf, IsResult, compiled_of, process_of, run_analyzer-IsResult,
}
use coretrace_runtime_analyz.Analyzer.Batch.{Quiet, all_events, run_sources-exit, source_paths}
use mathlib.Core.Option
use coretrace_runtime_analyz.Analyzer.EachRun.{each_run}
use mathlib.Core.List.{cons-ne-nil}

abbrev one_file : Bytes → AnalyzerOptions
one_file source = record default_options { compiler_args = source ∷ [] }

analyze : AnalyzerOptions → ℕ → AnalyzerResult × ℕ
unfolding run_analyzer compile_and_run take_process read_output absolute_path is_zero
    has_compile_only_action is_compile_only_flag build_compiler_arguments without_instrument
    find_output_argument bytes_eq starts_with collect_events collect_lines strip_ansi strip_loop
    lines is_coretrace_line update_summary is_entry is_exit is_allocation is_bounds_error
    is_leak_report is_vtable_event is_warning is_error contains find Option.map merge_summaries
analyze = run_analyzer counting

failed_program :
    let r = (analyze (one_file (codes "a.c")) 0).0 in
    (r.compile_success ≡ true)
    × (r.executed ≡ true)
    × (r.success ≡ false)
    × (r.exit_code ≡ pos 3)
    × (r.coretrace_events ≡ codes "==ct== [WARN] leaks detected" ∷ [])
unfolding analyze
failed_program = (refl, refl, refl, refl, refl)

no_program : (analyze (one_file (codes "bad.c")) 0).1 ≡ 1
unfolding analyze
no_program = refl

run_analyzer-IsResult_example :
    let o = one_file (codes "a.c") in
    let r = (run_analyzer counting o 0).0 in
    IsResult true r
    × ((r.executed ≡ true) ↔ (
        ((has_compile_only_action o.compiler_args && true) ≡ false)
        × ((false && (find_output_argument o.compiler_args).present) ≡ false)
        × ((compiled_of counting o 0).0.success ≡ true)
        × (true ≡ true)
        × (is_empty (process_of counting o 0).error_text ≡ true)))
    × (r.executed ≡ true → IsOf counting o 0 (process_of counting o 0) r)
run_analyzer-IsResult_example = run_analyzer-IsResult counting (one_file (codes "a.c")) 0

abbrev two_sources : List Bytes
two_sources = codes "t/a.c" ∷ codes "bad.c" ∷ []

run_sources-exit_example :
    let (r, s') = run_sources counting (one_file (codes "-g")) two_sources [] 0 in
    (r.tests ≡ (each_run counting (one_file (codes "-g")) two_sources 0).0)
    × (s' ≡ (each_run counting (one_file (codes "-g")) two_sources 0).1)
    × (source_paths r.tests ≡ two_sources)
    × (r.summary ≡ summary_of (all_events r.tests))
    × (r.exit_code ≤ exit_not_analyzed)
    × ((r.exit_code ≡ exit_no_findings)
        ↔ (All (Quiet true) r.tests × (false ≡ true → r.runtime_failures ≡ 0)))
run_sources-exit_example =
    run_sources-exit counting (one_file (codes "-g")) two_sources [] 0 (cons-ne-nil _ _)
