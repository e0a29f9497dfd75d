-- ===== src/Tests/EventRuns.antt =====
-- Events, their summary and the verdict, at concrete output.
use coretrace_runtime_analyz.Base.{
  Bytes, List, [], arith, codes, count, false, keep, length, refl, true, ◌++◌, ◌↔◌, ◌∷◌, ◌≡◌, ◌≢◌,
  ◌≤◌,
}
use coretrace_runtime_analyz.Text.{contains, find, starts_with}
use coretrace_runtime_analyz.Text.Lines.{lines}
use coretrace_runtime_analyz.Types.{CollectionSummary, default_result, empty_summary}
use coretrace_runtime_analyz.Events.{
  collect_events, collect_lines, exit_findings, exit_no_findings, exit_not_analyzed, is_allocation,
  is_bounds_error, is_coretrace_line, is_entry, is_error, is_exit, is_leak_report, is_vtable_event,
  is_warning, merge_summaries, strip_ansi, strip_loop, update_summary, verdict,
}
use coretrace_runtime_analyz.Events.Ansi.{Piece, plain, sequence, strip_ansi-written, written}
use coretrace_runtime_analyz.Events.Summary.{
  collect_events-kept, merge_summaries-append, summary_of,
}
use coretrace_runtime_analyz.Events.Bounds.{collect_events-bounds}
use coretrace_runtime_analyz.Events.Verdict.{Analyzed, verdict_iff}
use mathlib.Core.Option

collect : Bytes → List Bytes → CollectionSummary × List Bytes
unfolding collect_events collect_lines strip_ansi strip_loop lines is_coretrace_line update_summary
    is_entry is_exit is_allocation is_bounds_error is_leak_report is_vtable_event is_warning
    is_error contains find starts_with Option.map
collect = collect_events

abbrev output : Bytes
output = codes "hi\n==ct== [WARN] leaks detected\nct: enter main\n"

output_events : collect_events output (codes "x" ∷ []) ≡ (
  record empty_summary {
    coretrace_lines = 2;
    entry_events = 1;
    allocation_events = 1;
    leak_reports = 1;
    warnings = 1;
  },
  codes "x" ∷ codes "==ct== [WARN] leaks detected" ∷ codes "ct: enter main" ∷ [],
)
unfolding collect
output_events = refl

-- An escape sequence that is cut into another one is not stripped whole.
strip_twice : strip_ansi (0x1b ∷ 0x1b ∷ codes "[m[m") ≡ 0x1b ∷ codes "[m"
unfolding collect
strip_twice = refl

abbrev coloured : List Piece
coloured = sequence (codes "1;31") b'm' ∷ plain (codes "ct: leak") ∷ sequence [] b'm' ∷ []

strip_ansi-written_example : strip_ansi (written coloured) ≡ codes "ct: leak"
strip_ansi-written_example = strip_ansi-written coloured (
  ((refl, (refl, (refl, (refl, tt)))), refl),
  ((refl, (refl, (refl, (refl, (refl, (refl, (refl, (refl, tt)))))))), ((tt, refl), tt)),
)

collect_events-kept_example :
    let kept = keep is_coretrace_line (lines (strip_ansi output)) in
    collect_events output [] ≡ (summary_of kept, [] ++ kept)
collect_events-kept_example = collect_events-kept output []

merge_summaries-append_example :
    summary_of (codes "ct: enter f" ∷ codes "[ERROR]" ∷ [])
    ≡ merge_summaries (summary_of (codes "ct: enter f" ∷ [])) (summary_of (codes "[ERROR]" ∷ []))
merge_summaries-append_example =
    merge_summaries-append (codes "ct: enter f" ∷ []) (codes "[ERROR]" ∷ [])

collect_events-bounds_example :
    let s = (collect_events output []).0 in
    let kept = keep is_coretrace_line (lines (strip_ansi output)) in
    (s.coretrace_lines ≡ length kept)
    × (s.entry_events ≡ count is_entry kept)
    × (s.exit_events ≡ count is_exit kept)
    × (s.allocation_events ≡ count is_allocation kept)
    × (s.bounds_errors ≡ count is_bounds_error kept)
    × (s.leak_reports ≡ count is_leak_report kept)
    × (s.vtable_events ≡ count is_vtable_event kept)
    × (s.warnings ≡ count is_warning kept)
    × (s.errors ≡ count is_error kept)
    × (length kept ≤ length output)
    × (s.leak_reports ≤ s.allocation_events)
    × (s.entry_events ≤ s.coretrace_lines)
    × (s.exit_events ≤ s.coretrace_lines)
    × (s.allocation_events ≤ s.coretrace_lines)
    × (s.bounds_errors ≤ s.coretrace_lines)
    × (s.vtable_events ≤ s.coretrace_lines)
    × (s.warnings ≤ s.coretrace_lines)
    × (s.errors ≤ s.coretrace_lines)
collect_events-bounds_example = collect_events-bounds output [] (omega arith)

verdict_iff_example :
    ((verdict default_result true ≡ exit_findings)
      ↔ (Analyzed default_result true × (default_result.findings ≢ [])))
    × ((verdict default_result true ≡ exit_no_findings) ↔ (
        Analyzed default_result true
        × (default_result.findings ≡ [])
        × (default_result.timed_out ≡ false)))
    × (verdict default_result true ≤ exit_not_analyzed)
verdict_iff_example = verdict_iff default_result true
