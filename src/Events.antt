-- ===== src/Events.antt =====
-- src/events.cpp: what is read from a run's output, and the verdict. Counters are 64-bit.
pub mod Ansi
pub mod Summary
pub mod Bounds
pub mod Verdict
use coretrace_runtime_analyz.Base.{
  Bool, Bytes, List, [], add64, codes, false, if◌then◌else◌, is_empty, leb, not, true, ℕ, ◌&&◌, ◌*◌,
  ◌++◌, ◌==◌, ◌||◌, ◌∷◌,
}
use coretrace_runtime_analyz.Text.{contains}
use coretrace_runtime_analyz.Text.Lines.{lines}
use coretrace_runtime_analyz.Types.{AnalyzerResult, CollectionSummary, empty_summary}

-- '\x1b'
abbrev pub escape : ℕ
escape = 0x1b

abbrev pub is_letter : ℕ → Bool
is_letter c = leb b'A' c && leb c b'Z' || leb b'a' c && leb c b'z'

-- The loops of `StripAnsi`, over what is left of the input: the outer one, and, where the flag is
-- set, the inner one, which runs up to a letter.
unfoldable pub strip_loop : Bool → Bytes → Bytes
strip_loop inside [] = []
strip_loop true (c ∷ cs) = elim (is_letter c) [
  | true ↦ strip_loop false cs
  | false ↦ strip_loop true cs
]
strip_loop false (c ∷ []) = c ∷ []
strip_loop false (c ∷ d ∷ cs) = elim (c == escape && d == b'[') [
  | true ↦ strip_loop true cs
  | false ↦ c ∷ strip_loop false (d ∷ cs)
]

-- `StripAnsi`
unfoldable pub strip_ansi : Bytes → Bytes
strip_ansi = strip_loop false

-- `IsCoreTraceLine`
unfoldable pub is_coretrace_line : Bytes → Bool
is_coretrace_line line =
    contains line (codes "==ct==")
    || contains line (codes "ct:")
    || contains line (codes "[ENTRY-FUNCTION]")
    || contains line (codes "[EXIT-FUNCTION]")
    || contains line (codes "[VTABLE-DIAG]")
    || contains line (codes "tracing-")
    || contains line (codes "auto-free")
    || contains line (codes "heap-buffer-overflow")
    || contains line (codes "heap-use-after-free")

-- The tests of `UpdateSummary`, one for each counter.
unfoldable pub is_entry : Bytes → Bool
is_entry line = contains line (codes "[ENTRY-FUNCTION]") || contains line (codes "ct: enter ")

unfoldable pub is_exit : Bytes → Bool
is_exit line = contains line (codes "[EXIT-FUNCTION]")

unfoldable pub is_allocation : Bytes → Bool
is_allocation line =
    contains line (codes "tracing-")
    || contains line (codes "auto-free")
    || contains line (codes "leaks detected")
    || contains line (codes "ct: leak ")

unfoldable pub is_bounds_error : Bytes → Bool
is_bounds_error line =
    contains line (codes "heap-buffer-overflow") || contains line (codes "heap-use-after-free")

unfoldable pub is_leak_report : Bytes → Bool
is_leak_report line = contains line (codes "leaks detected") || contains line (codes "ct: leak ")

unfoldable pub is_vtable_event : Bytes → Bool
is_vtable_event line = contains line (codes "[VTABLE-DIAG]")

unfoldable pub is_warning : Bytes → Bool
is_warning line = contains line (codes "[WARN]") || contains line (codes " WARN ")

unfoldable pub is_error : Bytes → Bool
is_error line = contains line (codes "[ERROR]") || contains line (codes " ERROR ")

-- `if (test) { ++counter; }`
abbrev pub bump : Bool → ℕ → ℕ
bump test counter = if test then add64 counter 1 else counter

-- `UpdateSummary`
unfoldable pub update_summary : Bytes → CollectionSummary → CollectionSummary
update_summary line summary = record summary {
  entry_events = bump (is_entry line) summary.entry_events;
  exit_events = bump (is_exit line) summary.exit_events;
  allocation_events = bump (is_allocation line) summary.allocation_events;
  bounds_errors = bump (is_bounds_error line) summary.bounds_errors;
  leak_reports = bump (is_leak_report line) summary.leak_reports;
  vtable_events = bump (is_vtable_event line) summary.vtable_events;
  warnings = bump (is_warning line) summary.warnings;
  errors = bump (is_error line) summary.errors;
}

-- The loop of `CollectEvents`, over the lines that `std::getline` reads.
unfoldable pub collect_lines :
    List Bytes → CollectionSummary → List Bytes → CollectionSummary × List Bytes
collect_lines [] summary events = (summary, events)
collect_lines (line ∷ rest) summary events = elim (is_coretrace_line line) [
  | false ↦ collect_lines rest summary events
  | true ↦
      collect_lines rest
        (update_summary line (record summary { coretrace_lines = add64 summary.coretrace_lines 1 }))
        (events ++ line ∷ [])
]

-- `CollectEvents`: the summary, and the events with those of the text behind them.
unfoldable pub collect_events : Bytes → List Bytes → CollectionSummary × List Bytes
collect_events text events = collect_lines (lines (strip_ansi text)) empty_summary events

-- `MergeSummaries`
unfoldable pub merge_summaries : CollectionSummary → CollectionSummary → CollectionSummary
merge_summaries lhs rhs = record {
  coretrace_lines = add64 lhs.coretrace_lines rhs.coretrace_lines;
  entry_events = add64 lhs.entry_events rhs.entry_events;
  exit_events = add64 lhs.exit_events rhs.exit_events;
  allocation_events = add64 lhs.allocation_events rhs.allocation_events;
  bounds_errors = add64 lhs.bounds_errors rhs.bounds_errors;
  leak_reports = add64 lhs.leak_reports rhs.leak_reports;
  vtable_events = add64 lhs.vtable_events rhs.vtable_events;
  warnings = add64 lhs.warnings rhs.warnings;
  errors = add64 lhs.errors rhs.errors;
}

abbrev pub exit_no_findings : ℕ
exit_no_findings = 0

abbrev pub exit_findings : ℕ
exit_findings = 1

abbrev pub exit_not_analyzed : ℕ
exit_not_analyzed = 2

-- `Verdict`
unfoldable pub verdict : AnalyzerResult → Bool → ℕ
verdict result run_program =
    if not result.compile_success || run_program && not result.executed
    then exit_not_analyzed
    else if not (is_empty result.findings)
    then exit_findings
    else if result.timed_out
    then exit_not_analyzed
    else exit_no_findings
