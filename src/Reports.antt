-- ===== src/Reports.antt =====
-- src/runtime_analyzer.cpp: what is printed on the standard output. `codes "\n"` ends a line.
pub mod Statuses
use coretrace_runtime_analyz.Base.{
  Bytes, List, Option, [], codes, if◌then◌else◌, is_empty, length, none, not, some, suc, ℕ, ◌&&◌,
  ◌*◌, ◌++◌, ◌∷◌,
}
use coretrace_runtime_analyz.Base.Int.{negsuc, pos, ℤ}
use coretrace_runtime_analyz.Types.{
  AnalyzerOptions, AnalyzerResult, BatchResult, CollectionSummary, Finding, Severity,
  SourceLocation, TestFileResult, error, warning,
}
use coretrace_runtime_analyz.Findings.Site.{print_location, to_decimal}
use coretrace_runtime_analyz.Analyzer.{end_line}
use mathlib.Core.Option

-- `std::ostream << n`, on an `int`
unfoldable pub print_int : ℤ → Bytes
print_int (pos n) = to_decimal n
print_int (negsuc n) = codes "-" ++ to_decimal (suc n)

-- `std::ostream << name << n << '\n'`
abbrev pub print_count : Bytes → ℕ → Bytes
print_count name n = name ++ (to_decimal n ++ codes "\n")

abbrev severity_text : Severity → Bytes
severity_text error = codes "error: "
severity_text warning = codes "warning: "

-- The note below a finding.
unfoldable pub print_allocation : Option SourceLocation → Bytes → Bytes
print_allocation none indent = []
print_allocation (some allocation) indent =
    indent ++ (codes "  " ++ (print_location allocation ++ codes "note: allocated here\n"))

abbrev print_site : Option SourceLocation → Bytes
print_site none = []
print_site (some location) = print_location location

-- One round of `PrintFindings`.
unfoldable pub print_finding : Finding → Bytes → Bytes
print_finding finding indent =
    indent
    ++ (print_site finding.location
        ++ (severity_text finding.severity
            ++ (finding.message
                ++ (codes " ["
                    ++ (finding.rule
                        ++ (codes ", "
                            ++ (finding.cwe
                                ++ (codes "]\n"
                                    ++ print_allocation finding.allocation indent))))))))

-- `PrintFindings`
unfoldable pub print_findings : List Finding → Bytes → Bytes
print_findings [] indent = []
print_findings (finding ∷ findings) indent =
    print_finding finding indent ++ print_findings findings indent

-- The counters that both reports print.
unfoldable pub print_summary : CollectionSummary → Bytes
print_summary summary =
    print_count (codes "  coretrace_lines=") summary.coretrace_lines
    ++ (print_count (codes "  entry_events=") summary.entry_events
        ++ (print_count (codes "  exit_events=") summary.exit_events
            ++ (print_count (codes "  allocation_events=") summary.allocation_events
                ++ (print_count (codes "  bounds_errors=") summary.bounds_errors
                    ++ (print_count (codes "  leak_reports=") summary.leak_reports
                        ++ (print_count (codes "  vtable_events=") summary.vtable_events
                            ++ (print_count (codes "  warnings=") summary.warnings
                                ++ print_count (codes "  errors=") summary.errors)))))))

unfoldable pub print_events : Bytes → List Bytes → Bytes
print_events indent [] = []
print_events indent (event ∷ events) =
    indent ++ (event ++ (codes "\n" ++ print_events indent events))

-- `PrintResult`
unfoldable pub print_result : AnalyzerResult → AnalyzerOptions → Bytes
print_result result options =
    codes "runtime-analyzer: binary="
    ++ (result.output_path
        ++ (codes "\nruntime-analyzer: exit_code="
            ++ (print_int result.exit_code
                ++ (codes "\nruntime-analyzer: timed_out="
                    ++ ((if result.timed_out then codes "1" else codes "0")
                        ++ (print_count (codes "\nruntime-analyzer: findings=")
                              (length result.findings)
                            ++ (print_findings result.findings (codes "  ")
                                ++ (codes "runtime-analyzer: collection\n"
                                    ++ (print_summary result.summary
                                        ++ ((if options.show_events
                                                && not (is_empty result.coretrace_events)
                                              then codes "\nruntime-analyzer: events\n"
                                                ++ print_events [] result.coretrace_events
                                              else [])
                                            ++ (if options.show_program_output
                                                then codes "\nruntime-analyzer: stdout\n"
                                                  ++ (end_line result.stdout_text
                                                      ++ (codes "\nruntime-analyzer: stderr\n"
                                                          ++ end_line result.stderr_text))
                                                else [])))))))))))

-- The status of a test.
pub data Status : Type 0 where
  pass compile_failed timed_out_status runtime_failed : Status

unfoldable pub status_of : AnalyzerResult → Status
status_of analyzer =
    if not analyzer.compile_success
    then compile_failed
    else if analyzer.timed_out
    then timed_out_status
    else if not analyzer.success
    then runtime_failed
    else pass

abbrev pub status_text : Status → Bytes
status_text pass = codes "PASS"
status_text compile_failed = codes "COMPILE"
status_text timed_out_status = codes "TIMEOUT"
status_text runtime_failed = codes "RUNTIME"

-- One round of the loop of `PrintBatchResult`.
unfoldable pub print_test : AnalyzerOptions → TestFileResult → Bytes
print_test options test =
    let analyzer = test.analyzer_result in
    codes "runtime-analyzer: ["
    ++ (status_text (status_of analyzer)
        ++ (codes "] "
            ++ (test.source_path
                ++ (codes " exit_code="
                    ++ (print_int analyzer.exit_code
                        ++ (codes " coretrace_lines="
                            ++ (to_decimal analyzer.summary.coretrace_lines
                                ++ (codes " binary="
                                    ++ (analyzer.output_path
                                        ++ (codes "\n"
                                            ++ (print_findings analyzer.findings (codes "  ")
                                                ++ (if options.show_events
                                                      && not (is_empty analyzer.coretrace_events)
                                                    then print_events (codes "  ")
                                                        analyzer.coretrace_events
                                                    else []))))))))))))

unfoldable pub print_tests : AnalyzerOptions → List TestFileResult → Bytes
print_tests options [] = []
print_tests options (test ∷ tests) = print_test options test ++ print_tests options tests

-- `PrintBatchResult`
unfoldable pub print_batch_result : BatchResult → AnalyzerOptions → Bytes
print_batch_result result options =
    codes "runtime-analyzer: batch\n"
    ++ (print_count (codes "  tests=") (length result.tests)
        ++ (print_count (codes "  compile_failures=") result.compile_failures
            ++ (print_count (codes "  runtime_failures=") result.runtime_failures
                ++ (print_count (codes "  timeouts=") result.timeouts
                    ++ (print_summary result.summary ++ print_tests options result.tests)))))
