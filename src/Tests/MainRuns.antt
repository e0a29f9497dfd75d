-- ===== src/Tests/MainRuns.antt =====
-- Whole runs of the program.

use coretrace_runtime_analyz.Main.Logs.{Logged}
use coretrace_runtime_analyz.Toolchain.Kept.{use_shipped_clang_headers-getenv}
use coretrace_runtime_analyz.Base.{
  Bool, Bytes, List, Option, [], any, codes, false, none, refl, some, true, ◌++◌, ◌∷◌, ◌≡◌, ◌≢◌,
  ◌≤◌, ◌⊎◌,
}
use coretrace_runtime_analyz.Text.{bytes_eq, starts_with}
use coretrace_runtime_analyz.Types.{Finding, default_finding}
use coretrace_runtime_analyz.Events.{exit_not_analyzed}
use coretrace_runtime_analyz.Args.Parse.{
  ParseResult, check_result, forward, parse_args, parse_argument, parse_flag, parse_from,
  parse_valued, sarif, set_format,
}
use coretrace_runtime_analyz.Args.Artifact.{join_path}
use coretrace_runtime_analyz.Findings.Site.{print_location, to_decimal}
use coretrace_runtime_analyz.Toolchain.{
  has_headers, is_configured, lib_beside, use_shipped_clang_headers, use_version,
}
use coretrace_runtime_analyz.Reports.{print_allocation, print_finding, print_findings}
use coretrace_runtime_analyz.Main.{Build, add_link_arguments, main}
use coretrace_runtime_analyz.Main.Exit.{main-LogsFindings, main-le, main-refused}
use coretrace_runtime_analyz.Sarif.Reader.{read_log}
use coretrace_runtime_analyz.Tests.Worlds.{ascii_only, counting, remembering}

parse : List Bytes → ParseResult
unfolding parse_args parse_from parse_argument parse_valued parse_flag set_format forward
    check_result bytes_eq starts_with
parse = parse_args

abbrev printed : Build
printed = record {
  json_strings = ascii_only;
  print_json =
      λ log. elim (read_log log) [ none ↦ codes "no log" | some fs ↦ print_findings fs [] ];
  version = codes "1.0";
}

abbrev with_log : List Bytes
with_log = codes "--format=sarif" ∷ codes "--" ∷ codes "a.c" ∷ []

abbrev mistaken : List Bytes
mistaken = codes "--fast" ∷ []

with_log_parsed :
    ((parse with_log).ok ≡ true)
    × ((parse with_log).help ≡ false)
    × ((parse with_log).version ≡ false)
    × ((parse with_log).format ≡ sarif)
unfolding parse
with_log_parsed = (refl, refl, refl, refl)

mistaken_parsed :
    ((parse mistaken).ok ≡ false)
    × ((parse mistaken).help ≡ false)
    × ((parse mistaken).version ≡ false)
unfolding parse
mistaken_parsed = (refl, refl, refl)

with_log_accepted :
    ((parse_args with_log).ok ≡ true)
    × ((parse_args with_log).help ≡ false)
    × ((parse_args with_log).version ≡ false)
    × ((parse_args with_log).format ≡ sarif)
unfolding parse
with_log_accepted = with_log_parsed

mistaken_refused :
    ((parse_args mistaken).ok ≡ false)
    × ((parse_args mistaken).help ≡ false)
    × ((parse_args mistaken).version ≡ false)
unfolding parse
mistaken_refused = mistaken_parsed

main-LogsFindings_example :
    let s' = (use_shipped_clang_headers counting (codes "bin") 0).1 in
    Logged printed counting
      (add_link_arguments printed counting (parse_args with_log) (codes "bin") s')
      s'
      (main printed counting with_log 0).0
main-LogsFindings_example =
    main-LogsFindings printed counting with_log 0 with_log_accepted.0 with_log_accepted.1
      with_log_accepted.2 with_log_accepted.3

main-refused_example :
    let (outcome, s') = main printed counting mistaken 0 in
    (s' ≡ (use_shipped_clang_headers counting (codes "bin") 0).1)
    × (outcome.out ≡ [])
    × (outcome.status ≡ exit_not_analyzed)
    × (starts_with outcome.err
          (codes "runtime-analyzer: " ++ ((parse_args mistaken).error_text ++ codes "\n"))
        ≡ true)
main-refused_example =
    main-refused printed counting mistaken 0 mistaken_refused.0 mistaken_refused.1
      mistaken_refused.2

main-le_example :
    ((main printed counting mistaken 0).0.status ≤ exit_not_analyzed)
    × (((parse_args mistaken).help ≡ true) ⊎ ((parse_args mistaken).version ≡ true)
        → ((main printed counting mistaken 0).0.status ≡ 0)
          × ((main printed counting mistaken 0).1 ≡ 0))
main-le_example = main-le printed counting mistaken 0

shipped_run : Bytes → Option Bytes → Bool × Option Bytes
unfolding use_shipped_clang_headers use_version
shipped_run = use_shipped_clang_headers remembering

shipped_once : shipped_run (codes "bin") none ≡ (true, some (codes "bin"))
unfolding shipped_run
shipped_once = refl

shipped_twice : shipped_run (codes "bin") (some (codes "mine")) ≡ (false, some (codes "mine"))
unfolding shipped_run
shipped_twice = refl

use_shipped_clang_headers-getenv_example :
    let (used, s') = use_shipped_clang_headers remembering (codes "bin") none in
    (is_configured none ≡ true → (used ≡ false) × (s' ≡ none))
    × (used ≡ true
        → (s' ≡ some (codes "bin"))
          × (codes "bin" ≢ [])
          × (any (has_headers remembering none) (
                remembering.list_directory
                  (join_path (lib_beside remembering (codes "bin")) (codes "clang"))
                  none)
              ≡ true)
          × (use_shipped_clang_headers remembering (codes "bin") s' ≡ (false, s')))
use_shipped_clang_headers-getenv_example =
    use_shipped_clang_headers-getenv remembering (λ name value s used. refl) (codes "bin") none

print_one : List Finding → Bytes → Bytes
unfolding print_findings print_finding print_allocation print_location to_decimal
print_one = print_findings

one_printed :
    print_one
      (record default_finding {
        rule = codes "r";
        cwe = codes "c";
        message = codes "m";
        location = some (record { file = codes "a.c"; line = 3; column = 12 });
        allocation = some (record { file = codes "b.c"; line = 1; column = 0 });
      }
        ∷ [])
      (codes "  ")
    ≡ codes "  a.c:3:12: error: m [r, c]\n    b.c:1: note: allocated here\n"
unfolding print_one
one_printed = refl
