-- ===== src/Tests/FindingRuns.antt =====
-- The parsing of reports, at reports as the runtime prints them.

use coretrace_runtime_analyz.Findings.Site.RoundTrip.{parse_site-print_location}
use coretrace_runtime_analyz.Findings.Site.Words.{field-words, value_in, words}
use mathlib.Core.Option
use mathlib.Core.List.Perm
use coretrace_runtime_analyz.Base.{
  All, Bytes, List, Option, [], any, arith, codes, false, none, refl, some, true, ℕ, ◌++◌, ◌∷◌, ◌≡◌,
  ◌≤◌,
}
use coretrace_runtime_analyz.Text.{
  bytes_eq, contains, ends_with, find, find_from, rfind, starts_with,
}
use coretrace_runtime_analyz.Text.Lines.{lines}
use coretrace_runtime_analyz.Types.{Finding, SourceLocation, error, warning}
use coretrace_runtime_analyz.Findings.Catalogue.{k_bounds_rules, k_vtable_rules}
use coretrace_runtime_analyz.Findings.Site.{
  byte_is, decimal_loop, field, field_loop, from_chars, parse_site, print_location, span_digits,
  take_after, take_number, to_decimal, up_to_space,
}
use coretrace_runtime_analyz.Findings.Box.{
  Rows, add_row, closes, continue_row, corner, earlier, empty_report, find_first_not_of,
  find_last_not_of, matching_rule, opens, put_row, read_row, read_rows, reported_rule, to_finding,
  trim, vertical_bar,
}
use coretrace_runtime_analyz.Findings.Box.Rank.{read_rows_earliest, to_finding-Perm, warns_at}
use coretrace_runtime_analyz.Findings.Parser.{
  ParseState, assign_back, bounds_finding, bounds_finding_in, box_line, initial, leak_message,
  line_end, one_line_finding, parse_findings, parse_loop, plain_finding, plain_line, read_site,
  report_line, step, update_back,
}
use coretrace_runtime_analyz.Findings.Parser.Lines.{parse_findings-lines, run}
use coretrace_runtime_analyz.Findings.Parser.Reported.{IsReported}
use coretrace_runtime_analyz.Findings.Parser.Total.{parse_findings-total}
use coretrace_runtime_analyz.Findings.Parser.Reports.{
  Inside, box_rows, run_box, run_unclosed, to_list,
}
use coretrace_runtime_analyz.Findings.Parser.Append.{parse_findings-append}

-- The text searches, and the parts of the parser, opened for runs.
read_field : Bytes → Bytes → Option Bytes
unfolding field field_loop find find_from starts_with byte_is up_to_space Option.map
read_field = field

read_location : Bytes → Option SourceLocation
unfolding parse_site take_number take_after from_chars span_digits rfind starts_with
read_location = parse_site

show_location : SourceLocation → Bytes
unfolding print_location to_decimal decimal_loop
show_location = print_location

read_findings : Bytes → Option (List Finding)
unfolding parse_findings parse_loop step line_end read_field read_location box_line report_line
    plain_line opens closes contains ends_with to_finding read_rows read_row matching_rule
    k_vtable_rules earlier reported_rule bytes_eq add_row put_row continue_row trim
    find_first_not_of find_last_not_of plain_finding bounds_finding bounds_finding_in k_bounds_rules
    one_line_finding leak_message read_site assign_back update_back
read_findings = parse_findings

abbrev heap_report : Bytes
heap_report =
    codes
      "==ct== ct: heap-buffer-overflow WRITE of size 4\n  access=a.c:7:15 alloc_site=a.c:6:19\nct: done\n  access=b.c:1\nct: leak ptr=0x1 size=12 alloc_site=m.c:3:2\n"

abbrev heap_finding : Finding
heap_finding = record {
  rule = codes "heap-buffer-overflow";
  cwe = codes "CWE-122";
  severity = error;
  message = codes "heap-buffer-overflow WRITE of size 4";
  location = some (record { file = codes "a.c"; line = 7; column = 15 });
  allocation = some (record { file = codes "a.c"; line = 6; column = 19 });
}

abbrev leak_finding : Finding
leak_finding = record {
  rule = codes "memory-leak";
  cwe = codes "CWE-401";
  severity = warning;
  message = codes "memory leak of 12 bytes";
  location = none;
  allocation = some (record { file = codes "m.c"; line = 3; column = 2 });
}

heap_report_findings : parse_findings heap_report ≡ some (heap_finding ∷ leak_finding ∷ [])
unfolding read_findings
heap_report_findings = refl

abbrev bar : Bytes
bar = vertical_bar

abbrev box_line_of : Bytes → Bytes
box_line_of text = bar ++ codes " " ++ text ++ codes " " ++ bar

abbrev box_top : Bytes
box_top = codes "12:00 [WARN] [VCALL]"

abbrev box_body : List Bytes
box_body =
    box_line_of (codes "warn : missing typeinfo")
    ∷ box_line_of (codes "warn : static!=dynamic type A")
    ∷ box_line_of (codes "     : and B")
    ∷ box_line_of (codes "site : v.cpp:9:3")
    ∷ []

abbrev box_finding : Finding
box_finding = record {
  rule = codes "vtable-type-mismatch";
  cwe = codes "CWE-843";
  severity = warning;
  message = codes "missing typeinfo; static!=dynamic type Aand B";
  location = some (record { file = codes "v.cpp"; line = 9; column = 3 });
  allocation = none;
}

box_body_finding : to_finding (box_rows [] box_body) ≡ some box_finding
unfolding read_findings
box_body_finding = refl

field_run : field (codes "a alloc_site=x:1 site=y:2 z") (codes "site") ≡ some (codes "y:2")
unfolding read_field
field_run = refl

site_runs :
    (parse_site (codes "a:b.c:10:3")
      ≡ some (record { file = codes "a:b.c"; line = 10; column = 3 }))
    × (parse_site (codes "b.c:10") ≡ some (record { file = codes "b.c"; line = 10; column = 0 }))
    × (parse_site (codes "b.c:0:3") ≡ none)
    × (parse_site (codes "b.c:4294967296") ≡ none)
    × (parse_site (codes ":7") ≡ none)
unfolding read_location
site_runs = (refl, refl, refl, refl, refl)

abbrev a_site : SourceLocation
a_site = record { file = codes "a.c"; line = 4294967295; column = 0 }

a_site_printed : print_location a_site ≡ codes "a.c:4294967295: "
unfolding show_location
a_site_printed = refl

a_site_bare : a_site.column ≡ 0 → (take_number a_site.file 0).taken ≡ false
unfolding read_location
a_site_bare h = refl

parse_findings-lines_example :
    parse_findings heap_report
    ≡ Option.map (λ (s : ParseState). s.findings) (run initial (lines heap_report))
parse_findings-lines_example = parse_findings-lines heap_report

parse_findings-total_example :
    (fs : List Finding) × (parse_findings heap_report ≡ some fs) × All IsReported fs
parse_findings-total_example = parse_findings-total heap_report

abbrev first_text : Bytes
first_text = codes "ct: leak ptr=0x1 size=12 alloc_site=m.c:3:2"

abbrev first_state : ParseState
first_state = record { findings = leak_finding ∷ []; in_bounds_report = false; box = none }

first_run : run initial (lines (first_text ++ codes "\n")) ≡ some first_state
unfolding read_findings run lines
first_run = refl

parse_findings-append_example :
    parse_findings (first_text ++ codes "\n" ++ heap_report)
    ≡ Option.map (λ fs. (leak_finding ∷ []) ++ fs) (parse_findings heap_report)
parse_findings-append_example =
    parse_findings-append first_text heap_report first_state first_run refl refl

box-Inside : Inside box_body
unfolding read_findings
box-Inside = (refl, (refl, (refl, (refl, tt))))

box_opens : opens box_top ≡ true
unfolding read_findings
box_opens = refl

box_closes : closes (corner ++ codes "--") ≡ true
unfolding read_findings
box_closes = refl

run_box_example :
    run initial (box_top ∷ (box_body ++ (corner ++ codes "--") ∷ first_text ∷ []))
    ≡ run
        (record {
          findings = to_list (to_finding (box_rows [] box_body));
          in_bounds_report = false;
          box = none;
        })
        (first_text ∷ [])
run_box_example =
    run_box initial box_top box_body (corner ++ codes "--") (first_text ∷ []) refl box_opens
      box-Inside box_closes

run_unclosed_example :
    Option.map (λ (t : ParseState). t.findings) (run first_state (box_top ∷ box_body))
    ≡ some (leak_finding ∷ [])
run_unclosed_example = run_unclosed first_state box_top box_body refl box_opens box-Inside

field-words_example :
    field (codes "a alloc_site=x:1 site=y:2 z") (codes "site")
    ≡ value_in (codes "site") (words (codes "a alloc_site=x:1 site=y:2 z"))
field-words_example =
    field-words (codes "a alloc_site=x:1 site=y:2 z") b's' (codes "ite")
      (refl, (refl, (refl, (refl, tt))))

parse_site-print_location_example :
    (site : Bytes) × (print_location a_site ≡ site ++ codes ": ") × (parse_site site ≡ some a_site)
parse_site-print_location_example =
    parse_site-print_location a_site
      (record {
        has_file = cc;
        has_line = omega arith;
        line_fits = omega arith;
        column_fits = omega arith;
      })
      a_site_bare

abbrev two_rows : Rows
two_rows = (codes "warn", codes "missing typeinfo") ∷ (codes "warn", codes "no vptr") ∷ []

abbrev two_rows_swapped : Rows
two_rows_swapped = (codes "warn", codes "no vptr") ∷ (codes "warn", codes "missing typeinfo") ∷ []

abbrev box_with : Bytes → Finding
box_with message = record {
  rule = codes "vtable-corrupted";
  cwe = codes "CWE-843";
  severity = error;
  message = message;
  location = none;
  allocation = none;
}

two_rows_found : to_finding two_rows ≡ some (box_with (codes "missing typeinfo; no vptr"))
unfolding read_findings
two_rows_found = refl

two_rows_swapped_found :
    to_finding two_rows_swapped ≡ some (box_with (codes "no vptr; missing typeinfo"))
unfolding read_findings
two_rows_swapped_found = refl

to_finding-Perm_example :
    (codes "vtable-corrupted" ≡ codes "vtable-corrupted")
    × (codes "CWE-843" ≡ codes "CWE-843")
    × (error ≡ error)
to_finding-Perm_example =
    to_finding-Perm two_rows two_rows_swapped (Perm.swap _ _ []) two_rows_found
      two_rows_swapped_found

read_rows_earliest_example :
    let rule = (read_rows empty_report two_rows).rule in
    ((j : ℕ) → rule ≡ some j → any (warns_at j) two_rows ≡ true)
    × ((i : ℕ) → any (warns_at i) two_rows ≡ true → (j : ℕ) × (rule ≡ some j) × (j ≤ i))
read_rows_earliest_example = read_rows_earliest two_rows
