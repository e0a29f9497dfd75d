-- ===== src/Findings/Parser.antt =====
-- src/findings.cpp: `BoundsFinding`, `OneLineFinding` and `ParseFindings`. The loop of
-- `ParseFindings` takes fuel; a call of `findings.back()` on no finding is a fault, `none`.
pub mod Lines
pub mod Reported
pub mod Invariant
pub mod Total
pub mod Append
pub mod Reports
use mathlib.Core.Option
use coretrace_runtime_analyz.Base.{
  Bool, Bytes, List, Option, [], codes, drop, false, if◌then◌else◌, length, ltb, map, none, some,
  suc, true, zero, ℕ, ◌&&◌, ◌*◌, ◌++◌, ◌+◌, ◌-◌, ◌∷◌,
}
use coretrace_runtime_analyz.Text.{contains, find, find_from, starts_with, substr}
use coretrace_runtime_analyz.Types.{
  Finding, Severity, SourceLocation, default_finding, error, warning,
}
use coretrace_runtime_analyz.Findings.Catalogue.{BoundsRule, k_bounds_rules}
use coretrace_runtime_analyz.Findings.Site.{field, parse_site}
use coretrace_runtime_analyz.Findings.Box.{Rows, add_row, closes, opens, to_finding}

-- The finding of a bounds report that starts at `at`.
abbrev pub bounds_finding_at : BoundsRule → Bytes → ℕ → Finding
bounds_finding_at bounds line at =
    let message = drop (at + 4) line in
    record default_finding {
      rule = bounds.rule;
      message = message;
      cwe = if contains message (codes " WRITE ") then bounds.write_cwe else bounds.read_cwe;
    }

unfoldable pub bounds_finding_in : List BoundsRule → Bytes → Option Finding
bounds_finding_in [] line = none
bounds_finding_in (bounds ∷ rules) line =
    let rest = bounds_finding_in rules line in
    elim (find line (codes "ct: " ++ bounds.rule ++ codes " ")) [
      | none ↦ rest
      | some at ↦ some (bounds_finding_at bounds line at)
    ]

-- `BoundsFinding`
unfoldable pub bounds_finding : Bytes → Option Finding
bounds_finding = bounds_finding_in k_bounds_rules

-- `if (const auto site = Field(line, key)) target = ParseSite(*site);`
unfoldable pub read_site : Bytes → Bytes → Option SourceLocation → Option SourceLocation
read_site line key old = elim (field line key) [ none ↦ old | some site ↦ parse_site site ]

-- `OneLineFinding`
unfoldable pub one_line_finding : Bytes → Bytes → Bytes → Severity → Bytes → Finding
one_line_finding line rule cwe severity message = record {
  rule = rule;
  cwe = cwe;
  severity = severity;
  message = message;
  location = read_site line (codes "site") none;
  allocation = read_site line (codes "alloc_site") none;
}

unfoldable pub leak_message : Bytes → Bytes
leak_message line = elim (field line (codes "size")) [
  | none ↦ codes "memory leak"
  | some size ↦ codes "memory leak" ++ codes " of " ++ size ++ codes " bytes"
]

-- The variables that `ParseFindings` carries from line to line.
pub record ParseState : Type 0 where
  pub findings : List Finding
  pub in_bounds_report : Bool
  pub box : Option Rows

abbrev pub initial : ParseState
initial = record { findings = []; in_bounds_report = false; box = none }

-- An assignment to `findings.back()`.
unfoldable pub update_back : (Finding → Finding) → List Finding → Option (List Finding)
update_back f [] = none
update_back f (x ∷ []) = some (f x ∷ [])
update_back f (x ∷ y ∷ xs) = Option.map (λ rest. x ∷ rest) (update_back f (y ∷ xs))

abbrev pub set_location : Bytes → Finding → Finding
set_location site finding = record finding { location = parse_site site }

abbrev pub set_allocation : Bytes → Finding → Finding
set_allocation site finding = record finding { allocation = parse_site site }

-- `if (const auto site = Field(line, key)) findings.back().… = ParseSite(*site);`
unfoldable pub assign_back :
    (Bytes → Finding → Finding) → Bytes → Bytes → List Finding → Option (List Finding)
assign_back set line key findings = elim (field line key) [
  | none ↦ some findings
  | some site ↦ update_back (set site) findings
]

-- A line inside an open box.
unfoldable pub box_line : ParseState → Rows → Bytes → ParseState
box_line s rows line =
    if closes line
    then (elim (to_finding rows) [
      | none ↦ record s { box = none }
      | some finding ↦ record s { findings = s.findings ++ finding ∷ []; box = none }
    ])
    else record s { box = some (add_row rows line) }

-- An indented line of a bounds report.
unfoldable pub report_line : ParseState → Bytes → Option ParseState
report_line s line = elim (assign_back set_location line (codes "access") s.findings) [
  | none ↦ none
  | some located ↦
      Option.map (λ fs. record s { findings = fs })
        (assign_back set_allocation line (codes "alloc_site") located)
]

-- The finding that a line outside any report starts, and whether a bounds report starts.
unfoldable pub plain_finding : Bytes → Option (Finding × Bool)
plain_finding line = elim (bounds_finding line) [
  | some finding ↦ some (finding, true)
  | none ↦
      if contains line (codes "(double free)")
      then some (
        one_line_finding line (codes "double-free") (codes "CWE-415") error (codes "double free"),
        false,
      )
      else if contains line (codes "ct: leak ptr=")
      then some (
        one_line_finding line (codes "memory-leak") (codes "CWE-401") warning (leak_message line),
        false,
      )
      else none
]

unfoldable pub plain_line : ParseState → Bytes → ParseState
plain_line s line = elim (plain_finding line) [
  | none ↦ record s { in_bounds_report = false }
  | some (finding, bounds) ↦ record s {
    findings = s.findings ++ finding ∷ [];
    in_bounds_report = bounds;
  }
]

-- The body of the loop, for one line.
unfoldable pub step : ParseState → Bytes → Option ParseState
step s line = elim s.box [
  | some rows ↦ some (box_line s rows line)
  | none ↦
      if opens line
      then some (record s { in_bounds_report = false; box = some [] })
      else if s.in_bounds_report && starts_with line (codes "  ")
      then report_line s line
      else some (plain_line s line)
]

-- `output.find('\n', start)`, or the end of the text
unfoldable pub line_end : Bytes → ℕ → ℕ
line_end output start = elim (find_from output (codes "\n") start) [
  | none ↦ length output
  | some end ↦ end
]

-- The loop; `none` is a fault, or fuel that ran out.
unfoldable pub parse_loop : ℕ → Bytes → ℕ → ParseState → Option ParseState
parse_loop zero output start s = none
parse_loop (suc fuel) output start s =
    if ltb start (length output)
    then (let end = line_end output start in
        elim (step s (substr output start (end - start))) [
          | none ↦ none
          | some s' ↦ parse_loop fuel output (end + 1) s'
        ])
    else some s

-- `ParseFindings`
unfoldable pub parse_findings : Bytes → Option (List Finding)
parse_findings output =
    Option.map (λ (s : ParseState). s.findings) (parse_loop (length output + 1) output 0 initial)
