-- ===== src/Findings/Box.antt =====
-- src/findings.cpp: `DiagnosticBox`, a vtable report drawn as a box. Its three drawing
-- characters stand for their UTF-8 bytes. A pointer into `kVtableRules` is an index.
pub mod Rank
use mathlib.Core.List.{reverse}
use coretrace_runtime_analyz.Base.{
  Bool, Bytes, List, Option, [], codes, drop, get_elem?, if◌then◌else◌, is_empty, length, ltb, none,
  not, some, suc, take, ℕ, ◌&&◌, ◌*◌, ◌++◌, ◌+◌, ◌-◌, ◌==◌, ◌||◌, ◌∷◌,
}
use coretrace_runtime_analyz.Text.{bytes_eq, contains, ends_with, find, rfind, starts_with, substr}
use coretrace_runtime_analyz.Types.{Finding, SourceLocation, warning}
use coretrace_runtime_analyz.Findings.Catalogue.{VtableRule, k_vtable_rules}
use coretrace_runtime_analyz.Findings.Site.{parse_site}

-- "│"
abbrev pub vertical_bar : Bytes
vertical_bar = 0xe2 ∷ 0x94 ∷ 0x82 ∷ []

-- "└"
abbrev pub corner : Bytes
corner = 0xe2 ∷ 0x94 ∷ 0x94 ∷ []

abbrev pub k_open : Bytes
k_open = vertical_bar ++ codes " "

abbrev pub k_close : Bytes
k_close = codes " " ++ vertical_bar

-- `rows`: label and value
abbrev pub Rows : Type 0
Rows = List (Bytes × Bytes)

-- `DiagnosticBox::Opens`
unfoldable pub opens : Bytes → Bool
opens line =
    contains line (codes "[WARN]")
    && (ends_with line (codes "[VTABLE]") || ends_with line (codes "[VCALL]"))

-- `DiagnosticBox::Closes`
unfoldable pub closes : Bytes → Bool
closes line = contains line corner

-- `text.find_first_not_of(c)`
unfoldable pub find_first_not_of : Bytes → ℕ → Option ℕ
find_first_not_of [] c = none
find_first_not_of (x ∷ xs) c = elim (find_first_not_of xs c) [
  | none ↦ if x == c then none else some 0
  | some i ↦ if x == c then some (suc i) else some 0
]

-- `text.find_last_not_of(c)`
unfoldable pub find_last_not_of : Bytes → ℕ → Option ℕ
find_last_not_of [] c = none
find_last_not_of (x ∷ xs) c = elim (find_last_not_of xs c) [
  | none ↦ if x == c then none else some 0
  | some i ↦ some (suc i)
]

-- `DiagnosticBox::Trim`. Where the first position is found, the last one is too.
unfoldable pub trim : Bytes → Bytes
trim text = elim (find_first_not_of text b' ') [
  | none ↦ []
  | some first ↦ elim (find_last_not_of text b' ') [
    | none ↦ drop first text
    | some last ↦ substr text first (last + 1 - first)
  ]
]

-- `rows.back().second += value`; an empty list has no last row, and is not passed here.
unfoldable pub continue_row : Rows → Bytes → Rows
continue_row [] value = []
continue_row ((label, old) ∷ []) value = (label, old ++ value) ∷ []
continue_row (row ∷ next ∷ rows) value = row ∷ continue_row (next ∷ rows) value

-- The end of `AddRow`, for a row with its label and value.
unfoldable pub put_row : Rows → Bytes → Bytes → Rows
put_row rows label value =
    if is_empty label && not (is_empty rows)
    then continue_row rows value
    else rows ++ (label, value) ∷ []

-- The text between the two bars, at their positions.
add_row_text : Rows → Bytes → Rows
add_row_text rows text = elim (find text (codes ":")) [
  | none ↦ rows
  | some colon ↦ put_row rows (trim (take colon text)) (trim (drop (colon + 1) text))
]

-- `DiagnosticBox::AddRow`
unfoldable pub add_row : Rows → Bytes → Rows
unfolding add_row_text
add_row rows line = elim (find line k_open) [
  | none ↦ rows
  | some begin ↦ elim (rfind line k_close) [
    | none ↦ rows
    | some close ↦
        let start = begin + length k_open in
        if ltb close start then rows else add_row_text rows (substr line start (close - start))
  ]
]

-- The first entry, at `at` or behind it, whose text starts the value.
unfoldable pub matching_rule : List VtableRule → ℕ → Bytes → Option ℕ
matching_rule [] at value = none
matching_rule (candidate ∷ rules) at value =
    let rest = matching_rule rules (at + 1) value in
    if starts_with value candidate.warned then some at else rest

-- The variables of the loop in `ToFinding`.
pub record BoxReport : Type 0 where
  pub message : Bytes
  pub location : Option SourceLocation
  pub rule : Option ℕ

-- `if (rule == nullptr || &candidate < rule) rule = &candidate;`
unfoldable pub earlier : Option ℕ → Option ℕ → Option ℕ
earlier rule none = rule
earlier none (some candidate) = some candidate
earlier (some rule) (some candidate) = if ltb candidate rule then some candidate else some rule

-- One round of the loop.
unfoldable pub read_row : BoxReport → Bytes × Bytes → BoxReport
read_row report (label, value) =
    if bytes_eq label (codes "site")
    then record report { location = parse_site value }
    else if not (bytes_eq label (codes "warn"))
    then report
    else record report {
      message =
          (if not (is_empty report.message) then report.message ++ codes "; " else report.message)
          ++ value;
      rule = earlier report.rule (matching_rule k_vtable_rules 0 value);
    }

unfoldable pub read_rows : BoxReport → Rows → BoxReport
read_rows report [] = report
read_rows report (row ∷ rows) = read_rows (read_row report row) rows

abbrev pub empty_report : BoxReport
empty_report = record { message = []; location = none; rule = none }

-- The entry that names the box's rule, or the one of a box with no known warning.
unfoldable pub reported_rule : Option ℕ → VtableRule
reported_rule rule =
    let other : VtableRule = record {
      warned = [];
      rule = codes "vtable-diagnostic";
      cwe = codes "CWE-843";
      severity = warning;
    } in
    elim rule [
      | none ↦ other
      | some at ↦ elim (get_elem? k_vtable_rules at) [ none ↦ other | some r ↦ r ]
    ]

-- `DiagnosticBox::ToFinding`
unfoldable pub to_finding : Rows → Option Finding
to_finding rows =
    let report = read_rows empty_report rows in
    let r = reported_rule report.rule in
    if is_empty report.message
    then none
    else some (record {
      rule = r.rule;
      cwe = r.cwe;
      severity = r.severity;
      message = report.message;
      location = report.location;
      allocation = none;
    })
