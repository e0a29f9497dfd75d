-- ===== src/Findings/Parser/Append.antt =====
-- Reports do not reach into one another: the findings of a text behind another one.

use coretrace_runtime_analyz.Findings.Parser.Total.{initial-Invariant}
use coretrace_runtime_analyz.Text.Lines.{lines, lines-append}
use coretrace_runtime_analyz.Text.{starts_with}
use coretrace_runtime_analyz.Findings.Parser.Lines.{parse_findings-lines, run}
use mathlib.Core.Option
use coretrace_runtime_analyz.Findings.Parser.Invariant.{
  Invariant, assign_back-AllSome, set_location-IsReported, step-Keeps,
}
use coretrace_runtime_analyz.Base.{
  Bool-cases, Bytes, List, Option, Option-cases, [], ap, append-nil, append_assoc, arith, codes,
  false, inl, inr, none, refl, some, sym, true, ◌&&◌, ◌++◌, ◌∙◌, ◌∷◌, ◌≡◌, ◌≢◌,
}
use coretrace_runtime_analyz.Types.{Finding}
use coretrace_runtime_analyz.Findings.Site.{field}
use coretrace_runtime_analyz.Findings.Box.{Rows, opens}
use coretrace_runtime_analyz.Findings.Parser.{
  ParseState, assign_back, box_line, initial, parse_findings, plain_line, report_line,
  set_allocation, set_location, step, update_back,
}

-- The state with findings from before.
abbrev after : List Finding → ParseState → ParseState
after xs s = record s { findings = xs ++ s.findings }

update_back-append :
    (f : Finding → Finding) (xs ys : List Finding)
    → ys ≢ []
    → update_back f (xs ++ ys) ≡ Option.map (λ zs. xs ++ zs) (update_back f ys)
unfolding update_back Option.map
update_back-append f [] ys h = ground arith
update_back-append f (x ∷ []) [] h = absurd (h refl)
update_back-append f (x ∷ []) (y ∷ ys) h = ground arith
update_back-append f (x ∷ x' ∷ xs) ys h = rw (update_back-append f (x' ∷ xs) ys h) (ground arith)

assign_back-append :
    (set : Bytes → Finding → Finding) (line key : Bytes) (xs ys : List Finding)
    → ys ≢ []
    → assign_back set line key (xs ++ ys)
      ≡ Option.map (λ zs. xs ++ zs) (assign_back set line key ys)
unfolding assign_back Option.map
assign_back-append set line key xs ys h = elim (Option-cases (field line key)) [
  | inl e ↦ rw (e, assign_back) refl
  | inr (site, e) ↦ rw (e, assign_back) (update_back-append (set site) xs ys h)
]

box_line-after :
    (xs : List Finding) (s : ParseState) (rows : Rows) (line : Bytes)
    → box_line (after xs s) rows line ≡ after xs (box_line s rows line)
unfolding box_line
box_line-after xs s rows line = grind (arith, append_assoc)

plain_line-after :
    (xs : List Finding) (s : ParseState) (line : Bytes)
    → plain_line (after xs s) line ≡ after xs (plain_line s line)
unfolding plain_line
plain_line-after xs s line = grind (arith, append_assoc)

report_line-after :
    (xs : List Finding) (s : ParseState) (line : Bytes)
    → Invariant s
    → s.in_bounds_report ≡ true
    → report_line (after xs s) line ≡ Option.map (after xs) (report_line s line)
unfolding report_line Option.map
report_line-after xs s line inv b =
    let located =
      assign_back-AllSome set_location line (codes "access") s.findings set_location-IsReported
        (inv.has_back b) inv.reported in
    rw
      (
        report_line,
        assign_back-append set_location line (codes "access") xs s.findings (inv.has_back b),
      )
      (elim (Option-cases (assign_back set_location line (codes "access") s.findings)) [
        | inl e ↦ rw (e, report_line) refl
        | inr (fs, e) ↦
            rw
              (
                e,
                report_line,
                assign_back-append set_allocation line (codes "alloc_site") xs fs
                    (rw e at located).0,
              )
              (elim (Option-cases (assign_back set_allocation line (codes "alloc_site") fs)) [
                | inl a ↦ rw a refl
                | inr (gs, a) ↦ rw a refl
              ])
      ])

-- What is found before stays in front, and changes nothing else.
step-after :
    (xs : List Finding) (s : ParseState) (line : Bytes)
    → Invariant s
    → step (after xs s) line ≡ Option.map (after xs) (step s line)
unfolding step Option.map
step-after xs s line inv = elim (Option-cases s.box) [
  | inr (rows, b) ↦ rw (b, step) (ap some (box_line-after xs s rows line))
  | inl b ↦ elim (Bool-cases (opens line)) [
    | inl o ↦ rw (b, step, o) refl
    | inr o ↦ elim (Bool-cases (s.in_bounds_report && starts_with line (codes "  "))) [
      | inl i ↦ rw (b, step, o, i) (report_line-after xs s line inv (ground arith))
      | inr i ↦ rw (b, step, o, i) (ap some (plain_line-after xs s line))
    ]
  ]
]

run-after :
    (xs : List Finding) (ls : List Bytes) (s : ParseState)
    → Invariant s
    → run (after xs s) ls ≡ Option.map (after xs) (run s ls)
unfolding run Option.map
run-after xs [] s inv = refl
run-after xs (l ∷ ls) s inv =
    rw (step-after xs s l inv, run)
      (elim (Option-cases (step s l)) [
        | inl e ↦ absurd (rw e at (step-Keeps s inv l))
        | inr (t, e) ↦ rw (e, run) (run-after xs ls t (rw e at (step-Keeps s inv l)))
      ])

run-append :
    (ls ms : List Bytes) (s : ParseState)
    → run s (ls ++ ms) ≡ (elim (run s ls) [ none ↦ none | some t ↦ run t ms ])
unfolding run
run-append [] ms s = refl
run-append (l ∷ ls) ms s = elim (Option-cases (step s l)) [
  | inl e ↦ rw (e, run) refl
  | inr (t, e) ↦ rw (e, run) (run-append ls ms t)
]

abbrev found : ParseState → List Finding
found s = s.findings

map-found :
    (xs : List Finding) (o : Option ParseState)
    → Option.map found (Option.map (after xs) o) ≡ Option.map (λ fs. xs ++ fs) (Option.map found o)
unfolding Option.map
map-found xs none = refl
map-found xs (some s) = refl

-- A text whose reports are all over, and another one behind its newline: the findings of the
-- first, then those of the second, as each gives them alone.
pub parse_findings-append :
    (a b : Bytes) (t : ParseState)
    → run initial (lines (a ++ codes "\n")) ≡ some t
    → t.box ≡ none
    → t.in_bounds_report ≡ false
    → parse_findings (a ++ codes "\n" ++ b) ≡ Option.map (λ fs. t.findings ++ fs) (parse_findings b)
unfolding Option.map
parse_findings-append a b t e nobox noreport =
    let start : t ≡ after t.findings initial = ground (arith, append-nil t.findings) in
    parse_findings-lines (a ++ codes "\n" ++ b)
    ∙ rw (lines-append a b, run-append, e)
        (ap (λ s. Option.map found (run s (lines b))) start
          ∙ ap (Option.map found) (run-after t.findings (lines b) initial initial-Invariant)
          ∙ map-found t.findings (run initial (lines b))
          ∙ ap (Option.map (λ fs. t.findings ++ fs)) (sym (parse_findings-lines b)))
