-- ===== src/Findings/Parser/Reports.antt =====
-- What a whole report gives: a box from its opening to its closing line, and a text behind
-- another one.

use mathlib.Core.Option
use coretrace_runtime_analyz.Base.{
  All, Bytes, List, Option, [], ap, append-nil, arith, false, none, refl, some, sym, true, ◌++◌,
  ◌∙◌, ◌∷◌, ◌≡◌,
}
use coretrace_runtime_analyz.Types.{Finding}
use coretrace_runtime_analyz.Findings.Box.{Rows, add_row, closes, opens, to_finding}
use coretrace_runtime_analyz.Findings.Parser.{ParseState, box_line, step}
use coretrace_runtime_analyz.Findings.Parser.Lines.{run}

-- No line of the list closes a box.
abbrev pub Inside : List Bytes → Type 0
Inside = All (λ l. closes l ≡ false)

-- The rows of a box, from its lines.
abbrev pub box_rows : Rows → List Bytes → Rows
box_rows rows [] = rows
box_rows rows (l ∷ ls) = box_rows (add_row rows l) ls

-- The findings of an optional one.
abbrev pub to_list : Option Finding → List Finding
to_list none = []
to_list (some f) = f ∷ []

run-Inside :
    (body rest : List Bytes) (s : ParseState) (rows : Rows)
    → s.box ≡ some rows
    → Inside body
    → run s (body ++ rest) ≡ run (record s { box = some (box_rows rows body) }) rest
unfolding run step box_line
run-Inside [] rest s rows b h = ground arith
run-Inside (l ∷ ls) rest s rows b (h, hs) =
    rw (b, h)
      (run-Inside ls rest (record s { box = some (add_row rows l) }) (add_row rows l) refl hs)

step-opens :
    (s : ParseState) (top : Bytes)
    → s.box ≡ none
    → opens top ≡ true
    → step s top ≡ some (record s { in_bounds_report = false; box = some [] })
unfolding step
step-opens s top b o = ground arith

step-closes :
    (s : ParseState) (rows : Rows) (bottom : Bytes)
    → s.box ≡ some rows
    → closes bottom ≡ true
    → step s bottom
      ≡ some (record s { findings = s.findings ++ to_list (to_finding rows); box = none })
unfolding step box_line
step-closes s rows bottom b c = ground (arith, append-nil s.findings)

-- A box that opens outside any box, holds the lines `body`, and is closed: its finding, if its
-- rows make one, goes behind the others, and the lines behind it are read with no box open and
-- no bounds report. No line of the box makes a finding of its own.
pub run_box :
    (s : ParseState) (top : Bytes) (body : List Bytes) (bottom : Bytes) (rest : List Bytes)
    → s.box ≡ none
    → opens top ≡ true
    → Inside body
    → closes bottom ≡ true
    → run s (top ∷ (body ++ bottom ∷ rest))
      ≡ run
          (record {
            findings = s.findings ++ to_list (to_finding (box_rows [] body));
            in_bounds_report = false;
            box = none;
          })
          rest
unfolding run
run_box s top body bottom rest b o inside c =
    let opened = record s { in_bounds_report = false; box = some [] } in
    rw (step-opens s top b o, run)
      (run-Inside body (bottom ∷ rest) opened [] refl inside
        ∙ rw
            (
              step-closes (record opened { box = some (box_rows [] body) }) (box_rows [] body)
                  bottom refl c,
              run,
            )
            refl)

-- A box that no line closes is dropped: what the run leaves has the findings from before the box.
pub run_unclosed :
    (s : ParseState) (top : Bytes) (body : List Bytes)
    → s.box ≡ none
    → opens top ≡ true
    → Inside body
    → Option.map (λ (t : ParseState). t.findings) (run s (top ∷ body)) ≡ some s.findings
unfolding run
run_unclosed s top body b o inside =
    let opened = record s { in_bounds_report = false; box = some [] } in
    rw (step-opens s top b o, run)
      (ap (λ ls. Option.map (λ (t : ParseState). t.findings) (run opened ls))
          (sym (append-nil body))
        ∙ ap (Option.map (λ (t : ParseState). t.findings))
            (run-Inside body [] opened [] refl inside))
