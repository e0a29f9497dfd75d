-- ===== src/Findings/Parser/Lines.antt =====
-- `ParseFindings` as a run of its loop body over the lines of the text.
use mathlib.Core.Option
use native.Mathlib.Nat.{add_assoc}
use coretrace_runtime_analyz.Base.{
  Bytes, List, Option, Option-cases, [], ap, arith, drop, drop-drop, inl, inr, length, length-drop,
  lt→ltb, none, refl, some, suc, sym, take, zero, ℕ, ◌+◌, ◌-◌, ◌<◌, ◌∙◌, ◌∷◌, ◌≡◌,
}
use coretrace_runtime_analyz.Text.{find_from, substr}
use coretrace_runtime_analyz.Text.Lines.{first_end, lines, lines_first}
use coretrace_runtime_analyz.Findings.Parser.{
  ParseState, initial, line_end, parse_findings, parse_loop, step,
}

-- The body of the loop, line by line.
unfoldable pub run : ParseState → List Bytes → Option ParseState
run s [] = some s
run s (l ∷ ls) = elim (step s l) [ none ↦ none | some s' ↦ run s' ls ]

line_end_lem :
    (output : Bytes) (start : ℕ)
    → start < length output
    → line_end output start ≡ start + first_end (drop start output)
unfolding line_end find_from first_end
line_end_lem output start h = ground (arith, length-drop start output)

-- The first of the lines that are left, cut out as the loop does it.
loop_line_lem :
    (output : Bytes) (start : ℕ) (x : ℕ) (xs : Bytes)
    → drop start output ≡ x ∷ xs
    → (start < length output)
      × (start < line_end output start + 1)
      × (substr output start (line_end output start - start) ≡ take (first_end (x ∷ xs)) (x ∷ xs))
      × (drop (line_end output start + 1) output ≡ drop (first_end (x ∷ xs) + 1) (x ∷ xs))
loop_line_lem output start x xs h =
    let e = first_end (x ∷ xs) in
    let lt : start < length output = omega (arith, length-drop start output, ap length h) in
    let end : line_end output start ≡ start + e = line_end_lem output start lt ∙ rw h in
    let cut : start + e - start ≡ e = omega arith in
    (
      lt,
      omega (arith, end),
      rw (end, cut, h),
      rw (end, add_assoc) (sym (drop-drop (e + 1) start output) ∙ rw h),
    )

-- One round reads the first of the lines that are left.
parse_loop_round :
    (fuel : ℕ) (output : Bytes) (start : ℕ) (s : ParseState) (left : Bytes)
    → drop start output ≡ left
    → ((s' : ParseState) (next : ℕ)
        → start < next
        → start < length output
        → parse_loop fuel output next s' ≡ run s' (lines (drop next output)))
    → parse_loop (suc fuel) output start s ≡ run s (lines left)
unfolding parse_loop run
parse_loop_round fuel output start s [] h ih =
    unfold lines in ground (arith, length-drop start output, ap length h)
parse_loop_round fuel output start s (x ∷ xs) h ih =
    let (lt, grows, line, next) = loop_line_lem output start x xs h in
    rw (lines_first x xs, ← line, ← next)
      (elim (Option-cases (step s (substr output start (line_end output start - start)))) [
        | inl fault ↦ rw (lt→ltb _ _ lt, fault, run) refl
        | inr (s', read) ↦
            rw (lt→ltb _ _ lt, read, run) (ih s' (line_end output start + 1) grows lt)
      ])

-- The loop reads the lines from `start` on, with fuel for each byte left.
parse_loop-run :
    (fuel : ℕ) (output : Bytes) (start : ℕ) (s : ParseState)
    → length output - start < fuel
    → parse_loop fuel output start s ≡ run s (lines (drop start output))
parse_loop-run zero output start s h = elim h [ ]
parse_loop-run (suc fuel) output start s h =
    parse_loop_round fuel output start s (drop start output) refl
      λ s' next lt within. parse_loop-run fuel output next s' (omega arith)

-- `ParseFindings` ends, with fuel to spare, and works line by line: the findings are those of a
-- run of the loop body over the lines of the text. It faults exactly when that run does.
pub parse_findings-lines :
    (output : Bytes)
    → parse_findings output
      ≡ Option.map (λ (s : ParseState). s.findings) (run initial (lines output))
unfolding parse_findings
parse_findings-lines output =
    ap (Option.map (λ (s : ParseState). s.findings))
      (parse_loop-run (length output + 1) output 0 initial (omega arith))
