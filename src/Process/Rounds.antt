-- ===== src/Process/Rounds.antt =====
-- The rounds of the loop over the pipes: each returns, with the calls in order.

use coretrace_runtime_analyz.Base.{
  Bool, Bool-cases, List, Option, [], any, ap, arith, false, inl, inr, none, refl, some, true, ◌&&◌,
  ◌++◌, ◌∙◌, ◌∷◌, ◌≡◌,
}
use coretrace_runtime_analyz.Process.{
  Call, ReadAnswer, ReadEnd, Reader, Reading, SelectAnswer, append_from_fd, deadline_passed,
  end_of_file, got, killed_group, read_both, read_failed, read_from, read_interrupted, read_stderr,
  read_stdout, ready, select_failed, select_interrupted, select_round, stderr_end, stdout_end,
  would_block,
}
use coretrace_runtime_analyz.Process.Calls.{
  Leaves, Returns, Returns-imp, Returns-map, closed-Leaves, killed_group-Leaves, read_from-Leaves,
  stops,
}

-- The reading of one end returns, with the calls in order.
append_from_fd-Leaves :
    (fd : ReadEnd) (answers : List ReadAnswer) (r : Reader) (other_open killed : Bool)
    → any stops answers ≡ true
    → r.is_open ≡ true
    → Leaves r.calls fd true other_open killed
    → Returns (λ r'. Leaves r'.calls fd r'.is_open other_open killed) (append_from_fd fd answers r)
unfolding append_from_fd
append_from_fd-Leaves fd [] r p k h o u = absurd (cc)
append_from_fd-Leaves fd (got bytes ∷ answers) r p k h o u =
    append_from_fd-Leaves fd answers _ p k h o (read_from-Leaves r.calls k fd p u)
append_from_fd-Leaves fd (read_interrupted ∷ answers) r p k h o u =
    append_from_fd-Leaves fd answers _ p k h o (read_from-Leaves r.calls k fd p u)
append_from_fd-Leaves fd (would_block ∷ answers) r p k h o u =
    rw o (read_from-Leaves r.calls k fd p u)
append_from_fd-Leaves fd (end_of_file ∷ answers) r p k h o u =
    closed-Leaves (r.calls ++ read_from fd ∷ []) k fd p (read_from-Leaves r.calls k fd p u)
append_from_fd-Leaves fd (read_failed ∷ answers) r p k h o u =
    closed-Leaves (r.calls ++ read_from fd ∷ []) k fd p (read_from-Leaves r.calls k fd p u)

abbrev pub InOrder : Reading → Type 0
InOrder l = Leaves l.calls stdout_end l.stdout_open l.stderr_open l.timed_out

swap_ends :
    (calls : List Call) (err out killed : Bool)
    → Leaves calls stderr_end err out killed
    → Leaves calls stdout_end out err killed
swap_ends calls err out killed u = (u.1, u.0, u.2)

read_stdout-InOrder :
    (is_set : Bool) (answers : List ReadAnswer) (l : Reading)
    → any stops answers ≡ true
    → InOrder l
    → Returns InOrder (read_stdout is_set answers l)
unfolding read_stdout
read_stdout-InOrder is_set answers l h u = elim (Bool-cases (l.stdout_open && is_set)) [
  | inr e ↦ rw (read_stdout, e) u
  | inl e ↦
      let o : l.stdout_open ≡ true = ground arith in
      rw (read_stdout, e)
        (Returns-map InOrder
          (λ r. record l { stdout_open = r.is_open; stdout_text = r.output; calls = r.calls })
          (append_from_fd stdout_end answers
            (record { is_open = l.stdout_open; output = l.stdout_text; calls = l.calls }))
          (append_from_fd-Leaves stdout_end answers
            (record { is_open = l.stdout_open; output = l.stdout_text; calls = l.calls })
            l.stderr_open l.timed_out h o (u.0 ∙ ap some o, u.1, u.2)))
]

read_stderr-InOrder :
    (is_set : Bool) (answers : List ReadAnswer) (l : Reading)
    → any stops answers ≡ true
    → InOrder l
    → Returns InOrder (read_stderr is_set answers l)
unfolding read_stderr
read_stderr-InOrder is_set answers l h u = elim (Bool-cases (l.stderr_open && is_set)) [
  | inr e ↦ rw (read_stderr, e) u
  | inl e ↦
      let o : l.stderr_open ≡ true = ground arith in
      let read : Reader = record {
        is_open = l.stderr_open;
        output = l.stderr_text;
        calls = l.calls;
      } in
      rw (read_stderr, e)
        (Returns-map InOrder
          (λ r. record l { stderr_open = r.is_open; stderr_text = r.output; calls = r.calls })
          (append_from_fd stderr_end answers read)
          (Returns-imp _ _ (λ r'. swap_ends r'.calls r'.is_open l.stdout_open l.timed_out) _
            (append_from_fd-Leaves stderr_end answers read l.stdout_open l.timed_out h o
              (u.1 ∙ ap some o, u.0, u.2))))
]

-- Each reading that an answer of `select` leads to comes to a stop.
abbrev pub ReadsStop : SelectAnswer → Type 0
ReadsStop (deadline_passed outs errs) = (any stops outs ≡ true) × (any stops errs ≡ true)
ReadsStop (ready out_set err_set outs errs) = (any stops outs ≡ true) × (any stops errs ≡ true)
ReadsStop _ = Unit

-- An answer behind which the loop ends.
abbrev pub breaks : SelectAnswer → Bool
breaks (select_failed message) = true
breaks (deadline_passed outs errs) = true
breaks _ = false

read_both-InOrder :
    (out_set err_set : Bool) (outs errs : List ReadAnswer) (l : Reading)
    → any stops outs ≡ true
    → any stops errs ≡ true
    → InOrder l
    → Returns InOrder (read_both out_set err_set outs errs l)
unfolding read_both
read_both-InOrder out_set err_set outs errs l h k u =
    read_next (read_stdout out_set outs l) (read_stdout-InOrder out_set outs l h u)
  where
    read_next :
        (read : Option Reading)
        → Returns InOrder read
        → Returns InOrder (elim read [ none ↦ none | some l' ↦ read_stderr err_set errs l' ])
    read_next none v = v
    read_next (some l') v = read_stderr-InOrder err_set errs l' k v

-- Where the loop goes on, the answer was not one that breaks it.
abbrev pub GoesOn : SelectAnswer → Bool × Reading → Type 0
GoesOn answer next = InOrder next.1 × (next.0 ≡ true → breaks answer ≡ false)

pub select_round-InOrder :
    (answer : SelectAnswer) (l : Reading)
    → ReadsStop answer
    → InOrder l
    → Returns (GoesOn answer) (select_round answer l)
unfolding select_round
select_round-InOrder select_interrupted l h u = (u, λ _. refl)
select_round-InOrder (select_failed message) l h u = (u, λ e. absurd (cc))
select_round-InOrder (deadline_passed outs errs) l h u =
    let l' : Reading = record l { timed_out = true; calls = l.calls ++ killed_group ∷ [] } in
    Returns-map (GoesOn (deadline_passed outs errs)) (λ l'. (false, l'))
      (read_both true true outs errs l')
      (Returns-imp InOrder _ (λ x v. (v, λ e. absurd (cc))) _
        (read_both-InOrder true true outs errs l' h.0 h.1
          (killed_group-Leaves l.calls l.timed_out l.stdout_open l.stderr_open u)))
select_round-InOrder (ready out_set err_set outs errs) l h u =
    Returns-map (GoesOn (ready out_set err_set outs errs)) (λ l'. (true, l'))
      (read_both out_set err_set outs errs l)
      (Returns-imp InOrder _ (λ x v. (v, λ e. refl)) _
        (read_both-InOrder out_set err_set outs errs l h.0 h.1 u))
