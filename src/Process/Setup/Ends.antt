-- ===== src/Process/Setup/Ends.antt =====
-- What becomes of the four ends of the pipes.

use coretrace_runtime_analyz.Process.Rounds.{ReadsStop, breaks}
use coretrace_runtime_analyz.Process.Returns.{CleanedUp, ends_wait, run_parent-CleanedUp}
use coretrace_runtime_analyz.World.{ProcessResult}
use coretrace_runtime_analyz.Base.{
  All, Bool, List, Option, [], any, ap, arith, false, if◌then◌else◌, inl, inr, none, refl, some,
  true, ◌++◌, ◌||◌, ◌∙◌, ◌∷◌, ◌≡◌, ◌⊎◌,
}
use coretrace_runtime_analyz.Process.{
  Call, ReadEnd, SelectAnswer, WaitAnswer, run_parent, stderr_end, stdout_end,
}
use coretrace_runtime_analyz.Process.Calls.{Returns, is_kill, replay, same_end, use_end}
use coretrace_runtime_analyz.Process.Setup.{
  SetupAnswer, SetupCall, closed_write, during, in_reading, made_pipe, pipes_made, run_process,
  set_close_on_exec, set_non_blocking, setup_failed, succeeded,
}

-- An end of a pipe before it is made, while it is open, and behind its closing.
pub data EndState : Type 0 where
  unmade opened ended : EndState

abbrev state_of : Bool → EndState
state_of is_open = if is_open then opened else ended

-- A read end behind a call; `none` is a use of an end that is not open, or a second making.
abbrev after_call : ReadEnd → EndState → SetupCall → Option EndState
after_call fd unmade (made_pipe g) = if same_end fd g then some opened else some unmade
after_call fd opened (made_pipe g) = if same_end fd g then none else some opened
after_call fd ended (made_pipe g) = if same_end fd g then none else some ended
after_call fd opened (set_close_on_exec g) = some opened
after_call fd opened (set_non_blocking g) = some opened
after_call fd state (set_close_on_exec g) = if same_end fd g then none else some state
after_call fd state (set_non_blocking g) = if same_end fd g then none else some state
after_call fd state (closed_write g) = some state
after_call fd opened (during call) = elim (use_end fd true call) [
  | none ↦ none
  | some is_open ↦ some (state_of is_open)
]
after_call fd ended (during call) = elim (use_end fd false call) [
  | none ↦ none
  | some is_open ↦ some (state_of is_open)
]
after_call fd unmade (during call) = elim (use_end fd false call) [
  | none ↦ none
  | some is_open ↦ some unmade
]

-- The write end of a pipe in the parent, behind a call.
abbrev write_after : ReadEnd → EndState → SetupCall → Option EndState
write_after fd unmade (made_pipe g) = if same_end fd g then some opened else some unmade
write_after fd state (made_pipe g) = if same_end fd g then none else some state
write_after fd opened (closed_write g) = if same_end fd g then some ended else some opened
write_after fd state (closed_write g) = if same_end fd g then none else some state
write_after fd state _ = some state

abbrev pub follow :
    (EndState → SetupCall → Option EndState) → EndState → List SetupCall → Option EndState
follow after state [] = some state
follow after state (call ∷ calls) = elim (after state call) [
  | none ↦ none
  | some state' ↦ follow after state' calls
]

abbrev pub read_end : ReadEnd → List SetupCall → Option EndState
read_end fd = follow (after_call fd) unmade

abbrev pub write_end : ReadEnd → List SetupCall → Option EndState
write_end fd = follow (write_after fd) unmade

follow_used :
    (fd : ReadEnd) (o' : Bool) (calls : List Call) (used : Option Bool)
    → ((p : Bool)
        → replay fd p calls ≡ some o'
        → follow (after_call fd) (state_of p) (in_reading calls) ≡ some (state_of o'))
    → (elim used [ none ↦ none | some p ↦ replay fd p calls ]) ≡ some o'
    → (elim (elim used as (λ x. Option EndState) [ none ↦ none | some p ↦ some (state_of p) ])
        as (λ x. Option EndState) [
          | none ↦ none
          | some state ↦ follow (after_call fd) state (in_reading calls)
        ])
      ≡ some (state_of o')
follow_used fd o' calls none go h = absurd (cc)
follow_used fd o' calls (some p) go h = go p h

-- While it reads, a read end goes as in Calls.
follow-replay :
    (fd : ReadEnd) (is_open is_open' : Bool) (calls : List Call)
    → replay fd is_open calls ≡ some is_open'
    → follow (after_call fd) (state_of is_open) (in_reading calls) ≡ some (state_of is_open')
follow-replay fd o o' [] h = ground arith
follow-replay fd true o' (c ∷ calls) h =
    follow_used fd o' calls (use_end fd true c) (λ p. follow-replay fd p o' calls) h
follow-replay fd false o' (c ∷ calls) h =
    follow_used fd o' calls (use_end fd false c) (λ p. follow-replay fd p o' calls) h

follow-in_reading :
    (fd : ReadEnd) (state : EndState) (calls : List Call)
    → follow (write_after fd) state (in_reading calls) ≡ some state
follow-in_reading fd state [] = refl
follow-in_reading fd unmade (c ∷ calls) = follow-in_reading fd unmade calls
follow-in_reading fd opened (c ∷ calls) = follow-in_reading fd opened calls
follow-in_reading fd ended (c ∷ calls) = follow-in_reading fd ended calls

-- A pipe was never made, or both of its ends are closed.
abbrev pub IsGone : ReadEnd → List SetupCall → Type 0
IsGone fd calls =
    ((read_end fd calls ≡ some unmade) × (write_end fd calls ≡ some unmade))
    ⊎ ((read_end fd calls ≡ some ended) × (write_end fd calls ≡ some ended))

abbrev pub kills_group : SetupCall → Bool
kills_group (during call) = is_kill call
kills_group _ = false

any-in_reading : (calls : List Call) → any kills_group (in_reading calls) ≡ any is_kill calls
any-in_reading [] = refl
any-in_reading (c ∷ calls) = ap (λ b. is_kill c || b) (any-in_reading calls)

-- Both pipes are gone, and the group was killed exactly if the result says so.
abbrev pub LeavesNothing : ProcessResult × List SetupCall → Type 0
LeavesNothing (result, calls) =
    IsGone stdout_end calls × IsGone stderr_end calls × (any kills_group calls ≡ result.timed_out)

-- Whatever `pipe` and `fork` answer, and if every reading comes to a stop, `select` at some point
-- fails or passes the deadline, and the wait at some point ends, `RunProcess` returns. By then each
-- pipe that was made has had both of its ends in the parent closed, once, and none was used before
-- it was made or behind its closing; and the process group was killed exactly if the result says
-- that the program timed out.
pub run_process-LeavesNothing :
    (out err forks : SetupAnswer) (selects : List SelectAnswer) (waits : List WaitAnswer)
    → All ReadsStop selects
    → any breaks selects ≡ true
    → any ends_wait waits ≡ true
    → Returns LeavesNothing (run_process out err forks selects waits)
unfolding run_process
run_process-LeavesNothing (setup_failed m) err forks selects waits h b e =
    (inl (refl, refl), inl (refl, refl), refl)
run_process-LeavesNothing succeeded (setup_failed m) forks selects waits h b e =
    (inr (refl, refl), inl (refl, refl), refl)
run_process-LeavesNothing succeeded succeeded (setup_failed m) selects waits h b e =
    (inr (refl, refl), inr (refl, refl), refl)
run_process-LeavesNothing succeeded succeeded succeeded selects waits h b e =
    finish (run_parent selects waits) (run_parent-CleanedUp selects waits h b e)
  where
    finish :
        (o : Option (ProcessResult × List Call))
        → Returns CleanedUp o
        → Returns LeavesNothing (elim o [
          | none ↦ none
          | some (result, calls) ↦ some (
            result,
            pipes_made ++ (closed_write stdout_end ∷ closed_write stderr_end ∷ in_reading calls),
          )
        ])
    finish none u = u
    finish (some (result, calls)) u = (
      inr (follow-replay stdout_end true false calls u.0, follow-in_reading stdout_end ended calls),
      inr (follow-replay stderr_end true false calls u.1, follow-in_reading stderr_end ended calls),
      any-in_reading calls ∙ u.2,
    )
