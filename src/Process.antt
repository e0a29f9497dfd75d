-- ===== src/Process.antt =====
-- src/process.cpp: `RunProcess`, in the parent behind the fork: the reading of the two pipes, the
-- deadline, and the wait. What the system answers to `select`, `read` and `waitpid` is given as
-- lists; `none` is a call that still goes on where the answers end. The calls on the read ends of
-- the pipes and the kill are kept in their order.
pub mod Calls
pub mod Rounds
pub mod Returns
pub mod Deadline
pub mod Child
pub mod Setup
use coretrace_runtime_analyz.World.{ProcessResult}
use coretrace_runtime_analyz.Base.{
  Bool, Bytes, List, Option, [], codes, false, if◌then◌else◌, map, none, some, true, ℕ, ◌&&◌, ◌*◌,
  ◌++◌, ◌+◌, ◌||◌, ◌∷◌,
}
use coretrace_runtime_analyz.Base.Int.{pos, ℤ}
use mathlib.Core.Option

-- The read ends `stdout_pipe[0]` and `stderr_pipe[0]`.
pub data ReadEnd : Type 0 where
  stdout_end stderr_end : ReadEnd

pub data Call : Type 0 where
  read_from closed : ReadEnd → Call
  -- `kill(-pid, SIGKILL)`
  killed_group : Call

-- What `read` answers; an error is told by its `errno`.
pub data ReadAnswer : Type 0 where
  got : Bytes → ReadAnswer
  end_of_file read_interrupted would_block read_failed : ReadAnswer

-- The variables that `AppendFromFd` is given, and the calls so far.
pub record Reader : Type 0 where
  pub is_open : Bool
  pub output : Bytes
  pub calls : List Call

abbrev pub read_once : ReadEnd → Reader → Reader
read_once fd r = record r { calls = r.calls ++ read_from fd ∷ [] }

abbrev pub close_end : ReadEnd → Reader → Reader
close_end fd r = record r { is_open = false; calls = r.calls ++ closed fd ∷ [] }

-- `AppendFromFd`
unfoldable pub append_from_fd : ReadEnd → List ReadAnswer → Reader → Option Reader
append_from_fd fd [] r = none
append_from_fd fd (got bytes ∷ answers) r =
    append_from_fd fd answers (record (read_once fd r) { output = r.output ++ bytes })
append_from_fd fd (end_of_file ∷ answers) r = some (close_end fd (read_once fd r))
append_from_fd fd (read_interrupted ∷ answers) r = append_from_fd fd answers (read_once fd r)
append_from_fd fd (would_block ∷ answers) r = some (read_once fd r)
append_from_fd fd (read_failed ∷ answers) r = some (close_end fd (read_once fd r))

-- What `select` answers, and, for each end, what `read` then answers.
pub data SelectAnswer : Type 0 where
  select_interrupted : SelectAnswer
  -- with the text of `errno`
  select_failed : Bytes → SelectAnswer
  deadline_passed : List ReadAnswer → List ReadAnswer → SelectAnswer
  -- `FD_ISSET` of each end
  ready : Bool → Bool → List ReadAnswer → List ReadAnswer → SelectAnswer

-- The variables of the loop.
pub record Reading : Type 0 where
  pub stdout_open : Bool
  pub stderr_open : Bool
  pub stdout_text : Bytes
  pub stderr_text : Bytes
  pub timed_out : Bool
  pub error_text : Bytes
  pub calls : List Call

abbrev pub started : Reading
started = record {
  stdout_open = true;
  stderr_open = true;
  stdout_text = [];
  stderr_text = [];
  timed_out = false;
  error_text = [];
  calls = [];
}

-- `if (stdout_open && …) AppendFromFd(stdout_pipe[0], result.stdout_text, stdout_open);`
unfoldable pub read_stdout : Bool → List ReadAnswer → Reading → Option Reading
read_stdout is_set answers l =
    if l.stdout_open && is_set
    then (Option.map
        (λ (r : Reader). record l {
          stdout_open = r.is_open;
          stdout_text = r.output;
          calls = r.calls;
        })
        (append_from_fd stdout_end answers
          (record { is_open = l.stdout_open; output = l.stdout_text; calls = l.calls })))
    else some l

unfoldable pub read_stderr : Bool → List ReadAnswer → Reading → Option Reading
read_stderr is_set answers l =
    if l.stderr_open && is_set
    then (Option.map
        (λ (r : Reader). record l {
          stderr_open = r.is_open;
          stderr_text = r.output;
          calls = r.calls;
        })
        (append_from_fd stderr_end answers
          (record { is_open = l.stderr_open; output = l.stderr_text; calls = l.calls })))
    else some l

unfoldable pub read_both :
    Bool → Bool → List ReadAnswer → List ReadAnswer → Reading → Option Reading
read_both out_set err_set outs errs l = elim (read_stdout out_set outs l) [
  | none ↦ none
  | some l' ↦ read_stderr err_set errs l'
]

-- The round that an answer of `select` leads to, and whether the loop goes on.
unfoldable pub select_round : SelectAnswer → Reading → Option (Bool × Reading)
select_round select_interrupted l = some (true, l)
select_round (select_failed message) l =
    some (false, record l { error_text = codes "select failed: " ++ message })
select_round (deadline_passed outs errs) l =
    Option.map (λ l'. (false, l'))
      (read_both true true outs errs
        (record l { timed_out = true; calls = l.calls ++ killed_group ∷ [] }))
select_round (ready out_set err_set outs errs) l =
    Option.map (λ l'. (true, l')) (read_both out_set err_set outs errs l)

-- The loop over the open ends.
unfoldable pub read_loop : List SelectAnswer → Reading → Option Reading
read_loop [] l = if l.stdout_open || l.stderr_open then none else some l
read_loop (answer ∷ answers) l = elim (l.stdout_open || l.stderr_open) [
  | false ↦ some l
  | true ↦ elim (select_round answer l) [
    | none ↦ none
    | some (goes_on, l') ↦ elim goes_on [ false ↦ some l' | true ↦ read_loop answers l' ]
  ]
]

-- The two tests behind the loop: what they close.
abbrev pub rest_of : Bool → Bool → List Call
rest_of stdout_open stderr_open =
    (if stdout_open then closed stdout_end ∷ [] else [])
    ++ (if stderr_open then closed stderr_end ∷ [] else [])

unfoldable pub close_rest : Reading → Reading
close_rest l = record l { calls = l.calls ++ rest_of l.stdout_open l.stderr_open }

-- What `waitpid` answers: with the text of `errno`, or with a status by its kind.
pub data WaitAnswer : Type 0 where
  wait_interrupted : WaitAnswer
  wait_failed : Bytes → WaitAnswer
  exited signaled : ℕ → WaitAnswer
  changed_otherwise : WaitAnswer

abbrev pub result_of : Reading → ℤ → ProcessResult
result_of l code = record {
  exit_code = code;
  stdout_text = l.stdout_text;
  stderr_text = l.stderr_text;
  error_text = l.error_text;
  timed_out = l.timed_out;
}

-- The wait, and the exit code.
unfoldable pub wait_loop : List WaitAnswer → Reading → Option ProcessResult
wait_loop [] l = none
wait_loop (wait_interrupted ∷ answers) l = wait_loop answers l
wait_loop (wait_failed message ∷ answers) l =
    some (result_of (record l { error_text = codes "waitpid failed: " ++ message }) (pos 1))
wait_loop (exited code ∷ answers) l = some (result_of l (pos code))
wait_loop (signaled signal ∷ answers) l = some (result_of l (pos (128 + signal)))
wait_loop (changed_otherwise ∷ answers) l = some (result_of l (pos 1))

-- The parent's part of `RunProcess`: the result, and the calls.
unfoldable pub run_parent : List SelectAnswer → List WaitAnswer → Option (ProcessResult × List Call)
run_parent selects waits = elim (read_loop selects started) [
  | none ↦ none
  | some l ↦ Option.map (λ result. (result, (close_rest l).calls)) (wait_loop waits l)
]
