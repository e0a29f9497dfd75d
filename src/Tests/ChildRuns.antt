-- ===== src/Tests/ChildRuns.antt =====
-- The pipes, the deadline and the child of a process, at concrete answers.

use coretrace_runtime_analyz.Process.Child.Redirect.{
  Descriptors, IsPiped, Pipes, null_device, other_file, pipe_write, redirect, redirect-IsPiped,
}
use coretrace_runtime_analyz.Base.{
  Bytes, List, Option, [], arith, codes, if◌then◌else◌, ltb, none, refl, some, true, u64_mod, ℕ,
  ◌*◌, ◌+◌, ◌-◌, ◌/◌, ◌<◌, ◌==◌, ◌^◌, ◌∷◌, ◌≡◌, ◌≢◌, ◌≤◌,
}
use coretrace_runtime_analyz.Base.Int.{pos}
use coretrace_runtime_analyz.Text.{bytes_eq, find, starts_with}
use coretrace_runtime_analyz.World.{ProcessResult, ProcessSpec}
use coretrace_runtime_analyz.Args.Parse.{parse_args}
use coretrace_runtime_analyz.Process.{
  SelectAnswer, WaitAnswer, append_from_fd, close_rest, closed, deadline_passed, end_of_file,
  exited, got, read_both, read_loop, read_stderr, read_stdout, ready, run_parent, select_round,
  stderr_end, stdout_end, wait_loop, would_block,
}
use coretrace_runtime_analyz.Process.Calls.{Returns}
use coretrace_runtime_analyz.Process.Deadline.{
  TimeVal, deadline_after, deadline_of, remaining_of, remaining_of-time_left, time_left,
}
use coretrace_runtime_analyz.Process.Child.{
  Environment, assign, assign_all, becomes, executed, run_child,
}
use coretrace_runtime_analyz.Process.Child.Environment.{last_value, run_child-last_value}
use coretrace_runtime_analyz.Process.Setup.{
  SetupAnswer, SetupCall, closed_write, during, failed_result, made_pipe, run_process, setup_failed,
  succeeded,
}
use coretrace_runtime_analyz.Process.Setup.Ends.{LeavesNothing, run_process-LeavesNothing}
use mathlib.Core.Option

-- Both outputs end at once.
abbrev quick : List SelectAnswer
quick =
    ready true true (end_of_file ∷ []) (got (codes "x") ∷ end_of_file ∷ [])
    ∷ deadline_passed (would_block ∷ []) (would_block ∷ [])
    ∷ []

run_process-LeavesNothing_example :
    Returns LeavesNothing (run_process succeeded succeeded succeeded quick (exited 0 ∷ []))
run_process-LeavesNothing_example =
    run_process-LeavesNothing succeeded succeeded succeeded quick (exited 0 ∷ [])
      ((refl, refl), ((refl, refl), tt)) refl refl

whole :
    SetupAnswer
    → SetupAnswer
    → SetupAnswer
    → List SelectAnswer
    → List WaitAnswer
    → Option (ProcessResult × List SetupCall)
unfolding run_process run_parent read_loop select_round read_both read_stdout read_stderr
    append_from_fd close_rest wait_loop Option.map
whole = run_process

no_second_pipe :
    whole succeeded (setup_failed (codes "no")) succeeded quick []
    ≡ some (
      failed_result (codes "pipe failed: no"),
      made_pipe stdout_end ∷ during (closed stdout_end) ∷ closed_write stdout_end ∷ [],
    )
unfolding whole
no_second_pipe = refl

remaining_of-time_left_example :
    (deadline : ℕ) × (deadline_of (pos 60000) 5 ≡ some deadline)
    × (60000 * 1000000 < 2 ^ 63
        → let r = remaining_of (time_left deadline (5 + 1000000007)) in
          (r.tv_sec * 1000000 + r.tv_usec ≡ (60000 * 1000000 - 1000000007) / 1000)
          × (r.tv_usec < 1000000))
    × (2 ^ 63 ≤ 60000 * 1000000
        → 60000 * 1000000 < u64_mod
        → remaining_of (time_left deadline 5) ≡ record { tv_sec = 0; tv_usec = 0 })
remaining_of-time_left_example =
    remaining_of-time_left 60000 5 1000000007 (omega arith) (omega arith) (omega arith)

-- A timeout of 10000000000 seconds gives `select` no time.
far_away : ℕ → TimeVal
unfolding time_left remaining_of
far_away start = remaining_of (time_left (deadline_after start 10000000000000) start)

no_time : far_away 123456789 ≡ record { tv_sec = 0; tv_usec = 0 }
unfolding far_away
no_time = refl

abbrev environment_line : List Bytes
environment_line = codes "--env" ∷ codes "A=b=c" ∷ codes "--" ∷ codes "a.c" ∷ []

abbrev child_spec : ProcessSpec
child_spec = record {
  executable = codes "/tmp/x";
  args = codes "1" ∷ [];
  environment = (parse_args environment_line).options.environment;
  working_directory = [];
  timeout = pos 0;
}

abbrev inherited : Environment
inherited = λ name. none

child_becomes :
    run_child child_spec inherited true executed
    ≡ becomes
        (codes "/tmp/x")
        (codes "/tmp/x" ∷ codes "1" ∷ [])
        (assign_all child_spec.environment inherited)
unfolding run_child
child_becomes = refl

run_child-last_value_example :
    (codes "/tmp/x" ≡ child_spec.executable)
    × (codes "/tmp/x" ∷ codes "1" ∷ [] ≡ child_spec.executable ∷ child_spec.args)
    × (child_spec.working_directory ≢ [] → true ≡ true)
    × ((name : Bytes)
        → assign_all child_spec.environment inherited name
          ≡ last_value child_spec.environment name (inherited name))
run_child-last_value_example =
    run_child-last_value environment_line child_spec inherited true executed refl (codes "/tmp/x")
      (codes "/tmp/x" ∷ codes "1" ∷ []) (assign_all child_spec.environment inherited) child_becomes

assigned : List Bytes → Environment → Environment
unfolding assign_all assign bytes_eq find starts_with Option.map
assigned = assign_all

last_assignment :
    assigned (codes "A=1" ∷ codes "B=2" ∷ codes "A=x=y" ∷ []) inherited (codes "A")
    ≡ some (codes "x=y")
unfolding assigned
last_assignment = refl

abbrev four_pipes : Pipes
four_pipes = record { stdout_read = 3; stdout_write = 4; stderr_read = 5; stderr_write = 6 }

abbrev forked_with : Pipes → Descriptors
forked_with p = λ n.
    if n == p.stdout_write
    then some (pipe_write stdout_end)
    else if n == p.stderr_write
    then some (pipe_write stderr_end)
    else if ltb n 3
    then some (other_file n)
    else none

four_pipes-IsPiped : IsPiped four_pipes (forked_with four_pipes)
four_pipes-IsPiped = record {
  above = omega arith;
  apart = omega arith;
  stdout_made = refl;
  stderr_made = refl;
}

null_above : (fd : ℕ) → some 3 ≡ some fd → 2 < fd
null_above fd e = ground arith

redirect-IsPiped_example :
    let t' = redirect four_pipes (some 3) (forked_with four_pipes) in
    (t' 1 ≡ some (pipe_write stdout_end))
    × (t' 2 ≡ some (pipe_write stderr_end))
    × (t' 0 ≡ some null_device)
    × (t' 3 ≡ none)
    × (t' 4 ≡ none)
    × (t' 5 ≡ none)
    × (t' 6 ≡ none)
redirect-IsPiped_example =
    redirect-IsPiped four_pipes (some 3) (forked_with four_pipes) four_pipes-IsPiped null_above

-- A pipe whose write end is the descriptor 1, as where the analyzer was started with its standard
-- output closed: the child's output is closed in the end.
abbrev low_pipe : Pipes
low_pipe = record { stdout_read = 0; stdout_write = 1; stderr_read = 3; stderr_write = 4 }

low_output : redirect low_pipe none (forked_with low_pipe) 1 ≡ none
unfolding redirect
low_output = refl
