-- ===== src/Tests/ProcessRuns.antt =====
-- The reading of a program's output, at concrete answers of the system.

use coretrace_runtime_analyz.World.{ProcessResult}
use coretrace_runtime_analyz.Base.{List, Option, [], codes, false, none, refl, some, true, ◌∷◌, ◌≡◌}
use coretrace_runtime_analyz.Base.Int.{pos}
use coretrace_runtime_analyz.Process.{
  Call, SelectAnswer, WaitAnswer, append_from_fd, close_rest, closed, deadline_passed, end_of_file,
  exited, got, killed_group, read_both, read_from, read_loop, read_stderr, read_stdout, ready,
  run_parent, select_interrupted, select_round, signaled, stderr_end, stdout_end, wait_interrupted,
  wait_loop, would_block,
}
use coretrace_runtime_analyz.Process.Calls.{Returns}
use coretrace_runtime_analyz.Process.Returns.{CleanedUp, run_parent-CleanedUp}
use mathlib.Core.Option

run : List SelectAnswer → List WaitAnswer → Option (ProcessResult × List Call)
unfolding run_parent read_loop select_round read_both read_stdout read_stderr append_from_fd
    close_rest wait_loop Option.map
run = run_parent

-- Standard output is read to its end in two rounds; then the deadline passes.
abbrev late : List SelectAnswer
late =
    ready true false (got (codes "ab") ∷ would_block ∷ []) (would_block ∷ [])
    ∷ select_interrupted
    ∷ ready true false (got (codes "c") ∷ end_of_file ∷ []) (would_block ∷ [])
    ∷ deadline_passed (would_block ∷ []) (got (codes "x") ∷ would_block ∷ [])
    ∷ []

times_out :
    run late (wait_interrupted ∷ signaled 9 ∷ [])
    ≡ some (
      record {
        exit_code = pos 137;
        stdout_text = codes "abc";
        stderr_text = codes "x";
        error_text = [];
        timed_out = true;
      },
      read_from stdout_end
          ∷ read_from stdout_end
          ∷ read_from stdout_end
          ∷ read_from stdout_end
          ∷ closed stdout_end
          ∷ killed_group
          ∷ read_from stderr_end
          ∷ read_from stderr_end
          ∷ closed stderr_end
          ∷ [],
    )
unfolding run
times_out = refl

-- A program that has closed both of its outputs is waited for without a deadline.
closed_outputs :
    run (ready true true (end_of_file ∷ []) (end_of_file ∷ []) ∷ late) (wait_interrupted ∷ [])
    ≡ none
unfolding run
closed_outputs = refl

run_parent-CleanedUp_example : Returns CleanedUp (run_parent late (exited 0 ∷ []))
run_parent-CleanedUp_example =
    run_parent-CleanedUp late (exited 0 ∷ [])
      ((refl, refl), (tt, ((refl, refl), ((refl, refl), tt)))) refl refl
