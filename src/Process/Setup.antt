-- ===== src/Process/Setup.antt =====
-- src/process.cpp: `RunProcess` as a whole, in the parent: the pipes, the fork, and what follows.
pub mod Ends
use coretrace_runtime_analyz.Base.{
  Bytes, List, Option, [], codes, false, none, some, ◌*◌, ◌++◌, ◌∷◌,
}
use coretrace_runtime_analyz.Base.Int.{pos}
use coretrace_runtime_analyz.World.{ProcessResult}
use coretrace_runtime_analyz.Process.{
  Call, ReadEnd, SelectAnswer, WaitAnswer, closed, run_parent, stderr_end, stdout_end,
}
use mathlib.Core.Option

-- What `pipe` and `fork` answer in the parent, with the text of `errno`.
pub data SetupAnswer : Type 0 where
  succeeded : SetupAnswer
  setup_failed : Bytes → SetupAnswer

-- The calls on the four ends of the pipes, a pipe being told by its read end.
pub data SetupCall : Type 0 where
  made_pipe closed_write set_close_on_exec set_non_blocking : ReadEnd → SetupCall
  during : Call → SetupCall

abbrev pub in_reading : List Call → List SetupCall
in_reading [] = []
in_reading (call ∷ calls) = during call ∷ in_reading calls

-- `ProcessResult result;` with an error
abbrev pub failed_result : Bytes → ProcessResult
failed_result message = record {
  exit_code = pos 1;
  stdout_text = [];
  stderr_text = [];
  error_text = message;
  timed_out = false;
}

-- The parent behind both pipes, up to its own write ends.
abbrev pub pipes_made : List SetupCall
pipes_made =
    made_pipe stdout_end
    ∷ made_pipe stderr_end
    ∷ set_close_on_exec stdout_end
    ∷ set_close_on_exec stderr_end
    ∷ set_non_blocking stdout_end
    ∷ set_non_blocking stderr_end
    ∷ []

-- `RunProcess` in the parent: the result, and the calls.
unfoldable pub run_process :
    SetupAnswer
    → SetupAnswer
    → SetupAnswer
    → List SelectAnswer
    → List WaitAnswer
    → Option (ProcessResult × List SetupCall)
run_process (setup_failed message) err forks selects waits =
    some (failed_result (codes "pipe failed: " ++ message), [])
run_process succeeded (setup_failed message) forks selects waits = some (
  failed_result (codes "pipe failed: " ++ message),
  made_pipe stdout_end ∷ during (closed stdout_end) ∷ closed_write stdout_end ∷ [],
)
run_process succeeded succeeded (setup_failed message) selects waits = some (
  failed_result (codes "fork failed: " ++ message),
  pipes_made
      ++ (during (closed stdout_end)
          ∷ closed_write stdout_end
          ∷ during (closed stderr_end)
          ∷ closed_write stderr_end
          ∷ []),
)
run_process succeeded succeeded succeeded selects waits = elim (run_parent selects waits) [
  | none ↦ none
  | some (result, calls) ↦
      some (
        result,
        pipes_made ++ (closed_write stdout_end ∷ closed_write stderr_end ∷ in_reading calls),
      )
]
