-- ===== src/Process/Child.antt =====
-- src/process.cpp: `RunProcess` in the child, up to `execv` or `_exit`.
pub mod Environment
pub mod Redirect
use coretrace_runtime_analyz.Base.{
  Bool, Bytes, List, Option, [], codes, drop, if◌then◌else◌, is_empty, none, not, some, take, ℕ,
  ◌&&◌, ◌*◌, ◌+◌, ◌==◌, ◌∷◌,
}
use coretrace_runtime_analyz.Text.{bytes_eq, find}
use coretrace_runtime_analyz.World.{ProcessSpec}
use mathlib.Core.Option

-- The environment of a process: the value of each name that is set.
abbrev pub Environment : Type 0
Environment = Bytes → Option Bytes

-- `setenv(name, value, 1)`
abbrev pub set_variable : Bytes → Bytes → Environment → Environment
set_variable name value env = λ n. if bytes_eq name n then some value else env n

-- The body of the loop over `spec.environment`.
unfoldable pub assign : Bytes → Environment → Environment
assign assignment env = elim (find assignment (codes "=")) [
  | none ↦ env
  | some eq ↦
      if not (eq == 0)
      then set_variable (take eq assignment) (drop (eq + 1) assignment) env
      else env
]

unfoldable pub assign_all : List Bytes → Environment → Environment
assign_all [] env = env
assign_all (assignment ∷ assignments) env = assign_all assignments (assign assignment env)

-- What the system answers to `execv`; it does not come back where it succeeds.
pub data ExecAnswer : Type 0 where
  executed no_entry exec_failed : ExecAnswer

-- How the child goes on: by `_exit`, or as the program.
pub data ChildEnd : Type 0 where
  exits : ℕ → ChildEnd
  becomes : (executable : Bytes) → (argv : List Bytes) → Environment → ChildEnd

-- The child behind its redirections; the first answer is that of `chdir`.
unfoldable pub run_child : ProcessSpec → Environment → Bool → ExecAnswer → ChildEnd
run_child spec inherited changes executes =
    if not (is_empty spec.working_directory) && not changes then exits 126 else (elim executes [
      | executed ↦
          becomes spec.executable (spec.executable ∷ spec.args)
            (assign_all spec.environment inherited)
      | no_entry ↦ exits 127
      | exec_failed ↦ exits 126
    ])
