-- ===== src/Process/Child/Redirect.antt =====
-- src/process.cpp: the file descriptors of the child, from the fork up to `chdir`.

use coretrace_runtime_analyz.Base.{
  Option, arith, if◌then◌else◌, is_some, none, refl, some, ℕ, ◌&&◌, ◌<◌, ◌==◌, ◌≡◌, ◌≢◌,
}
use coretrace_runtime_analyz.Process.{ReadEnd, stderr_end, stdout_end}

-- What a file descriptor stands for.
pub data Target : Type 0 where
  pipe_read pipe_write : ReadEnd → Target
  null_device : Target
  other_file : ℕ → Target

abbrev pub Descriptors : Type 0
Descriptors = ℕ → Option Target

-- `close`, and `dup2`, which changes nothing where the first is not open
abbrev pub close_fd : ℕ → Descriptors → Descriptors
close_fd fd t = λ n. if n == fd then none else t n

abbrev pub dup2 : ℕ → ℕ → Descriptors → Descriptors
dup2 old new t = λ n. if (n == new) && is_some (t old) then t old else t n

-- `pipe` has filled in these.
pub record Pipes : Type 0 where
  pub stdout_read : ℕ
  pub stdout_write : ℕ
  pub stderr_read : ℕ
  pub stderr_write : ℕ

-- `open("/dev/null", O_RDONLY)` and what is done with it, for the descriptor that it answers
abbrev pub redirect_input : Option ℕ → Descriptors → Descriptors
redirect_input none t = t
redirect_input (some fd) t =
    close_fd fd (dup2 fd 0 (λ n. if n == fd then some null_device else t n))

unfoldable pub redirect : Pipes → Option ℕ → Descriptors → Descriptors
redirect p null_fd t = redirect_input null_fd (
    close_fd p.stderr_write (
      close_fd p.stdout_write (
        dup2 p.stderr_write 2
          (dup2 p.stdout_write 1 (close_fd p.stderr_read (close_fd p.stdout_read t))))))

-- The pipes have been made, on descriptors of their own and above the standard ones.
pub record IsPiped (p : Pipes) (t : Descriptors) : Type 0 where
  pub above :
      (2 < p.stdout_read) × (2 < p.stdout_write) × (2 < p.stderr_read) × (2 < p.stderr_write)
  pub apart :
      (p.stdout_read ≢ p.stdout_write)
      × (p.stdout_read ≢ p.stderr_write)
      × (p.stderr_read ≢ p.stdout_write)
      × (p.stderr_read ≢ p.stderr_write)
      × (p.stdout_write ≢ p.stderr_write)
  pub stdout_made : t p.stdout_write ≡ some (pipe_write stdout_end)
  pub stderr_made : t p.stderr_write ≡ some (pipe_write stderr_end)

-- Where the pipes have been made on descriptors above 2, each write end on one of its own, and the
-- null device, if it could be opened, is above 2 too, the child writes its output and its error output to the write ends of their pipes and reads from the null
-- device, or from what it had where that could not be opened; and it holds no other descriptor of
-- the pipes.
pub redirect-IsPiped :
    (p : Pipes) (null_fd : Option ℕ) (t : Descriptors)
    → IsPiped p t
    → ((fd : ℕ) → null_fd ≡ some fd → 2 < fd)
    → let t' = redirect p null_fd t in
      (t' 1 ≡ some (pipe_write stdout_end))
      × (t' 2 ≡ some (pipe_write stderr_end))
      × (t' 0 ≡ elim null_fd [ none ↦ t 0 | some fd ↦ some null_device ])
      × (t' p.stdout_read ≡ none)
      × (t' p.stdout_write ≡ none)
      × (t' p.stderr_read ≡ none)
      × (t' p.stderr_write ≡ none)
unfolding redirect
redirect-IsPiped p none t i h =
    let a = i.above in
    let d = i.apart in
    let o = i.stdout_made in
    let e = i.stderr_made in
    (
      ground arith,
      ground arith,
      ground arith,
      ground arith,
      ground arith,
      ground arith,
      ground arith,
    )
redirect-IsPiped p (some fd) t i h =
    let a = i.above in
    let d = i.apart in
    let o = i.stdout_made in
    let e = i.stderr_made in
    let n = h fd refl in
    (
      ground arith,
      ground arith,
      ground arith,
      ground arith,
      ground arith,
      ground arith,
      ground arith,
    )
