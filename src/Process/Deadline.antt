-- ===== src/Process/Deadline.antt =====
-- The deadline of `RunProcess`: nanoseconds of the steady clock, in signed 64-bit numbers. Where C++
-- leaves an overflow open, the model wraps around as two's complement does.

use coretrace_runtime_analyz.Base.{
  Option, arith, if◌then◌else◌, ltb, none, refl, some, u64_mod, ℕ, ◌%◌, ◌*◌, ◌+◌, ◌-◌, ◌/◌, ◌<◌,
  ◌^◌, ◌≡◌, ◌≤◌,
}
use coretrace_runtime_analyz.Base.Int.{negsuc, pos, ℤ}

-- `Clock::now() + spec.timeout`, as its 64 bits, for a timeout above zero
abbrev pub deadline_after : ℕ → ℕ → ℕ
deadline_after start timeout = (start + timeout * 1000000) % u64_mod

-- `if (spec.timeout > std::chrono::milliseconds(0)) deadline = Clock::now() + spec.timeout;`
unfoldable pub deadline_of : ℤ → ℕ → Option ℕ
deadline_of (pos n) start = if ltb 0 n then some (deadline_after start n) else none
deadline_of (negsuc n) start = none

-- `std::max(*deadline - Clock::now(), Clock::duration::zero())`
unfoldable pub time_left : ℕ → ℕ → ℕ
time_left deadline now =
    let left = (deadline + u64_mod - now) % u64_mod in if ltb left (2 ^ 63) then left else 0

pub record TimeVal : Type 0 where
  pub tv_sec : ℕ
  pub tv_usec : ℕ

-- `remaining`, of the time that is left
unfoldable pub remaining_of : ℕ → TimeVal
remaining_of left =
    let micros = left / 1000 in record { tv_sec = micros / 1000000; tv_usec = micros % 1000000 }

time_left-in_range :
    (n start elapsed : ℕ)
    → start + elapsed < u64_mod
    → elapsed < 2 ^ 63
    → n * 1000000 < 2 ^ 63
    → time_left (deadline_after start n) (start + elapsed) ≡ n * 1000000 - elapsed
unfolding time_left
time_left-in_range n start elapsed h e k = ground arith

time_left-overflow :
    (n start : ℕ)
    → start < u64_mod
    → 2 ^ 63 ≤ n * 1000000
    → n * 1000000 < u64_mod
    → time_left (deadline_after start n) start ≡ 0
unfolding time_left
time_left-overflow n start h k l = ground arith

-- A run with a timeout of n milliseconds, above zero, `elapsed` nanoseconds behind its start, with the
-- clock below 2 ^ 64 and `elapsed` below 2 ^ 63. If n milliseconds are below 2 ^ 63 nanoseconds,
-- `select` is given the time up to the deadline, rounded down to whole microseconds, and nothing once
-- it has passed; its microseconds are below a second. If they are from 2 ^ 63 up to 2 ^ 64
-- nanoseconds, it is given no time at all at the start.
pub remaining_of-time_left :
    (n start elapsed : ℕ)
    → 0 < n
    → start + elapsed < u64_mod
    → elapsed < 2 ^ 63
    → (deadline : ℕ) × (deadline_of (pos n) start ≡ some deadline)
      × (n * 1000000 < 2 ^ 63
          → let r = remaining_of (time_left deadline (start + elapsed)) in
            (r.tv_sec * 1000000 + r.tv_usec ≡ (n * 1000000 - elapsed) / 1000)
            × (r.tv_usec < 1000000))
      × (2 ^ 63 ≤ n * 1000000
          → n * 1000000 < u64_mod
          → remaining_of (time_left deadline start) ≡ record { tv_sec = 0; tv_usec = 0 })
unfolding deadline_of remaining_of
remaining_of-time_left n start elapsed p h e = (
  deadline_after start n,
  ground arith,
  λ k. rw (time_left-in_range n start elapsed h e k) (omega arith, omega arith),
  λ k l. rw (time_left-overflow n start (omega arith) k l) refl,
)
