-- ===== src/Args/Number/Timeout.antt =====
-- Which timeouts `--timeout` takes, and the one it sets.

use coretrace_runtime_analyz.Base.{
  Bytes, [], arith, length, refl, some, ℕ, ◌*◌, ◌<◌, ◌^◌, ◌↔◌, ◌∷◌, ◌≡◌, ◌≢◌, ◌≤◌,
}
use coretrace_runtime_analyz.Base.Int.{pos}
use coretrace_runtime_analyz.Findings.Site.{digits_value, to_decimal}
use coretrace_runtime_analyz.Findings.Site.RoundTrip.{
  Digits, digits_value-to_decimal, span_digits-Digits, to_decimal-Digits, to_decimal-ne-nil,
}
use coretrace_runtime_analyz.Args.Number.{leading_spaces, milliseconds_of, stoll, timeout_seconds}

-- The largest number of seconds whose milliseconds fit a signed 64-bit number.
abbrev pub max_seconds : ℕ
max_seconds = 9223372036854775

stoll-Digits :
    (ds : Bytes)
    → Digits ds
    → ds ≢ []
    → digits_value 0 ds < 2 ^ 63
    → stoll ds ≡ some (pos (digits_value 0 ds), length ds)
unfolding stoll
stoll-Digits [] d ne h = absurd (ne refl)
stoll-Digits (c ∷ cs) d ne h =
    let first : leading_spaces (c ∷ cs) ≡ 0 = unfold leading_spaces in ground (arith, d.0) in
    rw (stoll, first) (ground (arith, span_digits-Digits (c ∷ cs) d, d.0))

-- `--timeout` takes each number of seconds up to 2 ^ 63 - 1 as a plain decimal number. What it sets
-- is that many seconds, in milliseconds, exactly up to 9223372036854775 seconds.
pub timeout_seconds-to_decimal :
    (n : ℕ)
    → n < 2 ^ 63
    → (timeout_seconds (to_decimal n) ≡ some n)
      × ((milliseconds_of n ≡ pos (n * 1000)) ↔ (n ≤ max_seconds))
unfolding timeout_seconds milliseconds_of
timeout_seconds-to_decimal n h =
    let read =
      stoll-Digits (to_decimal n) (to_decimal-Digits n) (to_decimal-ne-nil n)
        (rw (digits_value-to_decimal n) h) in
    (
      rw (timeout_seconds, read) (ground (arith, digits_value-to_decimal n)),
      ((λ e. ground arith), λ le. ground arith),
    )
