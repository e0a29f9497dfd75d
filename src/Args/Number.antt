-- ===== src/Args/Number.antt =====
-- The number behind `--timeout`: `std::stoll` in base 10, and the conversion of seconds into
-- `std::chrono::milliseconds`. That conversion multiplies in a signed 64-bit number; beyond its
-- range, where C++ leaves the result open, the model wraps around as two's complement does.

pub mod Timeout
use coretrace_runtime_analyz.Base.{
  Bool, Bytes, Option, [], drop, false, if◌then◌else◌, is_empty, leb, length, ltb, mul64, none,
  some, suc, true, u64_mod, ℕ, ◌&&◌, ◌*◌, ◌+◌, ◌-◌, ◌==◌, ◌^◌, ◌||◌, ◌∷◌,
}
use coretrace_runtime_analyz.Base.Int.{negsuc, pos, ℤ}
use coretrace_runtime_analyz.Findings.Site.{digits_value, span_digits}

-- `std::isspace` in the "C" locale
abbrev is_space : ℕ → Bool
is_space c = c == b' ' || leb 9 c && leb c 13

-- The white space a text starts with, by its length.
unfoldable pub leading_spaces : Bytes → ℕ
leading_spaces [] = 0
leading_spaces (c ∷ cs) = let rest = leading_spaces cs in if is_space c then suc rest else 0

abbrev i64_max : ℕ
i64_max = 2 ^ 63 - 1

-- The digits of a number behind its sign, which stands in front of `before` bytes: the value and
-- the length of all that is consumed, or `none` for an exception.
abbrev signed_value : Bool → ℕ → Bytes → Option (ℤ × ℕ)
signed_value negative before text =
    let ds = (span_digits text).0 in
    let n = digits_value 0 ds in
    if is_empty ds
    then none
    else if negative
    then (if ltb (i64_max + 1) n
        then none
        else some ((if n == 0 then pos 0 else negsuc (n - 1)), before + length ds))
    else if ltb i64_max n
    then none
    else some (pos n, before + length ds)

sign_of : ℕ → Bytes → Option (ℤ × ℕ)
sign_of spaces [] = none
sign_of spaces (c ∷ cs) =
    if c == b'-'
    then signed_value true (spaces + 1) cs
    else if c == b'+'
    then signed_value false (spaces + 1) cs
    else signed_value false spaces (c ∷ cs)

-- `std::stoll(value, &consumed)`; `none` is an exception
unfoldable pub stoll : Bytes → Option (ℤ × ℕ)
unfolding sign_of
stoll value = sign_of (leading_spaces value) (drop (leading_spaces value) value)

-- The seconds that `--timeout` accepts: the whole value is a number, and it is not negative.
unfoldable pub timeout_seconds : Bytes → Option ℕ
timeout_seconds value = elim (stoll value) [
  | none ↦ none
  | some (negsuc n, consumed) ↦ none
  | some (pos n, consumed) ↦ if consumed == length value then some n else none
]

-- `std::chrono::milliseconds` of `std::chrono::seconds(n)`
unfoldable pub milliseconds_of : ℕ → ℤ
milliseconds_of n =
    let m = mul64 n 1000 in if leb m i64_max then pos m else negsuc (u64_mod - 1 - m)
