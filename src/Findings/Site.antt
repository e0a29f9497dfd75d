-- ===== src/Findings/Site.antt =====
-- src/findings.cpp: `Field`, `TakeNumber` and `ParseSite`, and `PrintLocation` of
-- src/runtime_analyzer.cpp, which prints what `ParseSite` reads.
pub mod Bounds
pub mod Scan
pub mod Words
pub mod RoundTrip
use coretrace_runtime_analyz.Base.{
  Bool, Bytes, Option, [], codes, drop, false, get_elem?, if◌then◌else◌, is_empty, leb, length, ltb,
  none, not, some, suc, take, true, u32_mod, zero, ℕ, ◌%◌, ◌&&◌, ◌*◌, ◌++◌, ◌+◌, ◌-◌, ◌/◌, ◌==◌,
  ◌||◌, ◌∷◌,
}
use coretrace_runtime_analyz.Text.{find, find_from, rfind}
use coretrace_runtime_analyz.Types.{SourceLocation}

-- `text[i] == c`, for a position the code has tested
unfoldable pub byte_is : Bytes → ℕ → ℕ → Bool
byte_is text i c = elim (get_elem? text i) [ none ↦ false | some x ↦ x == c ]

-- `value.substr(0, value.find(' '))`
unfoldable pub up_to_space : Bytes → Bytes
up_to_space value = elim (find value (codes " ")) [ none ↦ value | some n ↦ take n value ]

-- The test of the loop in `Field` at an occurrence of the key.
abbrev pub is_field_at : Bytes → Bytes → ℕ → Bool
is_field_at line key at =
    let value_start = at + length key in
    (at == 0 || byte_is line (at - 1) b' ')
    && (ltb value_start (length line) && byte_is line value_start b'=')

-- The loop of `Field` from the occurrence `at`; the fuel bounds its rounds.
unfoldable pub field_loop : ℕ → Bytes → Bytes → Option ℕ → Option Bytes
field_loop fuel line key none = none
field_loop zero line key (some at) = none
field_loop (suc fuel) line key (some at) =
    let rest = field_loop fuel line key (find_from line key (at + 1)) in
    if is_field_at line key at then some (up_to_space (drop (at + length key + 1) line)) else rest

-- `Field`
unfoldable pub field : Bytes → Bytes → Option Bytes
field line key = field_loop (length line + 1) line key (find line key)

abbrev pub is_digit : ℕ → Bool
is_digit c = leb b'0' c && leb c b'9'

-- The digits a number starts with, and what follows them.
unfoldable pub span_digits : Bytes → Bytes × Bytes
span_digits [] = ([], [])
span_digits (c ∷ cs) =
    let (ds, rest) = span_digits cs in if is_digit c then (c ∷ ds, rest) else ([], c ∷ cs)

-- The number that digits spell behind `n`.
abbrev pub digits_value : ℕ → Bytes → ℕ
digits_value n [] = n
digits_value n (c ∷ cs) = digits_value (n * 10 + (c - b'0')) cs

-- `std::from_chars` into an `unsigned`: its `ptr` as the text left over, and the value unless it
-- reports an error.
unfoldable pub from_chars : Bytes → Bytes × Option ℕ
from_chars text =
    let (ds, rest) = span_digits text in
    (
      rest,
      if is_empty ds || leb u32_mod (digits_value 0 ds) then none else some (digits_value 0 ds),
    )

-- What `TakeNumber` returns and leaves in its two references.
pub record Taken : Type 0 where
  pub taken : Bool
  pub site : Bytes
  pub value : ℕ

-- The part of `TakeNumber` behind the colon's position.
unfoldable pub take_after : Bytes → ℕ → ℕ → Taken
take_after site value colon =
    let tail = drop (colon + 1) site in
    let (end, parsed) = from_chars tail in
    elim parsed [
      | none ↦ record { taken = false; site = site; value = value }
      | some n ↦
          if is_empty tail || not (is_empty end)
          then record { taken = false; site = site; value = n }
          else record { taken = true; site = take colon site; value = n }
    ]

-- `TakeNumber`
unfoldable pub take_number : Bytes → ℕ → Taken
unfolding take_after
take_number site value = elim (rfind site (codes ":")) [
  | none ↦ record { taken = false; site = site; value = value }
  | some colon ↦ take_after site value colon
]

-- `ParseSite`
unfoldable pub parse_site : Bytes → Option SourceLocation
parse_site site =
    let last = take_number site 0 in
    let before = take_number last.site 0 in
    let line = if before.taken then before.value else last.value in
    let column = if before.taken then last.value else 0 in
    if not last.taken
    then none
    else if is_empty before.site || line == 0
    then none
    else some (record { file = before.site; line = line; column = column })

-- The decimal digits that an output stream writes; the fuel bounds their count.
unfoldable pub decimal_loop : ℕ → ℕ → Bytes → Bytes
decimal_loop zero n out = out
decimal_loop (suc fuel) n out =
    let rest = decimal_loop fuel (n / 10) ((b'0' + n % 10) ∷ out) in
    if ltb n 10 then (b'0' + n) ∷ out else rest

-- `std::ostream << n`, also `std::to_string(n)`, on an unsigned number
unfoldable pub to_decimal : ℕ → Bytes
unfolding decimal_loop
to_decimal n = decimal_loop (n + 1) n []

-- `PrintLocation`
unfoldable pub print_location : SourceLocation → Bytes
print_location location =
    location.file
    ++ codes ":"
    ++ to_decimal location.line
    ++ (if not (location.column == 0) then codes ":" ++ to_decimal location.column else [])
    ++ codes ": "
