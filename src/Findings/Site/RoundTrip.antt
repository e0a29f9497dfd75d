-- ===== src/Findings/Site/RoundTrip.antt =====
-- What `PrintLocation` prints, `ParseSite` reads back.
use coretrace_runtime_analyz.Findings.Site.Bounds.{IsSite}
use coretrace_runtime_analyz.Types.{SourceLocation}
use coretrace_runtime_analyz.Base.{
  All, Bool-cases, Bytes, [], ap, append-nil, append_assoc, arith, codes, drop, drop-drop,
  drop-length-append, false, if◌then◌else◌, inl, inr, length, none, refl, some, suc, sym,
  take-length-append, true, u32_mod, zero, ℕ, ◌%◌, ◌++◌, ◌+◌, ◌/◌, ◌<◌, ◌==◌, ◌∙◌, ◌∷◌, ◌≡◌, ◌≢◌,
}
use coretrace_runtime_analyz.Text.{rfind, starts_with}
use coretrace_runtime_analyz.Findings.Site.{
  decimal_loop, digits_value, from_chars, is_digit, parse_site, print_location, span_digits,
  take_after, take_number, to_decimal,
}

abbrev pub Digits : Bytes → Type 0
Digits = All (λ c. is_digit c ≡ true)

decimal_loop-Digits :
    (fuel n : ℕ) (out : Bytes) → n < fuel → Digits out → Digits (decimal_loop fuel n out)
unfolding decimal_loop
decimal_loop-Digits zero n out h d = elim h [ ]
decimal_loop-Digits (suc fuel) n out h d =
    ground (arith, decimal_loop-Digits fuel (n / 10) ((b'0' + n % 10) ∷ out))

digits_value-decimal_loop :
    (fuel n : ℕ) (out : Bytes)
    → n < fuel
    → digits_value 0 (decimal_loop fuel n out) ≡ digits_value n out
unfolding decimal_loop
digits_value-decimal_loop zero n out h = elim h [ ]
digits_value-decimal_loop (suc fuel) n out h =
    ground (arith, digits_value-decimal_loop fuel (n / 10) ((b'0' + n % 10) ∷ out))

decimal_loop-ne-nil : (fuel n : ℕ) (out : Bytes) → n < fuel → decimal_loop fuel n out ≢ []
unfolding decimal_loop
decimal_loop-ne-nil zero n out h = elim h [ ]
decimal_loop-ne-nil (suc fuel) n out h =
    ground (arith, decimal_loop-ne-nil fuel (n / 10) ((b'0' + n % 10) ∷ out))

pub span_digits-Digits : (ds : Bytes) → Digits ds → span_digits ds ≡ (ds, [])
unfolding span_digits
span_digits-Digits [] h = refl
span_digits-Digits (d ∷ ds) h = rw (span_digits, span_digits-Digits ds h.1, h.0) refl

from_chars-Digits :
    (ds : Bytes)
    → Digits ds
    → ds ≢ []
    → digits_value 0 ds < u32_mod
    → from_chars ds ≡ ([], some (digits_value 0 ds))
unfolding from_chars
from_chars-Digits [] d ne h = absurd (ne refl)
from_chars-Digits (c ∷ cs) d ne h = rw (from_chars, span_digits-Digits (c ∷ cs) d) (ground arith)

pub to_decimal-Digits : (n : ℕ) → Digits (to_decimal n)
unfolding to_decimal
to_decimal-Digits n = decimal_loop-Digits (n + 1) n [] (omega arith) tt

pub to_decimal-ne-nil : (n : ℕ) → to_decimal n ≢ []
unfolding to_decimal
to_decimal-ne-nil n = decimal_loop-ne-nil (n + 1) n [] (omega arith)

pub digits_value-to_decimal : (n : ℕ) → digits_value 0 (to_decimal n) ≡ n
unfolding to_decimal
digits_value-to_decimal n = digits_value-decimal_loop (n + 1) n [] (omega arith)

-- A number below 2 ^ 32 is read back from its decimal digits, with nothing left.
from_chars-to_decimal : (n : ℕ) → n < u32_mod → from_chars (to_decimal n) ≡ ([], some n)
from_chars-to_decimal n h =
    from_chars-Digits (to_decimal n) (to_decimal-Digits n) (to_decimal-ne-nil n)
      (rw (digits_value-to_decimal n) h)
    ∙ rw (digits_value-to_decimal n) refl

rfind-no-colon : (ds : Bytes) → Digits ds → rfind ds (codes ":") ≡ none
unfolding rfind starts_with
rfind-no-colon [] h = refl
rfind-no-colon (d ∷ ds) h = ground (arith, rfind-no-colon ds)

rfind_colon : (xs ds : Bytes) → Digits ds → rfind (xs ++ b':' ∷ ds) (codes ":") ≡ some (length xs)
unfolding rfind starts_with
rfind_colon [] ds h = rw (rfind-no-colon ds h) refl
rfind_colon (x ∷ xs) ds h = rw (rfind_colon xs ds h) refl

take_number-print :
    (xs : Bytes) (n v : ℕ)
    → n < u32_mod
    → take_number (xs ++ b':' ∷ to_decimal n) v ≡ record { taken = true; site = xs; value = n }
unfolding take_number take_after
take_number-print xs n v h =
    let ds = to_decimal n in
    let behind : drop (length xs + 1) (xs ++ b':' ∷ ds) ≡ ds =
      sym (drop-drop 1 (length xs) (xs ++ b':' ∷ ds))
      ∙ ap (drop 1) (drop-length-append xs (b':' ∷ ds)) in
    rw
      (
        take_number,
        rfind_colon xs ds (to_decimal-Digits n),
        take_after,
        behind,
        from_chars-to_decimal n h,
        take-length-append xs (b':' ∷ ds),
      )
      (rw (behind, from_chars-to_decimal n h) (ground (arith, to_decimal-ne-nil n)))

-- The text of a location in front of the ": " that ends it.
abbrev pub site_text : SourceLocation → Bytes
site_text l =
    if l.column == 0
    then l.file ++ b':' ∷ to_decimal l.line
    else (l.file ++ b':' ∷ to_decimal l.line) ++ b':' ∷ to_decimal l.column

print_location-site_text : (l : SourceLocation) → print_location l ≡ site_text l ++ codes ": "
unfolding print_location
print_location-site_text l = elim (Bool-cases (l.column == 0)) [
  | inl e ↦ rw (e, print_location) (simp (append_assoc, append-nil))
  | inr e ↦ rw (e, print_location) (simp append_assoc)
]

take_number_untaken :
    (site : Bytes) (v : ℕ) → (take_number site v).taken ≡ false → (take_number site v).site ≡ site
unfolding take_number take_after
take_number_untaken site v h = ground arith

-- A location that `PrintLocation` prints is read back by `ParseSite` from the text in front of the
-- ": " that ends it, for a file name that is not empty, a line from 1 on, and numbers below 2 ^ 32.
-- Where no column is printed, the file name itself must not end in a colon and a number.
pub parse_site-print_location :
    (l : SourceLocation)
    → IsSite l
    → (l.column ≡ 0 → (take_number l.file 0).taken ≡ false)
    → (site : Bytes) × (print_location l ≡ site ++ codes ": ") × (parse_site site ≡ some l)
unfolding parse_site
parse_site-print_location l ok bare = (
  site_text l,
  print_location-site_text l,
  elim (Bool-cases (l.column == 0)) [
    | inl e ↦
        rw (e, parse_site, take_number-print l.file l.line 0 ok.line_fits)
          (ground (arith, bare, take_number_untaken l.file 0))
    | inr e ↦
        rw
          (
            e,
            parse_site,
            take_number-print (l.file ++ b':' ∷ to_decimal l.line) l.column 0 ok.column_fits,
            take_number-print l.file l.line 0 ok.line_fits,
          )
          (ground arith)
  ],
)
