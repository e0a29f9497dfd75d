-- ===== src/Findings/Site/Scan.antt =====
-- The loop of `Field` over the key's occurrences, as one pass over the line.

use mathlib.Core.Option
use native.Mathlib.Nat.{add_assoc, add-zero}
use coretrace_runtime_analyz.Base.{
  Bool, Bool-cases, Bytes, Option, [], ap, arith, codes, drop, drop-drop, drop_cons, false,
  get_elem?-drop, if◌then◌else◌, inl, inr, length, length-drop, le→ltb, ltb, none, refl, some, suc,
  sym, true, zero, ℕ, ◌&&◌, ◌++◌, ◌+◌, ◌-◌, ◌<◌, ◌==◌, ◌||◌, ◌∙◌, ◌∷◌, ◌≡◌,
}
use coretrace_runtime_analyz.Text.{find, find_from, starts_with}
use coretrace_runtime_analyz.Findings.Site.{byte_is, field, field_loop, is_field_at, up_to_space}

-- One pass over a text: `boundary` says that a field may start here.
pub scan : Bool → Bytes → Bytes → Option Bytes
scan boundary [] key = none
scan boundary (x ∷ xs) key =
    let rest = scan (x == b' ') xs key in
    if boundary && starts_with (x ∷ xs) (key ++ codes "=")
    then some (up_to_space (drop (length key + 1) (x ∷ xs)))
    else rest

-- Whether a field may start at a position of a line.
abbrev boundary_at : Bytes → ℕ → Bool
boundary_at line at = at == 0 || byte_is line (at - 1) b' '

byte_is-drop :
    (line : Bytes) (at : ℕ) (c : ℕ) {x : ℕ} {xs : Bytes}
    → drop at line ≡ x ∷ xs
    → byte_is line at c ≡ (x == c)
unfolding byte_is
byte_is-drop line at c h = rw ((drop_cons at line h).0, byte_is) refl

-- The loop's test of the equals sign, as part of the prefix.
starts_with-equals :
    (xs key : Bytes)
    → starts_with xs (key ++ codes "=")
      ≡ (starts_with xs key && (ltb (length key) (length xs) && byte_is xs (length key) b'='))
unfolding starts_with byte_is
starts_with-equals [] [] = refl
starts_with-equals (x ∷ xs) [] = ground arith
starts_with-equals [] (k ∷ key) = refl
starts_with-equals (x ∷ xs) (k ∷ key) = ground (arith, starts_with-equals xs key)

byte_is-add : (line : Bytes) (at n c : ℕ) → byte_is (drop at line) n c ≡ byte_is line (at + n) c
unfolding byte_is
byte_is-add line at n c = rw (byte_is, get_elem?-drop) refl

-- The test at an occurrence says the same as the pass.
is_field_at-scan :
    (line key : Bytes) (at : ℕ) (xs : Bytes)
    → drop at line ≡ xs
    → starts_with xs key ≡ true
    → is_field_at line key at ≡ (boundary_at line at && starts_with xs (key ++ codes "="))
is_field_at-scan line key at xs d h =
    rw (starts_with-equals xs key, h, ← d, byte_is-add line at (length key) b'=')
      (ground (arith, length-drop at line))

-- The next search, behind an occurrence.
find_from-next :
    (line key : Bytes) (at x : ℕ) (xs : Bytes)
    → drop at line ≡ x ∷ xs
    → find_from line key (at + 1) ≡ Option.map (λ i. at + 1 + i) (find xs key)
unfolding find_from
find_from-next line key at x xs d =
    rw
      (
        (drop_cons at line d).1,
        le→ltb (length line) (at + 1) (omega (arith, length-drop at line, ap length d)),
      )
      refl

map-suc :
    (at : ℕ) (o : Option ℕ)
    → Option.map (λ i. at + i) (Option.map suc o) ≡ Option.map (λ i. at + 1 + i) o
unfolding Option.map
map-suc at none = refl
map-suc at (some i) = ap some (omega arith)

boundary_next :
    (line : Bytes) (at x : ℕ) (xs : Bytes)
    → drop at line ≡ x ∷ xs
    → boundary_at line (at + 1) ≡ (x == b' ')
boundary_next line at x xs d = ground (arith, byte_is-drop line at b' ' d)

field_loop_round :
    (fuel : ℕ) (line key : Bytes) (at : ℕ)
    → field_loop (suc fuel) line key (some at) ≡ (
        if is_field_at line key at
        then some (up_to_space (drop (at + length key + 1) line))
        else field_loop fuel line key (find_from line key (at + 1)))
unfolding field_loop
field_loop_round fuel line key at = refl

pub scan_nil : (b : Bool) (key : Bytes) → scan b [] key ≡ none
unfolding scan
scan_nil b key = refl

pub scan_round :
    (b : Bool) (x : ℕ) (xs key : Bytes)
    → scan b (x ∷ xs) key ≡ (
        if b && starts_with (x ∷ xs) (key ++ codes "=")
        then some (up_to_space (drop (length key + 1) (x ∷ xs)))
        else scan (x == b' ') xs key)
unfolding scan
scan_round b x xs key = refl

find_here :
    (x at : ℕ) (xs key : Bytes)
    → starts_with (x ∷ xs) key ≡ true
    → Option.map (λ i. at + i) (find (x ∷ xs) key) ≡ some at
unfolding find Option.map
find_here x at xs key e = rw (find, e, add-zero) refl

find_later :
    (x at : ℕ) (xs key : Bytes)
    → starts_with (x ∷ xs) key ≡ false
    → Option.map (λ i. at + i) (find (x ∷ xs) key) ≡ Option.map (λ i. at + 1 + i) (find xs key)
unfolding find
find_later x at xs key e = rw (find, e) (map-suc at (find xs key))

module _ (line key : Bytes) (at x : ℕ) (xs : Bytes) (d : drop at line ≡ x ∷ xs) where
  -- At an occurrence, the loop does what the pass does.
  occurrence-scan :
      (fuel : ℕ)
      → starts_with (x ∷ xs) key ≡ true
      → field_loop fuel line key (Option.map (λ i. at + 1 + i) (find xs key))
        ≡ scan (x == b' ') xs key
      → field_loop (suc fuel) line key (some at) ≡ scan (boundary_at line at) (x ∷ xs) key
  occurrence-scan fuel e ih =
      field_loop_round fuel line key at
      ∙ rw
          (
            is_field_at-scan line key at (x ∷ xs) d e,
            add_assoc,
            ← drop-drop (length key + 1) at line,
            d,
            find_from-next line key at x xs d,
            ih,
          )
          (sym (scan_round (boundary_at line at) x xs key))

  -- Elsewhere, the pass goes on too.
  other-scan :
      starts_with (x ∷ xs) key ≡ false
      → scan (boundary_at line at) (x ∷ xs) key ≡ scan (x == b' ') xs key
  other-scan e =
      scan_round (boundary_at line at) x xs key
      ∙ rw (starts_with-equals (x ∷ xs) key, e) (ground arith)

map-zero : (o : Option ℕ) → o ≡ Option.map (λ i. 0 + i) o
unfolding Option.map
map-zero none = refl
map-zero (some i) = ap some (omega arith)

-- The loop from the first occurrence of the key at `at` or behind.
field_loop-scan :
    (fuel : ℕ) (line : Bytes) (k : ℕ) (key : Bytes) (at : ℕ) (xs : Bytes)
    → drop at line ≡ xs
    → length xs < fuel
    → field_loop fuel line (k ∷ key) (Option.map (λ i. at + i) (find xs (k ∷ key)))
      ≡ scan (boundary_at line at) xs (k ∷ key)
field_loop-scan zero line k key at xs d h = elim h [ ]
field_loop-scan (suc fuel) line k key at [] d h =
    unfold starts_with field_loop find scan Option.map in refl
field_loop-scan (suc fuel) line k key at (x ∷ xs) d h =
    let later = drop_cons at line d in
    let b = boundary_next line at x xs d in
    elim (Bool-cases (starts_with (x ∷ xs) (k ∷ key))) [
      | inl e ↦
          ap (field_loop (suc fuel) line (k ∷ key)) (find_here x at xs (k ∷ key) e)
          ∙ occurrence-scan line (k ∷ key) at x xs d fuel e (
              field_loop-scan fuel line k key (at + 1) xs later.1 (omega arith)
              ∙ ap (λ c. scan c xs (k ∷ key)) b)
      | inr e ↦
          ap (field_loop (suc fuel) line (k ∷ key)) (find_later x at xs (k ∷ key) e)
          ∙ field_loop-scan (suc fuel) line k key (at + 1) xs later.1 (omega arith)
          ∙ ap (λ c. scan c xs (k ∷ key)) b
          ∙ sym (other-scan line (k ∷ key) at x xs d e)
    ]

-- The loop of `Field` as one pass over the line.
pub field-scan :
    (line : Bytes) (k : ℕ) (key : Bytes) → field line (k ∷ key) ≡ scan true line (k ∷ key)
unfolding field
field-scan line k key =
    ap (field_loop (length line + 1) line (k ∷ key)) (map-zero (find line (k ∷ key)))
    ∙ field_loop-scan (length line + 1) line k key 0 line refl (omega arith)
