-- ===== src/Findings/Site/Words.antt =====
-- `Field` against the words of its line: it finds the value of the first word that starts with
-- the key and an equals sign.

use coretrace_runtime_analyz.Base.{
  All, All-append, Bool, Bool-cases, Bytes, List, Option, [], ap, arith, codes, drop, false,
  if◌then◌else◌, inl, inr, length, length-append, none, refl, some, sym, true, ℕ, ◌++◌, ◌+◌, ◌==◌,
  ◌∙◌, ◌∷◌, ◌≡◌,
}
use coretrace_runtime_analyz.Text.{find, starts_with}
use coretrace_runtime_analyz.Findings.Site.{field, up_to_space}
use coretrace_runtime_analyz.Findings.Site.Scan.{field-scan, scan, scan_nil, scan_round}
use mathlib.Core.Option

-- The words of a line, cut at each space.
abbrev pub onto_word : ℕ → List Bytes → List Bytes
onto_word x [] = (x ∷ []) ∷ []
onto_word x (w ∷ ws) = (x ∷ w) ∷ ws

abbrev pub words : Bytes → List Bytes
words [] = [] ∷ []
words (x ∷ xs) = let rest = words xs in if x == b' ' then [] ∷ rest else onto_word x rest

-- The value of the first word "key=value".
abbrev pub value_in : Bytes → List Bytes → Option Bytes
value_in key [] = none
value_in key (w ∷ ws) =
    let rest = value_in key ws in
    if starts_with w (key ++ codes "=") then some (drop (length key + 1) w) else rest

-- What the pass finds, in the words of the text: all of them at the start of a word, and all but
-- the first within one.
abbrev value_from : Bool → Bytes → List Bytes → Option Bytes
value_from true key ws = value_in key ws
value_from false key [] = none
value_from false key (w ∷ ws) = value_in key ws

abbrev NoSpace : Bytes → Type 0
NoSpace = All (λ c. (c == b' ') ≡ false)

abbrev first_word : Bytes → Bytes
first_word [] = []
first_word (x ∷ xs) = let rest = first_word xs in if x == b' ' then [] else x ∷ rest

abbrev other_words : Bytes → List Bytes
other_words [] = []
other_words (x ∷ xs) = let rest = other_words xs in if x == b' ' then words xs else rest

words_first : (xs : Bytes) → words xs ≡ first_word xs ∷ other_words xs
words_first [] = refl
words_first (x ∷ xs) = elim (Bool-cases (x == b' ')) [
  | inl e ↦ rw e refl
  | inr e ↦ rw (e, words_first xs) refl
]

up_to_space-first_word : (xs : Bytes) → up_to_space xs ≡ first_word xs
unfolding up_to_space find starts_with Option.map
up_to_space-first_word [] = refl
up_to_space-first_word (x ∷ xs) = ground (arith, up_to_space-first_word xs)

starts_with-first_word :
    (xs p : Bytes) → NoSpace p → starts_with xs p ≡ starts_with (first_word xs) p
unfolding starts_with
starts_with-first_word xs [] h = refl
starts_with-first_word [] (y ∷ p) h = refl
starts_with-first_word (x ∷ xs) (y ∷ p) h = ground (arith, starts_with-first_word xs p)

drop-first_word :
    (xs p : Bytes)
    → NoSpace p
    → starts_with xs p ≡ true
    → first_word (drop (length p) xs) ≡ drop (length p) (first_word xs)
unfolding starts_with
drop-first_word xs [] h s = refl
drop-first_word [] (y ∷ p) h s = cc
drop-first_word (x ∷ xs) (y ∷ p) h s = ground (arith, drop-first_word xs p)

equals-NoSpace : (key : Bytes) → NoSpace key → NoSpace (key ++ codes "=")
equals-NoSpace key h = All-append (λ c. (c == b' ') ≡ false) key (codes "=") h (refl, tt)

-- A key with an equals sign starts no empty word, and no text that starts with a space.
starts_with-equals-nil : (key : Bytes) → starts_with [] (key ++ codes "=") ≡ false
unfolding starts_with
starts_with-equals-nil [] = refl
starts_with-equals-nil (k ∷ key) = refl

starts_with-equals-space :
    (x : ℕ) (xs key : Bytes)
    → NoSpace key
    → (x == b' ') ≡ true
    → starts_with (x ∷ xs) (key ++ codes "=") ≡ false
unfolding starts_with
starts_with-equals-space x xs [] h e = ground arith
starts_with-equals-space x xs (k ∷ key) h e = ground arith

first_word-cons :
    (x : ℕ) (xs : Bytes) → (x == b' ') ≡ false → first_word (x ∷ xs) ≡ x ∷ first_word xs
first_word-cons x xs e = rw e refl

word_test :
    (x : ℕ) (xs key : Bytes)
    → NoSpace key
    → (x == b' ') ≡ false
    → starts_with (x ∷ xs) (key ++ codes "=") ≡ starts_with (x ∷ first_word xs) (key ++ codes "=")
word_test x xs key h e =
    starts_with-first_word (x ∷ xs) (key ++ codes "=") (equals-NoSpace key h)
    ∙ ap (λ w. starts_with w (key ++ codes "=")) (first_word-cons x xs e)

word_value :
    (x : ℕ) (xs key : Bytes)
    → NoSpace key
    → (x == b' ') ≡ false
    → starts_with (x ∷ xs) (key ++ codes "=") ≡ true
    → up_to_space (drop (length key + 1) (x ∷ xs)) ≡ drop (length key + 1) (x ∷ first_word xs)
word_value x xs key h e s =
    up_to_space-first_word (drop (length key + 1) (x ∷ xs))
    ∙ ap (λ n. first_word (drop n (x ∷ xs))) (sym (length-append key (codes "=")))
    ∙ drop-first_word (x ∷ xs) (key ++ codes "=") (equals-NoSpace key h) s
    ∙ ap (drop (length (key ++ codes "="))) (first_word-cons x xs e)
    ∙ ap (λ n. drop n (x ∷ first_word xs)) (length-append key (codes "="))

scan-words :
    (b : Bool) (xs key : Bytes)
    → All (λ c. (c == b' ') ≡ false) key
    → scan b xs key ≡ value_from b key (words xs)
scan-words b [] key h = scan_nil b key ∙ ground (arith, starts_with-equals-nil key)
scan-words b (x ∷ xs) key h = elim (Bool-cases (x == b' ')) [
  | inl e ↦
      scan_round b x xs key
      ∙ rw (starts_with-equals-space x xs key h e, e, scan-words true xs key h)
          (ground (arith, starts_with-equals-nil key))
  | inr e ↦
      scan_round b x xs key
      ∙ rw (e, scan-words false xs key h, words_first xs)
          (ground (arith, word_test x xs key h e, word_value x xs key h e))
]

-- For a key with no space in it, `Field` gives the value of the first of the line's words that is
-- "key=value", and nothing if there is none.
pub field-words :
    (line : Bytes) (k : ℕ) (key : Bytes)
    → All (λ c. (c == b' ') ≡ false) (k ∷ key)
    → field line (k ∷ key) ≡ value_in (k ∷ key) (words line)
field-words line k key h = field-scan line k key ∙ scan-words true line (k ∷ key) h
