-- ===== src/Text/Lines.antt =====
-- The lines of a text, as `std::getline` reads them and `ParseFindings` walks over them: each
-- ends at a newline or at the end of the text, and a text that ends in a newline has no line
-- behind it.

use mathlib.Core.List.{cons-ne-nil}
use native.Mathlib.Nat.{suc-add}
use coretrace_runtime_analyz.Base.{
  Bool-cases, Bytes, List, [], ap, arith, codes, drop, if◌then◌else◌, inl, inr, length, none, refl,
  some, suc, sym, take, ℕ, ◌++◌, ◌+◌, ◌==◌, ◌∙◌, ◌∷◌, ◌≡◌, ◌≢◌,
}
use coretrace_runtime_analyz.Text.{find, starts_with}

-- A byte in front of the first line.
abbrev pub onto_first : ℕ → List Bytes → List Bytes
onto_first x [] = (x ∷ []) ∷ []
onto_first x (l ∷ ls) = (x ∷ l) ∷ ls

unfoldable pub lines : Bytes → List Bytes
lines [] = []
lines (x ∷ xs) = let rest = lines xs in if x == b'\n' then [] ∷ rest else onto_first x rest

-- Where the first line ends.
unfoldable pub first_end : Bytes → ℕ
first_end xs = elim (find xs (codes "\n")) [ none ↦ length xs | some end ↦ end ]

first_end-cons :
    (x : ℕ) (xs : Bytes) → first_end (x ∷ xs) ≡ (if x == b'\n' then 0 else suc (first_end xs))
unfolding first_end find starts_with
first_end-cons x xs = ground arith

-- The first line is what stands before its end, and the others start behind its newline.
pub lines_first :
    (x : ℕ) (xs : Bytes)
    → lines (x ∷ xs)
      ≡ take (first_end (x ∷ xs)) (x ∷ xs) ∷ lines (drop (first_end (x ∷ xs) + 1) (x ∷ xs))
unfolding lines
lines_first x [] = rw first_end-cons (elim (Bool-cases (x == b'\n')) [
  | inl e ↦ rw e refl
  | inr e ↦ rw (e, suc-add) (unfold first_end find starts_with in refl)
])
lines_first x (y ∷ ys) = rw first_end-cons (elim (Bool-cases (x == b'\n')) [
  | inl e ↦ rw e refl
  | inr e ↦ rw (e, suc-add) (ap (onto_first x) (lines_first y ys))
])

onto_first-append :
    (x : ℕ) (ls ms : List Bytes) → ls ≢ [] → onto_first x (ls ++ ms) ≡ onto_first x ls ++ ms
onto_first-append x [] ms h = absurd (h refl)
onto_first-append x (l ∷ ls) ms h = refl

lines-ne-nil : (x : ℕ) (xs : Bytes) → lines (x ∷ xs) ≢ []
lines-ne-nil x xs h = cons-ne-nil _ _ (sym (lines_first x xs) ∙ h)

lines-append-ne-nil : (a : Bytes) → lines (a ++ codes "\n") ≢ []
lines-append-ne-nil [] = lines-ne-nil _ _
lines-append-ne-nil (x ∷ a) = lines-ne-nil x _

-- A text behind a newline has its lines behind the others.
pub lines-append : (a b : Bytes) → lines (a ++ codes "\n" ++ b) ≡ lines (a ++ codes "\n") ++ lines b
unfolding lines
lines-append [] b = refl
lines-append (x ∷ a) b = elim (Bool-cases (x == b'\n')) [
  | inl e ↦ rw (lines, e) (ap (◌∷◌ []) (lines-append a b))
  | inr e ↦
      rw (lines, e)
        (ap (onto_first x) (lines-append a b)
          ∙ onto_first-append x (lines (a ++ codes "\n")) (lines b) (lines-append-ne-nil a))
]
