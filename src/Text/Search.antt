-- ===== src/Text/Search.antt =====
-- What the searches find: the first and the last occurrence.
use coretrace_runtime_analyz.Base.{
  Bytes, Option-cases, [], arith, drop, inl, inr, length, refl, some, true, ℕ, ◌++◌, ◌+◌, ◌↔◌, ◌∷◌,
  ◌≡◌, ◌≤◌,
}
use coretrace_runtime_analyz.Text.{bytes_eq, find, starts_with}

pub bytes_eq_iff : (a b : Bytes) → (bytes_eq a b ≡ true) ↔ (a ≡ b)
unfolding bytes_eq
bytes_eq_iff (x ∷ a) (y ∷ b) = ground (arith, bytes_eq_iff a b)
bytes_eq_iff _ _ = ground arith

pub starts_with-append : (p rest : Bytes) → starts_with (p ++ rest) p ≡ true
unfolding starts_with
starts_with-append [] rest = refl
starts_with-append (x ∷ p) rest = ground (arith, starts_with-append p rest)

pub starts_with_split : (xs p : Bytes) → starts_with xs p ≡ true → xs ≡ p ++ drop (length p) xs
unfolding starts_with
starts_with_split xs [] h = refl
starts_with_split [] (y ∷ ys) h = cc
starts_with_split (x ∷ xs) (y ∷ ys) h = ground (arith, starts_with_split xs ys)

starts_with_fits : (xs p : Bytes) → starts_with xs p ≡ true → length p ≤ length xs
unfolding starts_with
starts_with_fits xs [] h = omega arith
starts_with_fits [] (y ∷ ys) h = cc
starts_with_fits (x ∷ xs) (y ∷ ys) h = ground (arith, starts_with_fits xs ys)

-- What is found lies within the text.
pub find_fits : (xs p : Bytes) (i : ℕ) → find xs p ≡ some i → i + length p ≤ length xs
unfolding find
find_fits [] p i h = ground (arith, starts_with_fits [] p)
find_fits (x ∷ xs) p i h = elim (Option-cases (find xs p)) [
  | inl e ↦ ground (arith, starts_with_fits (x ∷ xs) p)
  | inr (j, e) ↦ ground (arith, starts_with_fits (x ∷ xs) p, find_fits xs p j e)
]
