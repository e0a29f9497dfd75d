-- ===== src/Sources/Same.antt =====
-- Lists in strict order are told apart by their paths alone.

use coretrace_runtime_analyz.Base.{
  All, Bool-cases, Bytes, List, [], arith, false, inl, inr, refl, sym, true, ◌∙◌, ◌∷◌, ◌≡◌,
}
use coretrace_runtime_analyz.World.{PathOrder}
use coretrace_runtime_analyz.Sources.{path_eq}
use coretrace_runtime_analyz.Sources.Order.{
  Before, IsStrict, has, has-path_eq, le-path_eq, path_eq-le,
}

module _ (o : PathOrder) where
  -- The same paths one by one, up to their spelling.
  abbrev pub SamePaths : List Bytes → List Bytes → Type 0
  SamePaths [] [] = Unit
  SamePaths (x ∷ xs) (y ∷ ys) = (path_eq o x y ≡ true) × SamePaths xs ys
  SamePaths _ _ = ⊥

  le_refl : (x : Bytes) → o.le x x ≡ true
  le_refl x = ground (arith, o.le_total x x)

  has_head : (x : Bytes) (xs : List Bytes) → has o (x ∷ xs) x ≡ true
  has_head x xs = ground (arith, le_refl x)

  -- A path before all of a list is not in it.
  has-Before : (x : Bytes) (ys : List Bytes) → All (Before o x) ys → has o ys x ≡ false
  has-Before x [] h = refl
  has-Before x (y ∷ ys) h = ground (arith, h.0, has-Before x ys h.1)

  -- What is in a list that is all behind a path is behind it too.
  Before-has :
      (y x : Bytes) (ys : List Bytes) → All (Before o y) ys → has o ys x ≡ true → Before o y x
  Before-has y x [] b h = absurd (cc)
  Before-has y x (z ∷ ys) b h = elim (Bool-cases (path_eq o x z)) [
    | inl e ↦ (sym (le-path_eq o x z y e) ∙ b.0.0, sym (path_eq-le o x z y e) ∙ b.0.1)
    | inr e ↦ Before-has y x ys b.1 (ground (arith, h, e))
  ]

  has_after :
      (x z : Bytes) (xs : List Bytes)
      → path_eq o z x ≡ true
      → All (Before o x) xs
      → has o xs z ≡ false
  has_after x z xs e b = elim (Bool-cases (has o xs z)) [
    | inr n ↦ n
    | inl y ↦ absurd (ground (arith, e, Before-has x z xs b y))
  ]

  -- The heads of two lists in strict order that have the same paths.
  same_heads :
      (x y : Bytes) (xs ys : List Bytes)
      → All (Before o x) xs
      → All (Before o y) ys
      → has o (x ∷ xs) y ≡ true
      → has o (y ∷ ys) x ≡ true
      → path_eq o x y ≡ true
  same_heads x y xs ys b c h k = elim (Bool-cases (path_eq o x y)) [
    | inl e ↦ e
    | inr e ↦
        let p = Before-has x y xs b (ground (arith, h, e)) in
        let q = Before-has y x ys c (ground (arith, k, e)) in absurd (ground (arith, p, q))
  ]

  -- Two lists in strict order that have the same paths agree.
  pub same_paths :
      (xs ys : List Bytes)
      → IsStrict o xs
      → IsStrict o ys
      → ((z : Bytes) → has o xs z ≡ has o ys z)
      → SamePaths xs ys
  same_paths [] [] s t h = tt
  same_paths [] (y ∷ ys) s t h = absurd (ground (arith, h y, has_head y ys))
  same_paths (x ∷ xs) [] s t h = absurd (ground (arith, h x, has_head x xs))
  same_paths (x ∷ xs) (y ∷ ys) s t h =
      let e = same_heads x y xs ys s.0 t.0 (h y ∙ has_head y ys) (sym (h x) ∙ has_head x xs) in
      (
        e,
        same_paths xs ys s.1 t.1 (λ z. elim (Bool-cases (path_eq o z x)) [
          | inl k ↦ has_after x z xs k s.0 ∙ sym (has_after y z ys (has-path_eq o x y z e ∙ k) t.0)
          | inr k ↦ ground (arith, h z, k, has-path_eq o x y z e)
        ]),
      )
