-- ===== src/Sources/Order.antt =====
-- Sorting the paths and dropping the equal ones.

use coretrace_runtime_analyz.Base.{
  All, Bool, Bool-cases, Bytes, List, [], any, ap, arith, false, inl, inr, refl, true, ◌||◌, ◌∙◌,
  ◌∷◌, ◌≡◌,
}
use coretrace_runtime_analyz.World.{PathOrder}
use coretrace_runtime_analyz.Sources.{insert_path, path_eq, sort_paths, unique_behind, unique_paths}

module _ (o : PathOrder) where
  -- Before and not equal.
  abbrev pub Before : Bytes → Bytes → Type 0
  Before a b = (o.le a b ≡ true) × (o.le b a ≡ false)

  abbrev IsSorted : List Bytes → Type 0
  IsSorted [] = Unit
  IsSorted (x ∷ xs) = All (λ y. o.le x y ≡ true) xs × IsSorted xs

  -- Each path is before all that follow it.
  abbrev pub IsStrict : List Bytes → Type 0
  IsStrict [] = Unit
  IsStrict (x ∷ xs) = All (Before x) xs × IsStrict xs

  -- A path is in the list, in some spelling.
  abbrev pub has : List Bytes → Bytes → Bool
  has xs x = any (λ y. path_eq o x y) xs

  All-imp :
      (P Q : Bytes → Type 0) → ((x : Bytes) → P x → Q x) → (xs : List Bytes) → All P xs → All Q xs
  All-imp P Q f [] h = tt
  All-imp P Q f (x ∷ xs) h = (f x h.0, All-imp P Q f xs h.1)

  le-All :
      (x y : Bytes) (ys : List Bytes)
      → o.le x y ≡ true
      → All (λ z. o.le y z ≡ true) ys
      → All (λ z. o.le x z ≡ true) ys
  le-All x y ys h = All-imp _ _ (λ z k. o.le_trans x y z h k) ys

  insert_path-All :
      (P : Bytes → Type 0) (x : Bytes) (ys : List Bytes)
      → P x
      → All P ys
      → All P (insert_path o x ys)
  unfolding insert_path
  insert_path-All P x [] h k = (h, tt)
  insert_path-All P x (y ∷ ys) h k = elim (Bool-cases (o.le x y)) [
    | inl e ↦ rw e (h, k)
    | inr e ↦ rw e (k.0, insert_path-All P x ys h k.1)
  ]

  insert_path-IsSorted : (x : Bytes) (ys : List Bytes) → IsSorted ys → IsSorted (insert_path o x ys)
  unfolding insert_path
  insert_path-IsSorted x [] s = (tt, tt)
  insert_path-IsSorted x (y ∷ ys) s = elim (Bool-cases (o.le x y)) [
    | inl e ↦ rw e ((e, le-All x y ys e s.0), s)
    | inr e ↦
        rw e (
          insert_path-All _ x ys (ground (arith, o.le_total x y)) s.0,
          insert_path-IsSorted x ys s.1,
        )
  ]

  sort_paths-IsSorted : (xs : List Bytes) → IsSorted (sort_paths o xs)
  unfolding sort_paths
  sort_paths-IsSorted [] = tt
  sort_paths-IsSorted (x ∷ xs) = insert_path-IsSorted x (sort_paths o xs) (sort_paths-IsSorted xs)

  -- Equal paths compare alike.
  pub path_eq-le : (x y z : Bytes) → path_eq o x y ≡ true → o.le y z ≡ o.le x z
  path_eq-le x y z e = ground (arith, o.le_trans x y z, o.le_trans y x z)

  pub le-path_eq : (x y z : Bytes) → path_eq o x y ≡ true → o.le z y ≡ o.le z x
  le-path_eq x y z e = ground (arith, o.le_trans z x y, o.le_trans z y x)

  has-insert_path :
      (x y : Bytes) (ys : List Bytes) → has (insert_path o y ys) x ≡ (path_eq o x y || has ys x)
  unfolding insert_path
  has-insert_path x y [] = refl
  has-insert_path x y (z ∷ ys) = elim (Bool-cases (o.le y z)) [
    | inl e ↦ rw e refl
    | inr e ↦ rw e (ground (arith, has-insert_path x y ys))
  ]

  pub has-sort_paths : (x : Bytes) (ys : List Bytes) → has (sort_paths o ys) x ≡ has ys x
  unfolding sort_paths
  has-sort_paths x [] = refl
  has-sort_paths x (y ∷ ys) =
      has-insert_path x y (sort_paths o ys) ∙ ap (λ b. path_eq o x y || b) (has-sort_paths x ys)

  pub has-path_eq : (x y z : Bytes) → path_eq o x y ≡ true → path_eq o z y ≡ path_eq o z x
  has-path_eq x y z e = ground (arith, le-path_eq x y z e, path_eq-le x y z e)

  has-unique_behind :
      (z x : Bytes) (ys : List Bytes) → has (unique_behind o x ys) z ≡ has (x ∷ ys) z
  unfolding unique_behind
  has-unique_behind z x [] = refl
  has-unique_behind z x (y ∷ ys) = elim (Bool-cases (path_eq o x y)) [
    | inl e ↦ rw (unique_behind, e) (ground (arith, has-unique_behind z x ys, has-path_eq x y z e))
    | inr e ↦ rw (unique_behind, e) (ap (λ b. path_eq o z x || b) (has-unique_behind z y ys))
  ]

  unique_behind-All :
      (P : Bytes → Type 0) (x : Bytes) (ys : List Bytes)
      → P x
      → All P ys
      → All P (unique_behind o x ys)
  unfolding unique_behind
  unique_behind-All P x [] h k = (h, tt)
  unique_behind-All P x (y ∷ ys) h k = elim (Bool-cases (path_eq o x y)) [
    | inl e ↦ rw (unique_behind, e) (unique_behind-All P x ys h k.1)
    | inr e ↦ rw (unique_behind, e) (h, unique_behind-All P y ys k.0 k.1)
  ]

  Before-All :
      (x y : Bytes) (ys : List Bytes)
      → Before x y
      → All (λ z. o.le y z ≡ true) ys
      → All (Before x) ys
  Before-All x y ys b h =
      All-imp _ _ (λ z k. (o.le_trans x y z b.0 k, ground (arith, b.1, o.le_trans y z x k))) ys h

  unique_behind-IsStrict :
      (x : Bytes) (ys : List Bytes) → IsSorted (x ∷ ys) → IsStrict (unique_behind o x ys)
  unfolding unique_behind
  unique_behind-IsStrict x [] s = (tt, tt)
  unique_behind-IsStrict x (y ∷ ys) s = elim (Bool-cases (path_eq o x y)) [
    | inl e ↦ rw (unique_behind, e) (unique_behind-IsStrict x ys (s.0.1, s.1.1))
    | inr e ↦
        let b : Before x y = (s.0.0, ground (arith, s.0.0, e)) in
        rw (unique_behind, e)
          (
            unique_behind-All (Before x) y ys b (Before-All x y ys b s.1.0),
            unique_behind-IsStrict y ys s.1,
          )
  ]

  -- What sorting and dropping equal paths leaves.
  abbrev pub tidy : List Bytes → List Bytes
  tidy xs = unique_paths o (sort_paths o xs)

  pub unique_paths-IsStrict : (xs : List Bytes) → IsStrict (tidy xs)
  unfolding unique_paths
  unique_paths-IsStrict xs = strict_of (sort_paths o xs) (sort_paths-IsSorted xs)
    where
      strict_of : (ys : List Bytes) → IsSorted ys → IsStrict (unique_paths o ys)
      strict_of [] s = tt
      strict_of (y ∷ ys) s = unique_behind-IsStrict y ys s

  pub has-unique_paths : (z : Bytes) (xs : List Bytes) → has (tidy xs) z ≡ has xs z
  unfolding unique_paths
  has-unique_paths z xs = has_of (sort_paths o xs) ∙ has-sort_paths z xs
    where
      has_of : (ys : List Bytes) → has (unique_paths o ys) z ≡ has ys z
      has_of [] = refl
      has_of (y ∷ ys) = has-unique_behind z y ys

  sort_paths-All : (P : Bytes → Type 0) (xs : List Bytes) → All P xs → All P (sort_paths o xs)
  unfolding sort_paths
  sort_paths-All P [] h = tt
  sort_paths-All P (x ∷ xs) h = insert_path-All P x (sort_paths o xs) h.0 (sort_paths-All P xs h.1)

  pub unique_paths-All : (P : Bytes → Type 0) (xs : List Bytes) → All P xs → All P (tidy xs)
  unfolding unique_paths
  unique_paths-All P xs h = all_of (sort_paths o xs) (sort_paths-All P xs h)
    where
      all_of : (ys : List Bytes) → All P ys → All P (unique_paths o ys)
      all_of [] h = tt
      all_of (y ∷ ys) h = unique_behind-All P y ys h.0 h.1
