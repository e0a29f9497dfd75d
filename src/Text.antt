-- ===== src/Text.antt =====
-- The operations of `std::string_view` that the program uses; a position of `npos` is `none`.
pub mod Search
pub mod Lines
use coretrace_runtime_analyz.Base.{
  Bool, Bytes, Option, [], drop, false, if◌then◌else◌, is_some, length, ltb, map, none, some, suc,
  take, true, ℕ, ◌&&◌, ◌*◌, ◌+◌, ◌==◌, ◌∷◌,
}
use mathlib.Core.Option
use mathlib.Core.List.{reverse}

-- `a == b`
unfoldable pub bytes_eq : Bytes → Bytes → Bool
bytes_eq [] [] = true
bytes_eq (x ∷ xs) (y ∷ ys) = x == y && bytes_eq xs ys
bytes_eq _ _ = false

-- `text.starts_with(prefix)`, also `text.rfind(prefix, 0) == 0`
unfoldable pub starts_with : Bytes → Bytes → Bool
starts_with xs [] = true
starts_with [] (y ∷ ys) = false
starts_with (x ∷ xs) (y ∷ ys) = x == y && starts_with xs ys

-- `text.ends_with(suffix)`
unfoldable pub ends_with : Bytes → Bytes → Bool
ends_with xs ys = starts_with (reverse xs) (reverse ys)

-- `text.find(needle)`: the position of the first occurrence.
unfoldable pub find : Bytes → Bytes → Option ℕ
find [] needle = if starts_with [] needle then some 0 else none
find (x ∷ xs) needle =
    let rest = Option.map suc (find xs needle) in
    if starts_with (x ∷ xs) needle then some 0 else rest

-- `text.find(needle, start)`
unfoldable pub find_from : Bytes → Bytes → ℕ → Option ℕ
find_from xs needle start =
    if ltb (length xs) start
    then none
    else Option.map (λ i. start + i) (find (drop start xs) needle)

-- `text.rfind(needle)`: the position of the last occurrence.
unfoldable pub rfind : Bytes → Bytes → Option ℕ
rfind [] needle = if starts_with [] needle then some 0 else none
rfind (x ∷ xs) needle = elim (rfind xs needle) [
  | some i ↦ some (suc i)
  | none ↦ if starts_with (x ∷ xs) needle then some 0 else none
]

-- `text.substr(position, count)`, for a position within the text
abbrev pub substr : Bytes → ℕ → ℕ → Bytes
substr xs position n = take n (drop position xs)

-- `text.find(needle) != npos`
unfoldable pub contains : Bytes → Bytes → Bool
contains haystack needle = is_some (find haystack needle)
