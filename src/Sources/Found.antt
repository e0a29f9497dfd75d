-- ===== src/Sources/Found.antt =====
-- What `DiscoverSourceFiles` gives, against what the directories hold.

use coretrace_runtime_analyz.Args.Compiler.{extension}
use coretrace_runtime_analyz.Sources.Same.{SamePaths, same_paths}
use coretrace_runtime_analyz.Base.{
  All, Bool, Bool-cases, Bytes, List, [], any, ap, arith, codes, inl, inr, refl, sym, true, ◌&&◌,
  ◌++◌, ◌||◌, ◌∙◌, ◌∷◌, ◌≡◌,
}
use coretrace_runtime_analyz.Text.{bytes_eq}
use coretrace_runtime_analyz.Text.Search.{bytes_eq_iff}
use coretrace_runtime_analyz.World.{DirectoryEntry, World}
use coretrace_runtime_analyz.Sources.{
  discover_source_files, is_source_file, path_eq, scan_directories, scan_directory, source_files,
}
use coretrace_runtime_analyz.Sources.Order.{
  IsStrict, has, has-unique_paths, unique_paths-All, unique_paths-IsStrict,
}

-- Each of `ds` is one of `es`.
abbrev pub AmongOf : List Bytes → List Bytes → Type 0
AmongOf ds es = All (λ d. any (bytes_eq d) es ≡ true) ds

abbrev source_extensions : List Bytes
source_extensions = codes ".c" ∷ codes ".cc" ∷ codes ".cpp" ∷ codes ".cxx" ∷ []

-- The path ends in one of the four extensions of C and C++.
abbrev pub has_source_extension : Bytes → Bool
has_source_extension path = any (bytes_eq (extension path)) source_extensions

is_source_file_lem : (path : Bytes) → is_source_file path ≡ has_source_extension path
unfolding is_source_file
is_source_file_lem path = ground arith

-- An entry that is a regular file, is a source by its extension, and passes a test.
abbrev is_source_entry : (Bytes → Bool) → DirectoryEntry → Bool
is_source_entry test entry =
    entry.is_regular && (has_source_extension entry.path && test entry.path)

source_files-any :
    (test : Bytes → Bool) (entries : List DirectoryEntry)
    → any test (source_files entries) ≡ any (is_source_entry test) entries
unfolding source_files
source_files-any test [] = refl
source_files-any test (e ∷ entries) = elim (Bool-cases (e.is_regular && is_source_file e.path)) [
  | inl y ↦ rw y (ground (arith, y, is_source_file_lem e.path, source_files-any test entries))
  | inr n ↦ rw n (ground (arith, n, is_source_file_lem e.path, source_files-any test entries))
]

AmongOf-any :
    (xs ys : List Bytes)
    → ((p : Bytes) → any (bytes_eq p) xs ≡ true → any (bytes_eq p) ys ≡ true)
    → All (λ p. any (bytes_eq p) ys ≡ true) xs
AmongOf-any [] ys f = tt
AmongOf-any (x ∷ xs) ys f = (
  f x (ground (arith, (bytes_eq_iff x x).1 refl)),
  AmongOf-any xs ys (λ p h. f p (ground (arith, h))),
)

any-append : (p : Bytes → Bool) (xs ys : List Bytes) → any p (xs ++ ys) ≡ (any p xs || any p ys)
any-append p [] ys = refl
any-append p (x ∷ xs) ys = ground (arith, any-append p xs ys)

any_of_equal :
    (p : Bytes → Bool) (d : Bytes) (es : List Bytes)
    → any (bytes_eq d) es ≡ true
    → p d ≡ true
    → any p es ≡ true
any_of_equal p d [] h k = absurd (cc)
any_of_equal p d (e ∷ es) h k = elim (Bool-cases (bytes_eq d e)) [
  | inl y ↦ rw (sym (ap p ((bytes_eq_iff d e).0 y)) ∙ k) refl
  | inr n ↦ ground (arith, any_of_equal p d es (ground (arith, h, n)) k)
]

any_among :
    (p : Bytes → Bool) (ds es : List Bytes) → AmongOf ds es → any p ds ≡ true → any p es ≡ true
any_among p [] es a h = absurd (cc)
any_among p (d ∷ ds) es a h = elim (Bool-cases (p d)) [
  | inl y ↦ any_of_equal p d es a.0 y
  | inr n ↦ any_among p ds es a.1 (ground (arith, h, n))
]

any_same :
    (p : Bytes → Bool) (ds es : List Bytes) → AmongOf ds es → AmongOf es ds → any p ds ≡ any p es
any_same p ds es a b = ground (arith, any_among p ds es a, any_among p es ds b)

module _ (w : World) (s : w.State) where
  -- A directory to scan that is one, and holds a regular file that is a source by its extension and
  -- whose path passes a test.
  abbrev pub holds_source : (Bytes → Bool) → Bytes → Bool
  holds_source test directory =
      w.exists directory s
      && (w.is_directory directory s && any (is_source_entry test) (w.scan directory s).entries)

  scan_directory-any :
      (test : Bytes → Bool) (d : Bytes) → any test (scan_directory w s d).0 ≡ holds_source test d
  unfolding scan_directory
  scan_directory-any test d = ground (arith, source_files-any test (w.scan d s).entries)

  -- The loop adds the files of each directory.
  scan_directories-any :
      (test : Bytes → Bool) (ds sources : List Bytes) (messages : Bytes)
      → any test (scan_directories w s ds (sources, messages)).0
        ≡ (any test sources || any (holds_source test) ds)
  unfolding scan_directories
  scan_directories-any test [] sources messages = ground arith
  scan_directories-any test (d ∷ ds) sources messages =
      scan_directories-any test ds (sources ++ (scan_directory w s d).0) _
      ∙ ap (λ b. b || any (holds_source test) ds)
          (any-append test sources (scan_directory w s d).0
            ∙ ap (λ b. any test sources || b) (scan_directory-any test d))
      ∙ ground arith

  -- Each source found is, letter by letter, the path of a source file of the directories.
  scan_directories-All :
      (ds : List Bytes)
      → All (λ p. any (holds_source (bytes_eq p)) ds ≡ true) (scan_directories w s ds ([], [])).0
  scan_directories-All ds =
      let found = (scan_directories w s ds ([], [])).0 in
      held found (AmongOf-any found found (λ p h. h))
    where
      held :
          (xs : List Bytes)
          → All (λ p. any (bytes_eq p) (scan_directories w s ds ([], [])).0 ≡ true) xs
          → All (λ p. any (holds_source (bytes_eq p)) ds ≡ true) xs
      held [] h = tt
      held (x ∷ xs) h = (sym (scan_directories-any (bytes_eq x) ds [] []) ∙ h.0, held xs h.1)

  -- The sources are in strict order, so none is there twice, in whatever spelling. Each is the path
  -- of an entry of one of the directories that are given and exist, of a regular file with the
  -- extension .c, .cc, .cpp or .cxx. And each such entry is among the sources, up to the spelling of
  -- its path.
  pub discover_source_files-IsStrict :
      (directories : List Bytes)
      → let sources = (discover_source_files w s directories).0 in
        IsStrict w.paths sources
        × All (λ p. any (holds_source (bytes_eq p)) directories ≡ true) sources
        × ((z : Bytes) → has w.paths sources z ≡ any (holds_source (path_eq w.paths z)) directories)
  unfolding discover_source_files
  discover_source_files-IsStrict directories =
      let found = (scan_directories w s directories ([], [])).0 in
      (
        unique_paths-IsStrict w.paths found,
        unique_paths-All w.paths _ found (scan_directories-All directories),
        λ z.
            has-unique_paths w.paths z found
            ∙ scan_directories-any (path_eq w.paths z) directories [] [],
      )

  -- The sources do not depend on the order in which the directories are given, nor on whether one is
  -- given twice, up to the spelling of a path.
  pub discover_source_files-SamePaths :
      (ds es : List Bytes)
      → AmongOf ds es
      → AmongOf es ds
      → SamePaths w.paths (discover_source_files w s ds).0 (discover_source_files w s es).0
  discover_source_files-SamePaths ds es a b =
      let (strict, _, of_ds) = discover_source_files-IsStrict ds in
      let (strict', _, of_es) = discover_source_files-IsStrict es in
      same_paths w.paths _ _ strict strict' (λ z. of_ds z ∙ any_same _ ds es a b ∙ sym (of_es z))
