-- ===== src/Sources.antt =====
-- src/runtime_analyzer.cpp: `IsSourceFile` and `DiscoverSourceFiles`.
pub mod Order
pub mod Same
pub mod Found
use coretrace_runtime_analyz.Base.{
  Bool, Bytes, List, [], codes, false, if◌then◌else◌, none, not, some, true, ◌&&◌, ◌*◌, ◌++◌, ◌||◌,
  ◌∷◌,
}
use coretrace_runtime_analyz.Text.{bytes_eq}
use coretrace_runtime_analyz.World.{DirectoryEntry, PathOrder, World}
use coretrace_runtime_analyz.Args.Compiler.{extension}
use mathlib.Core.Option

-- `IsSourceFile`
unfoldable pub is_source_file : Bytes → Bool
is_source_file path =
    let ext = extension path in
    bytes_eq ext (codes ".c")
    || bytes_eq ext (codes ".cc")
    || bytes_eq ext (codes ".cpp")
    || bytes_eq ext (codes ".cxx")

-- What the loop over the entries adds to `sources`.
unfoldable pub source_files : List DirectoryEntry → List Bytes
source_files [] = []
source_files (entry ∷ entries) =
    let rest = source_files entries in
    if entry.is_regular && is_source_file entry.path then entry.path ∷ rest else rest

module _ (o : PathOrder) where
  -- `==` on paths: neither is before the other.
  abbrev pub path_eq : Bytes → Bytes → Bool
  path_eq a b = o.le a b && o.le b a

  unfoldable pub insert_path : Bytes → List Bytes → List Bytes
  insert_path x [] = x ∷ []
  insert_path x (y ∷ ys) = let rest = insert_path x ys in if o.le x y then x ∷ y ∷ ys else y ∷ rest

  -- `std::ranges::sort`. Where it leaves the order of equal paths open, this keeps them in order.
  unfoldable pub sort_paths : List Bytes → List Bytes
  sort_paths [] = []
  sort_paths (x ∷ xs) = insert_path x (sort_paths xs)

  -- `std::ranges::unique` and `erase`, behind an element that is kept.
  unfoldable pub unique_behind : Bytes → List Bytes → List Bytes
  unique_behind x [] = x ∷ []
  unique_behind x (y ∷ ys) = elim (path_eq x y) [
    | true ↦ unique_behind x ys
    | false ↦ x ∷ unique_behind y ys
  ]

  unfoldable pub unique_paths : List Bytes → List Bytes
  unique_paths [] = []
  unique_paths (x ∷ xs) = unique_behind x xs

module _ (w : World) (s : w.State) where
  -- One round of the loop over the directories: what it adds to `sources` and to `diagnostics`.
  unfoldable pub scan_directory : Bytes → List Bytes × Bytes
  scan_directory directory =
      if not (w.exists directory s)
      then ([], codes "test directory does not exist: " ++ directory ++ codes "\n")
      else if not (w.is_directory directory s)
      then ([], codes "test path is not a directory: " ++ directory ++ codes "\n")
      else (let found = w.scan directory s in
          (
            source_files found.entries,
            elim found.failure [
              | none ↦ []
              | some message ↦
                  codes "failed while scanning test directory "
                  ++ directory
                  ++ codes ": "
                  ++ message
                  ++ codes "\n"
            ],
          ))

  -- The loop, from what is in `sources` and `diagnostics`.
  unfoldable pub scan_directories : List Bytes → List Bytes × Bytes → List Bytes × Bytes
  scan_directories [] (sources, diagnostics) = (sources, diagnostics)
  scan_directories (directory ∷ directories) (sources, diagnostics) =
      let (files, messages) = scan_directory directory in
      scan_directories directories (sources ++ files, diagnostics ++ messages)

  -- `DiscoverSourceFiles`: the sources and the messages.
  unfoldable pub discover_source_files : List Bytes → List Bytes × Bytes
  discover_source_files directories =
      let (sources, diagnostics) = scan_directories directories ([], []) in
      (unique_paths w.paths (sort_paths w.paths sources), diagnostics)
