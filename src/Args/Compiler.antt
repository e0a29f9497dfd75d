-- ===== src/Args/Compiler.antt =====
-- src/cli_args.cpp: the compiler's arguments. A path is its text, as POSIX has it, and the text
-- of a source file is a parameter.
pub mod Output
use coretrace_runtime_analyz.Base.{
  Bool, Bytes, List, [], any, codes, drop, false, if◌then◌else◌, is_empty, keep, none, not, some,
  true, ◌&&◌, ◌*◌, ◌++◌, ◌+◌, ◌==◌, ◌||◌, ◌∷◌,
}
use coretrace_runtime_analyz.Text.{bytes_eq, contains, rfind, starts_with}
use coretrace_runtime_analyz.Types.{AnalyzerOptions}

-- `IsCompileOnlyFlag`
unfoldable pub is_compile_only_flag : Bytes → Bool
is_compile_only_flag arg =
    bytes_eq arg (codes "-c")
    || bytes_eq arg (codes "-S")
    || bytes_eq arg (codes "-E")
    || bytes_eq arg (codes "-emit-llvm")
    || bytes_eq arg (codes "--precompile")
    || bytes_eq arg (codes "-fsyntax-only")

-- `HasCompileOnlyAction`
unfoldable pub has_compile_only_action : List Bytes → Bool
has_compile_only_action = any is_compile_only_flag

-- `HasLanguageOverride`
unfoldable pub has_language_override : List Bytes → Bool
has_language_override [] = false
has_language_override (arg ∷ rest) =
    (bytes_eq arg (codes "-x") && not (is_empty rest))
    || (starts_with arg (codes "-x=") || starts_with arg (codes "-x"))
    || has_language_override rest

pub record OutputArgument : Type 0 where
  pub present : Bool
  pub path : Bytes

-- `FindOutputArgument`
unfoldable pub find_output_argument : List Bytes → OutputArgument
find_output_argument [] = record { present = false; path = [] }
find_output_argument (arg ∷ rest) =
    let later = find_output_argument rest in
    if bytes_eq arg (codes "-o") || bytes_eq arg (codes "--output")
    then record { present = true; path = elim rest [ [] ↦ [] | next ∷ _ ↦ next ] }
    else if starts_with arg (codes "-o=")
    then record { present = true; path = drop 3 arg }
    else if starts_with arg (codes "--output=")
    then record { present = true; path = drop 9 arg }
    else later

abbrev pub is_instrument : Bytes → Bool
is_instrument arg = bytes_eq arg (codes "--instrument")

-- The loop of `BuildCompilerArguments`.
unfoldable pub without_instrument : List Bytes → List Bytes
without_instrument = keep (λ arg. not (is_instrument arg))

-- `BuildCompilerArguments`: the arguments, and what `output_path` receives.
unfoldable pub build_compiler_arguments : AnalyzerOptions → List Bytes × Bytes
build_compiler_arguments options =
    let args = without_instrument options.compiler_args in
    let output = find_output_argument args in
    let path =
      if is_empty options.output_path then codes "runtime-analyzer.out" else options.output_path in
    if output.present then (args, output.path) else (args ++ codes "-o" ∷ path ∷ [], path)

-- `path.filename()`
unfoldable pub filename : Bytes → Bytes
filename path = elim (rfind path (codes "/")) [ none ↦ path | some i ↦ drop (i + 1) path ]

-- `path.extension()`
unfoldable pub extension : Bytes → Bytes
extension path =
    let name = filename path in
    if bytes_eq name (codes ".") || bytes_eq name (codes "..")
    then []
    else (elim (rfind name (codes ".")) [ none ↦ [] | some i ↦ if i == 0 then [] else drop i name ])

-- `CSourceLooksLikeCxx`
unfoldable pub c_source_looks_like_cxx : Bytes → Bytes → Bool
c_source_looks_like_cxx source text =
    if not (bytes_eq (extension source) (codes ".c"))
    then false
    else contains text (codes "#include <string>")
      || contains text (codes "#include <iostream>")
      || contains text (codes "std::")
      || contains text (codes "static_cast<")
      || contains text (codes "reinterpret_cast<")
      || contains text (codes "class ")
      || contains text (codes "namespace ")
      || contains text (codes "template <")
      || contains text (codes "virtual ")

-- `SourceRequiresDebugDefine`
unfoldable pub source_requires_debug_define : Bytes → Bool
source_requires_debug_define text =
    contains text (codes "#ifndef DEBUG") || contains text (codes "#if !defined(DEBUG)")

abbrev pub is_debug_define : Bytes → Bool
is_debug_define arg = bytes_eq arg (codes "-DDEBUG") || bytes_eq arg (codes "-DDEBUG=1")

-- `AddPerSourceCompatibilityArgs`; `read_file` is `ReadSmallTextFile`, empty where it fails.
unfoldable pub add_compatibility_args : (Bytes → Bytes) → Bytes → List Bytes → List Bytes
add_compatibility_args read_file source args =
    let text = read_file source in
    let typed =
      if not (has_language_override args) && c_source_looks_like_cxx source text
      then args ++ codes "-x" ∷ codes "c++" ∷ []
      else args in
    if source_requires_debug_define text && not (any is_debug_define typed)
    then typed ++ codes "-DDEBUG" ∷ []
    else typed
