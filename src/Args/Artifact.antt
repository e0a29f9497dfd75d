-- ===== src/Args/Artifact.antt =====
-- src/cli_args.cpp: the path of each binary of batch mode. What `std::filesystem::relative` gives
-- is a parameter, since it depends on the directory that the program runs in.
pub mod Names
use Prim.Native.Nat.{bit_xor}
use coretrace_runtime_analyz.Base.{
  Bool, Bytes, Option, [], codes, if◌then◌else◌, is_empty, leb, length, ltb, map, mul64, none, not,
  replicate, some, suc, take, zero, ℕ, ◌%◌, ◌&&◌, ◌*◌, ◌++◌, ◌+◌, ◌-◌, ◌/◌, ◌==◌, ◌||◌, ◌∷◌,
}
use coretrace_runtime_analyz.Text.{ends_with}
use coretrace_runtime_analyz.Types.{AnalyzerOptions}
use coretrace_runtime_analyz.Args.Compiler.{extension, filename}

abbrev pub is_kept : ℕ → Bool
is_kept ch =
    leb b'a' ch && leb ch b'z'
    || leb b'A' ch && leb ch b'Z'
    || leb b'0' ch && leb ch b'9'
    || ch == b'-'
    || ch == b'_'

unfoldable pub sanitize_byte : ℕ → ℕ
sanitize_byte ch = if not (is_kept ch) then b'_' else ch

-- `SanitizeArtifactName`
unfoldable pub sanitize_artifact_name : Bytes → Bytes
sanitize_artifact_name path =
    let name = map sanitize_byte path in if is_empty name then codes "test" else name

-- The loop of `StablePathHash`.
unfoldable pub hash_loop : ℕ → Bytes → ℕ
hash_loop hash [] = hash
hash_loop hash (ch ∷ text) = hash_loop (mul64 (bit_xor hash ch) 1099511628211) text

-- `StablePathHash`
unfoldable pub stable_path_hash : Bytes → ℕ
stable_path_hash = hash_loop 14695981039346656037

abbrev pub hex_digit : ℕ → ℕ
hex_digit d = if ltb d 10 then b'0' + d else b'a' + (d - 10)

-- The hexadecimal digits that an output stream writes; the fuel bounds their count.
unfoldable pub hex_loop : ℕ → ℕ → Bytes → Bytes
hex_loop zero n out = out
hex_loop (suc fuel) n out =
    let rest = hex_loop fuel (n / 16) (hex_digit (n % 16) ∷ out) in
    if ltb n 16 then hex_digit n ∷ out else rest

-- `std::setw(width)` with `std::setfill('0')`
unfoldable pub fill_zeros : ℕ → Bytes → Bytes
fill_zeros width text = replicate (width - length text) b'0' ++ text

-- `HexDigest`
unfoldable pub hex_digest : ℕ → Bytes
hex_digest value = fill_zeros 16 (hex_loop (value + 1) value [])

-- `path.replace_extension()`
unfoldable pub remove_extension : Bytes → Bytes
remove_extension path = take (length path - length (extension path)) path

-- `directory / name`, for a name with no slash
unfoldable pub join_path : Bytes → Bytes → Bytes
join_path directory name =
    if is_empty directory || ends_with directory (codes "/")
    then directory ++ name
    else directory ++ codes "/" ++ name

-- The path that an artifact is named after; `relative` gives `none` where it reports an error.
abbrev pub artifact_source : (Bytes → Option Bytes) → Bytes → Bytes
artifact_source relative source = elim (relative source) [ none ↦ filename source | some p ↦ p ]

-- `MakeTestOutputPath`
unfoldable pub make_test_output_path : (Bytes → Option Bytes) → AnalyzerOptions → Bytes → Bytes
make_test_output_path relative options source =
    let path = artifact_source relative source in
    join_path options.output_directory (
      sanitize_artifact_name (remove_extension path)
      ++ codes "_"
      ++ hex_digest (stable_path_hash path))
