-- ===== src/Args/Artifact/Names.antt =====
-- The names of artifacts: the bytes they have, the digits of the hash, and that two paths are
-- given one name only if their hashes are equal.

use coretrace_runtime_analyz.Types.{AnalyzerOptions}
use coretrace_runtime_analyz.Text.{ends_with}
use Prim.Native.Nat.{bit_xor}
use coretrace_runtime_analyz.Base.{
  All, Bool-cases, Bytes, Option, [], ap, append_assoc, arith, codes, drop, drop-length-append,
  if◌then◌else◌, inl, inr, is_empty, length, length-append, ltb, map, mul64, refl, replicate, suc,
  sym, true, u64_mod, zero, ℕ, ◌%◌, ◌*◌, ◌++◌, ◌+◌, ◌-◌, ◌/◌, ◌<◌, ◌||◌, ◌∙◌, ◌∷◌, ◌≡◌, ◌≢◌, ◌≤◌,
}
use coretrace_runtime_analyz.Args.Artifact.{
  artifact_source, fill_zeros, hash_loop, hex_digest, hex_digit, hex_loop, is_kept, join_path,
  make_test_output_path, remove_extension, sanitize_artifact_name, sanitize_byte, stable_path_hash,
}

sanitize_byte-is_kept : (c : ℕ) → is_kept (sanitize_byte c) ≡ true
unfolding sanitize_byte
sanitize_byte-is_kept c = ground arith

map-sanitize : (path : Bytes) → All (λ c. is_kept c ≡ true) (map sanitize_byte path)
map-sanitize [] = tt
map-sanitize (c ∷ path) = (sanitize_byte-is_kept c, map-sanitize path)

sanitize_kept : (path : Bytes) → All (λ c. is_kept c ≡ true) path → map sanitize_byte path ≡ path
unfolding sanitize_byte
sanitize_kept [] h = refl
sanitize_kept (c ∷ path) h = ground (arith, sanitize_kept path h.1)

-- A sanitized name is not empty and holds letters, digits, "-" and "_" only, so no slash; and a
-- name that is not empty and holds only those is left alone.
pub sanitize_artifact_name_lem :
    (path : Bytes)
    → (sanitize_artifact_name path ≢ [])
      × All (λ c. is_kept c ≡ true) (sanitize_artifact_name path)
      × (path ≢ [] → All (λ c. is_kept c ≡ true) path → sanitize_artifact_name path ≡ path)
unfolding sanitize_artifact_name
sanitize_artifact_name_lem [] = (cc, (refl, (refl, (refl, (refl, tt)))), λ ne h. absurd (ne refl))
sanitize_artifact_name_lem (c ∷ path) =
    (cc, map-sanitize (c ∷ path), λ ne h. sanitize_kept (c ∷ path) h)

-- The value of a hexadecimal digit and of a text of them.
abbrev digit_value : ℕ → ℕ
digit_value c = if ltb c b'a' then c - b'0' else c - b'a' + 10

abbrev pub hex_value : ℕ → Bytes → ℕ
hex_value n [] = n
hex_value n (c ∷ cs) = hex_value (n * 16 + digit_value c) cs

digit_value-hex_digit : (d : ℕ) → d < 16 → digit_value (hex_digit d) ≡ d
digit_value-hex_digit d h = ground arith

hex_value-hex_loop :
    (fuel n : ℕ) (out : Bytes) → n < fuel → hex_value 0 (hex_loop fuel n out) ≡ hex_value n out
unfolding hex_loop
hex_value-hex_loop zero n out h = elim h [ ]
hex_value-hex_loop (suc fuel) n out h = ground (
  arith,
  hex_value-hex_loop fuel (n / 16) (hex_digit (n % 16) ∷ out),
  digit_value-hex_digit n,
  digit_value-hex_digit (n % 16),
)

hex_value-replicate :
    (k : ℕ) (text : Bytes) → hex_value 0 (replicate k b'0' ++ text) ≡ hex_value 0 text
hex_value-replicate zero text = refl
hex_value-replicate (suc k) text = hex_value-replicate k text

-- 16 ^ (k + 1)
abbrev hex_bound : ℕ → ℕ
hex_bound zero = 16
hex_bound (suc k) = 16 * hex_bound k

length-hex_loop :
    (k fuel n : ℕ) (out : Bytes)
    → n < fuel
    → n < hex_bound k
    → length (hex_loop fuel n out) ≤ suc k + length out
unfolding hex_loop
length-hex_loop k zero n out h b = elim h [ ]
length-hex_loop zero (suc fuel) n out h b = ground arith
length-hex_loop (suc k) (suc fuel) n out h b =
    ground (arith, length-hex_loop k fuel (n / 16) (hex_digit (n % 16) ∷ out))

length-replicate : (k c : ℕ) → length (replicate k c) ≡ k
length-replicate zero c = refl
length-replicate (suc k) c = ap suc (length-replicate k c)

-- The digest of a 64-bit number has 16 digits, and they spell the number.
pub hex_digest_lem :
    (value : ℕ)
    → value < u64_mod
    → (length (hex_digest value) ≡ 16) × (hex_value 0 (hex_digest value) ≡ value)
unfolding hex_digest fill_zeros
hex_digest_lem value h =
    let ds = hex_loop (value + 1) value [] in
    (
      omega (
        arith,
        length-append (replicate (16 - length ds) b'0') ds,
        length-replicate (16 - length ds) b'0',
        length-hex_loop 15 (value + 1) value [] (omega arith) h,
      ),
      hex_value-replicate (16 - length ds) ds
          ∙ hex_value-hex_loop (value + 1) value [] (omega arith),
    )

hash_loop-lt : (hash : ℕ) (text : Bytes) → hash < u64_mod → hash_loop hash text < u64_mod
unfolding hash_loop
hash_loop-lt hash [] h = h
hash_loop-lt hash (c ∷ text) h =
    hash_loop-lt (mul64 (bit_xor hash c) 1099511628211) text (omega arith)

stable_path_hash-lt : (text : Bytes) → stable_path_hash text < u64_mod
unfolding stable_path_hash
stable_path_hash-lt text = hash_loop-lt 14695981039346656037 text (omega arith)

-- The last bytes of a text.
abbrev last_bytes : ℕ → Bytes → Bytes
last_bytes n text = drop (length text - n) text

last_bytes-append : (xs ys : Bytes) → last_bytes (length ys) (xs ++ ys) ≡ ys
last_bytes-append xs ys =
    let before : length (xs ++ ys) - length ys ≡ length xs = omega (arith, length-append xs ys) in
    rw before (drop-length-append xs ys)

join_path-suffix :
    (directory name : Bytes) → (front : Bytes) × (join_path directory name ≡ front ++ name)
unfolding join_path
join_path-suffix directory name =
    elim (Bool-cases (is_empty directory || ends_with directory (codes "/"))) [
      | inl e ↦ (directory, rw (join_path, e) refl)
      | inr e ↦ (directory ++ codes "/", rw (join_path, e) refl)
    ]

module _ (relative : Bytes → Option Bytes) (options : AnalyzerOptions) where
  digest-last :
      (source : Bytes)
      → last_bytes 16 (make_test_output_path relative options source)
        ≡ hex_digest (stable_path_hash (artifact_source relative source))
  unfolding make_test_output_path
  digest-last source =
      let path = artifact_source relative source in
      let digest = hex_digest (stable_path_hash path) in
      let stem = sanitize_artifact_name (remove_extension path) ++ codes "_" in
      let (front, joined) = join_path-suffix options.output_directory (stem ++ digest) in
      let sixteen = (hex_digest_lem (stable_path_hash path) (stable_path_hash-lt path)).0 in
      rw (make_test_output_path, joined, ← append_assoc front stem digest, ← sixteen)
        (last_bytes-append (front ++ stem) digest)

  -- Two sources of a batch are given the same binary path only if the 64-bit hashes of their
  -- relative paths are equal.
  pub make_test_output_path-hash :
      (source source' : Bytes)
      → make_test_output_path relative options source
        ≡ make_test_output_path relative options source'
      → stable_path_hash (artifact_source relative source)
        ≡ stable_path_hash (artifact_source relative source')
  make_test_output_path-hash source source' h =
      let a = stable_path_hash (artifact_source relative source) in
      let b = stable_path_hash (artifact_source relative source') in
      let digests : hex_digest a ≡ hex_digest b =
        sym (digest-last source) ∙ ap (last_bytes 16) h ∙ digest-last source' in
      sym (hex_digest_lem a (stable_path_hash-lt _)).1
      ∙ ap (hex_value 0) digests
      ∙ (hex_digest_lem b (stable_path_hash-lt _)).1
