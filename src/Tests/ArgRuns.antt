-- ===== src/Tests/ArgRuns.antt =====
-- The command line, the compiler's arguments and the artifacts' names, at concrete arguments.
use coretrace_runtime_analyz.Args.Artifact.Names.{
  hex_digest_lem, hex_value, make_test_output_path-hash, sanitize_artifact_name_lem,
}
use coretrace_runtime_analyz.Args.Compiler.Output.{
  find_output_argument-build, find_output_argument-without_instrument,
}
use coretrace_runtime_analyz.Args.Number.Timeout.{max_seconds, timeout_seconds-to_decimal}
use coretrace_runtime_analyz.Base.{
  All, Bytes, List, Option, [], arith, codes, false, length, refl, some, true, ◌*◌, ◌++◌, ◌↔◌, ◌∷◌,
  ◌≡◌, ◌≢◌, ◌≤◌, ◌⊎◌,
}
use coretrace_runtime_analyz.Base.Int.{negsuc, pos}
use coretrace_runtime_analyz.Text.{bytes_eq, ends_with, find, rfind, starts_with}
use coretrace_runtime_analyz.Types.{AnalyzerOptions, default_options}
use coretrace_runtime_analyz.Findings.Site.{digits_value, span_digits, to_decimal}
use coretrace_runtime_analyz.Args.Number.{leading_spaces, milliseconds_of, stoll, timeout_seconds}
use coretrace_runtime_analyz.Args.Parse.{
  ParseResult, check_result, default_parse, forward, is_valid_assignment, parse_args,
  parse_argument, parse_flag, parse_from, parse_valued, sarif, set_environment, set_format,
  set_options, set_output, set_timeout,
}
use coretrace_runtime_analyz.Args.Parse.Invariant.{IsParsed, parse_args-IsParsed}
use coretrace_runtime_analyz.Args.Parse.Settings.{
  IsSetting, Setting, command_line, environment, parse_args-command_line, set_all, test_dir,
  timeout,
}
use coretrace_runtime_analyz.Args.Compiler.{
  build_compiler_arguments, extension, filename, find_output_argument, without_instrument,
}
use coretrace_runtime_analyz.Args.Artifact.{
  artifact_source, fill_zeros, hash_loop, hex_digest, hex_loop, is_kept, join_path,
  make_test_output_path, remove_extension, sanitize_artifact_name, sanitize_byte, stable_path_hash,
}
use mathlib.Core.Option

parse : List Bytes → ParseResult
unfolding parse_args parse_from parse_argument parse_valued parse_flag set_format set_timeout
    set_environment set_output is_valid_assignment forward check_result timeout_seconds stoll
    leading_spaces milliseconds_of bytes_eq find starts_with span_digits digits_value Option.map
parse = parse_args

given :
    parse (
      codes "--timeout"
      ∷ codes " +12"
      ∷ codes "--env"
      ∷ codes "A=b"
      ∷ codes "--format=sarif"
      ∷ codes "--output=x"
      ∷ codes "--"
      ∷ codes "a.c"
      ∷ codes "--no-run"
      ∷ [])
    ≡ record default_parse {
      options = record default_options {
        timeout = pos 12000;
        environment = codes "A=b" ∷ [];
        output_path = codes "x";
        explicit_output_path = true;
        compiler_args = codes "a.c" ∷ codes "--no-run" ∷ [];
      };
      format = sarif;
    }
unfolding parse
given = refl

nothing_given : (parse []).ok ≡ false
unfolding parse
nothing_given = refl

empty_name :
    (parse (codes "--env" ∷ codes "=b" ∷ codes "--" ∷ codes "a.c" ∷ [])).error_text
    ≡ codes "--env requires NAME=VALUE"
unfolding parse
empty_name = refl

negative_timeout : (parse (codes "--timeout" ∷ codes "-1" ∷ [])).ok ≡ false
unfolding parse
negative_timeout = refl

-- One second more than the milliseconds can hold is accepted, and the timeout is negative.
too_long :
    (parse (
      codes "--timeout" ∷ codes "9223372036854776" ∷ codes "--" ∷ codes "a.c" ∷ [])).options.timeout
    ≡ negsuc 9223372036854775615
unfolding parse
too_long = refl

build : AnalyzerOptions → List Bytes × Bytes
unfolding build_compiler_arguments without_instrument find_output_argument bytes_eq starts_with
build = build_compiler_arguments

arguments : List Bytes → AnalyzerOptions
arguments args = record default_options { compiler_args = args }

built :
    build (record default_options {
      compiler_args = codes "--instrument" ∷ codes "a.c" ∷ codes "-o=out" ∷ [];
    })
    ≡ (codes "a.c" ∷ codes "-o=out" ∷ [], codes "out")
unfolding build
built = refl

name_of : Bytes → Bytes
unfolding sanitize_artifact_name sanitize_byte
name_of = sanitize_artifact_name

named : name_of (codes "a/b.c") ≡ codes "a_b_c"
unfolding name_of
named = refl

path_of : (Bytes → Option Bytes) → AnalyzerOptions → Bytes → Bytes
unfolding make_test_output_path join_path sanitize_artifact_name sanitize_byte remove_extension
    extension filename hex_digest hex_loop fill_zeros stable_path_hash hash_loop bytes_eq rfind find
    starts_with ends_with Option.map
path_of = make_test_output_path

abbrev here : Bytes → Option Bytes
here p = some p

test_path :
    path_of here (record default_options { output_directory = codes "out" }) (codes "t/a.c")
    ≡ codes "out/t_a_7bc50a651d621fc0"
unfolding path_of
test_path = refl

abbrev settings : List Setting
settings = test_dir (codes "d") ∷ timeout (codes "3") ∷ environment (codes "A=b") ∷ []

settings-IsSetting : All IsSetting settings
unfolding parse
settings-IsSetting = (tt, (refl, (refl, tt)))

parse_args-command_line_example :
    parse_args (command_line settings (codes "--" ∷ codes "a.c" ∷ codes "-c" ∷ []))
    ≡ set_options
        (set_all default_parse settings)
        (record (set_all default_parse settings).options {
          compiler_args = codes "a.c" ∷ codes "-c" ∷ [];
        })
parse_args-command_line_example =
    parse_args-command_line settings (codes "a.c") (codes "-c" ∷ []) settings-IsSetting

parse_args-IsParsed_example : IsParsed (parse_args (codes "--no-run" ∷ codes "--cwd" ∷ []))
parse_args-IsParsed_example = parse_args-IsParsed (codes "--no-run" ∷ codes "--cwd" ∷ [])

find_output_argument-build_example :
    let o = arguments (codes "--instrument" ∷ codes "a.c" ∷ []) in
    let built = build_compiler_arguments o in
    (find_output_argument built.0 ≡ record { present = true; path = built.1 })
    × ((built.0 ≡ without_instrument o.compiler_args)
        ⊎ (built.0 ≡ without_instrument o.compiler_args ++ codes "-o" ∷ built.1 ∷ []))
find_output_argument-build_example =
    find_output_argument-build (arguments (codes "--instrument" ∷ codes "a.c" ∷ []))

find_output_argument-without_instrument_example :
    (find_output_argument (without_instrument (codes "--instrument" ∷ codes "-o=x" ∷ []))).present
    ≡ (find_output_argument (codes "--instrument" ∷ codes "-o=x" ∷ [])).present
find_output_argument-without_instrument_example =
    find_output_argument-without_instrument (codes "--instrument" ∷ codes "-o=x" ∷ [])

hex_digest_lem_example : (length (hex_digest 48879) ≡ 16) × (hex_value 0 (hex_digest 48879) ≡ 48879)
hex_digest_lem_example = hex_digest_lem 48879 (omega arith)

make_test_output_path-hash_example :
    stable_path_hash (artifact_source here (codes "t/a.c"))
    ≡ stable_path_hash (artifact_source here (codes "t/a.c"))
make_test_output_path-hash_example =
    make_test_output_path-hash here (arguments []) (codes "t/a.c") (codes "t/a.c") refl

sanitize_artifact_name_lem_example :
    (sanitize_artifact_name (codes "a/b") ≢ [])
    × All (λ c. is_kept c ≡ true) (sanitize_artifact_name (codes "a/b"))
    × (codes "a/b" ≢ []
        → All (λ c. is_kept c ≡ true) (codes "a/b")
        → sanitize_artifact_name (codes "a/b") ≡ codes "a/b")
sanitize_artifact_name_lem_example = sanitize_artifact_name_lem (codes "a/b")

timeout_seconds-to_decimal_example :
    (timeout_seconds (to_decimal 30) ≡ some 30)
    × ((milliseconds_of 30 ≡ pos (30 * 1000)) ↔ (30 ≤ max_seconds))
timeout_seconds-to_decimal_example = timeout_seconds-to_decimal 30 (omega arith)
