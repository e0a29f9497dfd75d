-- ===== src/Args/Parse.antt =====
-- src/cli_args.cpp: `ParseArgs`. `argv` is the list behind the program's name.
pub mod Invariant
pub mod Settings
use coretrace_runtime_analyz.Base.{
  Bool, Bytes, List, Option, [], codes, drop, false, if◌then◌else◌, is_empty, none, not, some, true,
  ◌&&◌, ◌*◌, ◌++◌, ◌==◌, ◌||◌, ◌∷◌,
}
use coretrace_runtime_analyz.Text.{bytes_eq, find, starts_with}
use coretrace_runtime_analyz.Types.{AnalyzerOptions, default_options}
use coretrace_runtime_analyz.Args.Number.{milliseconds_of, timeout_seconds}

pub data OutputFormat : Type 0 where
  text sarif : OutputFormat

pub record ParseResult : Type 0 where
  pub ok : Bool
  pub help : Bool
  pub version : Bool
  pub options : AnalyzerOptions
  pub format : OutputFormat
  pub error_text : Bytes

-- `ParseResult result;`
abbrev pub default_parse : ParseResult
default_parse = record {
  ok = true;
  help = false;
  version = false;
  options = default_options;
  format = text;
  error_text = [];
}

-- What a round of the loop does: it returns, or goes on, behind the argument or behind its value.
pub data Round : Type 0 where
  returned : ParseResult → Round
  went_on : ParseResult → Round
  took_value : ParseResult → Round
  reached_dashes : ParseResult → Round

-- `result.ok = false; result.error = message; return result;`
abbrev pub failed : ParseResult → Bytes → ParseResult
failed r message = record r { ok = false; error_text = message }

-- An option with a value: `if (i + 1 >= argc)` fails, else the value is set.
abbrev pub with_value : ParseResult → Option Bytes → Bytes → (Bytes → Round) → Round
with_value r none message set = returned (failed r message)
with_value r (some value) message set = set value

-- `IsValidEnvironmentAssignment`
unfoldable pub is_valid_assignment : Bytes → Bool
is_valid_assignment assignment = elim (find assignment (codes "=")) [
  | none ↦ false
  | some eq ↦ not (eq == 0)
]

abbrev pub set_options : ParseResult → AnalyzerOptions → ParseResult
set_options r o = record r { options = o }

unfoldable pub set_output : ParseResult → Bytes → ParseResult
set_output r path =
    set_options r (record r.options { output_path = path; explicit_output_path = true })

unfoldable pub set_environment : ParseResult → Bytes → Round
set_environment r assignment =
    if not (is_valid_assignment assignment)
    then returned (failed r (codes "--env requires NAME=VALUE"))
    else took_value (
        set_options r (record r.options { environment = r.options.environment ++ assignment ∷ [] }))

unfoldable pub set_timeout : ParseResult → Bytes → Round
set_timeout r value = elim (timeout_seconds value) [
  | none ↦ returned (failed r (codes "--timeout requires a non-negative number of seconds"))
  | some n ↦ took_value (set_options r (record r.options { timeout = milliseconds_of n }))
]

-- The end of `--format`, for its value and what goes on behind it.
unfoldable pub set_format : ParseResult → Bytes → (ParseResult → Round) → Round
set_format r value go =
    if bytes_eq value (codes "sarif")
    then go (record r { format = sarif })
    else if bytes_eq value (codes "text")
    then go (record r { format = text })
    else returned (failed r (codes "--format requires text or sarif"))

-- The options from `--strict-test-exit` on.
unfoldable pub parse_flag : ParseResult → Bytes → Option Bytes → Round
parse_flag r arg next =
    if bytes_eq arg (codes "--strict-test-exit")
    then went_on (set_options r (record r.options { strict_test_exit = true }))
    else if bytes_eq arg (codes "--no-run")
    then went_on (set_options r (record r.options { run_program = false }))
    else if bytes_eq arg (codes "--show-output")
    then went_on (set_options r (record r.options { show_program_output = true }))
    else if bytes_eq arg (codes "--show-events")
    then went_on (set_options r (record r.options { show_events = true }))
    else if bytes_eq arg (codes "--format")
    then with_value r next (codes "--format requires text or sarif")
        (λ v. set_format r v took_value)
    else if starts_with arg (codes "--format=")
    then set_format r (drop 9 arg) went_on
    else returned (
        failed r
          (codes "unknown analyzer option: " ++ arg ++ codes " (compiler arguments go after --)"))

-- The options from `--run-arg` on, with the argument behind, if any.
unfoldable pub parse_valued : ParseResult → Bytes → Option Bytes → Round
parse_valued r arg next =
    if bytes_eq arg (codes "--run-arg")
    then with_value r next (codes "--run-arg requires a value") (λ v.
      took_value
        (set_options r (record r.options { program_args = r.options.program_args ++ v ∷ [] })))
    else if bytes_eq arg (codes "--env")
    then with_value r next (codes "--env requires NAME=VALUE") (set_environment r)
    else if bytes_eq arg (codes "--cwd")
    then with_value r next (codes "--cwd requires a path")
        (λ v. took_value (set_options r (record r.options { working_directory = v })))
    else if bytes_eq arg (codes "--timeout")
    then with_value r next (codes "--timeout requires a number of seconds") (set_timeout r)
    else if bytes_eq arg (codes "--test-dir")
    then with_value r next (codes "--test-dir requires a path") (λ v. took_value (
        set_options r
          (record r.options { test_directories = r.options.test_directories ++ v ∷ [] })))
    else if bytes_eq arg (codes "--output-dir")
    then with_value r next (codes "--output-dir requires a path")
        (λ v. took_value (set_options r (record r.options { output_directory = v })))
    else parse_flag r arg next

-- The body of the loop in front of `--`, at `arg`, with the argument behind it, if any.
unfoldable pub parse_argument : ParseResult → Bytes → Option Bytes → Round
parse_argument r arg next =
    if bytes_eq arg (codes "--")
    then reached_dashes r
    else if bytes_eq arg (codes "-h") || bytes_eq arg (codes "--help")
    then returned (record r { help = true })
    else if bytes_eq arg (codes "--version")
    then returned (record r { version = true })
    else if bytes_eq arg (codes "-o") || bytes_eq arg (codes "--output")
    then with_value r next (arg ++ codes " requires a value") (λ v. took_value (set_output r v))
    else if starts_with arg (codes "--output=")
    then went_on (set_output r (drop 9 arg))
    else parse_valued r arg next

-- The check behind the loop; the flag is `compiler_args`.
unfoldable pub check_result : ParseResult → Bool → ParseResult
check_result r dashes =
    if (not dashes || is_empty r.options.compiler_args) && is_empty r.options.test_directories
    then failed r (codes "missing compiler arguments; use -- <compiler args>")
    else r

-- The arguments behind `--`, all of them the compiler's.
unfoldable pub forward : ParseResult → List Bytes → ParseResult
forward r [] = check_result r true
forward r (arg ∷ rest) =
    forward
      (set_options r (record r.options { compiler_args = r.options.compiler_args ++ arg ∷ [] }))
      rest

-- The loop of `ParseArgs`.
unfoldable pub parse_from : ParseResult → List Bytes → ParseResult
parse_from r [] = check_result r false
parse_from r (arg ∷ []) = elim (parse_argument r arg none) [
  | returned s ↦ s
  | went_on s ↦ check_result s false
  | took_value s ↦ check_result s false
  | reached_dashes s ↦ forward s []
]
parse_from r (arg ∷ next ∷ rest) = elim (parse_argument r arg (some next)) [
  | returned s ↦ s
  | went_on s ↦ parse_from s (next ∷ rest)
  | took_value s ↦ parse_from s rest
  | reached_dashes s ↦ forward s (next ∷ rest)
]

-- `ParseArgs`
unfoldable pub parse_args : List Bytes → ParseResult
parse_args = parse_from default_parse
