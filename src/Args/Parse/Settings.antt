-- ===== src/Args/Parse/Settings.antt =====
-- All that a command line can set: each setting written as arguments is read back, and all that
-- stands behind `--` goes to the compiler.
use mathlib.Core.List.{cons-ne-nil}
use coretrace_runtime_analyz.Base.{
  All, Bytes, List, [], ap, append-nil, append_assoc, arith, codes, false, is_some, none, refl,
  some, sym, true, ℕ, ◌++◌, ◌∙◌, ◌∷◌, ◌≡◌, ◌≢◌,
}
use coretrace_runtime_analyz.Text.{bytes_eq, starts_with}
use coretrace_runtime_analyz.Types.{AnalyzerOptions}
use coretrace_runtime_analyz.Args.Number.{milliseconds_of, timeout_seconds}
use coretrace_runtime_analyz.Args.Parse.{
  OutputFormat, ParseResult, check_result, default_parse, forward, is_valid_assignment, parse_args,
  parse_argument, parse_flag, parse_from, parse_valued, sarif, set_environment, set_format,
  set_options, set_output, set_timeout, text, took_value,
}

-- One setting of the command line.
pub data Setting : Type 0 where
  output run_argument environment cwd timeout test_dir output_dir : Bytes → Setting
  strict_exit no_run show_output show_events_too : Setting
  format_as : OutputFormat → Setting

abbrev pub format_name : OutputFormat → Bytes
format_name text = codes "text"
format_name sarif = codes "sarif"

-- The arguments that say it.
abbrev pub arguments_of : Setting → List Bytes
arguments_of (output v) = codes "--output" ∷ v ∷ []
arguments_of (run_argument v) = codes "--run-arg" ∷ v ∷ []
arguments_of (environment v) = codes "--env" ∷ v ∷ []
arguments_of (cwd v) = codes "--cwd" ∷ v ∷ []
arguments_of (timeout v) = codes "--timeout" ∷ v ∷ []
arguments_of (test_dir v) = codes "--test-dir" ∷ v ∷ []
arguments_of (output_dir v) = codes "--output-dir" ∷ v ∷ []
arguments_of strict_exit = codes "--strict-test-exit" ∷ []
arguments_of no_run = codes "--no-run" ∷ []
arguments_of show_output = codes "--show-output" ∷ []
arguments_of show_events_too = codes "--show-events" ∷ []
arguments_of (format_as f) = codes "--format" ∷ format_name f ∷ []

-- The settings that are accepted.
abbrev pub IsSetting : Setting → Type 0
IsSetting (environment v) = is_valid_assignment v ≡ true
IsSetting (timeout v) = is_some (timeout_seconds v) ≡ true
IsSetting _ = Unit

abbrev seconds_of : Bytes → ℕ
seconds_of v = elim (timeout_seconds v) [ none ↦ 0 | some n ↦ n ]

-- What it sets.
abbrev pub applied : AnalyzerOptions → Setting → AnalyzerOptions
applied o (output v) = record o { output_path = v; explicit_output_path = true }
applied o (run_argument v) = record o { program_args = o.program_args ++ v ∷ [] }
applied o (environment v) = record o { environment = o.environment ++ v ∷ [] }
applied o (cwd v) = record o { working_directory = v }
applied o (timeout v) = record o { timeout = milliseconds_of (seconds_of v) }
applied o (test_dir v) = record o { test_directories = o.test_directories ++ v ∷ [] }
applied o (output_dir v) = record o { output_directory = v }
applied o strict_exit = record o { strict_test_exit = true }
applied o no_run = record o { run_program = false }
applied o show_output = record o { show_program_output = true }
applied o show_events_too = record o { show_events = true }
applied o (format_as f) = o

abbrev pub format_after : OutputFormat → Setting → OutputFormat
format_after old (format_as f) = f
format_after old _ = old

abbrev pub set : ParseResult → Setting → ParseResult
set r s = record r { options = applied r.options s; format = format_after r.format s }

abbrev pub set_all : ParseResult → List Setting → ParseResult
set_all r [] = r
set_all r (s ∷ ss) = set_all (set r s) ss

abbrev pub command_line : List Setting → List Bytes → List Bytes
command_line [] rest = rest
command_line (s ∷ ss) rest = arguments_of s ++ command_line ss rest

parse_from-took_value :
    (r : ParseResult) (arg v : Bytes) (rest : List Bytes) {s : ParseResult}
    → parse_argument r arg (some v) ≡ took_value s
    → parse_from r (arg ∷ v ∷ rest) ≡ parse_from s rest
unfolding parse_from
parse_from-took_value r arg v rest h = rw (parse_from, h) refl

set_environment-valid :
    (r : ParseResult) (v : Bytes)
    → is_valid_assignment v ≡ true
    → parse_argument r (codes "--env") (some v)
      ≡ took_value (record r { options = applied r.options (environment v) })
unfolding parse_argument parse_valued bytes_eq starts_with set_environment
set_environment-valid r v h = rw h refl

reach_timeout :
    (r : ParseResult) (v : Bytes) → parse_argument r (codes "--timeout") (some v) ≡ set_timeout r v
unfolding parse_argument parse_valued bytes_eq starts_with
reach_timeout r v = refl

set_timeout-valid :
    (r : ParseResult) (v : Bytes)
    → is_some (timeout_seconds v) ≡ true
    → set_timeout r v ≡ took_value (record r { options = applied r.options (timeout v) })
unfolding set_timeout
set_timeout-valid r v h = ground arith

-- One setting in front of at least one more argument.
parse_from-setting :
    (s : Setting) (r : ParseResult) (next : Bytes) (rest : List Bytes)
    → IsSetting s
    → parse_from r (arguments_of s ++ next ∷ rest) ≡ parse_from (set r s) (next ∷ rest)
unfolding parse_from parse_argument parse_valued parse_flag set_output set_environment set_timeout
    set_format bytes_eq starts_with
parse_from-setting (output v) r next rest h = refl
parse_from-setting (run_argument v) r next rest h = refl
parse_from-setting (environment v) r next rest h =
    parse_from-took_value r (codes "--env") v (next ∷ rest) (set_environment-valid r v h)
parse_from-setting (cwd v) r next rest h = refl
parse_from-setting (timeout v) r next rest h =
    parse_from-took_value r (codes "--timeout") v (next ∷ rest)
      (reach_timeout r v ∙ set_timeout-valid r v h)
parse_from-setting (test_dir v) r next rest h = refl
parse_from-setting (output_dir v) r next rest h = refl
parse_from-setting strict_exit r next rest h = refl
parse_from-setting no_run r next rest h = refl
parse_from-setting show_output r next rest h = refl
parse_from-setting show_events_too r next rest h = refl
parse_from-setting (format_as text) r next rest h = refl
parse_from-setting (format_as sarif) r next rest h = refl

-- The rest of a command line is never empty.
command_line_cons :
    (ss : List Setting) (x : Bytes) (rest : List Bytes)
    → (y : Bytes) × (ys : List Bytes) × (command_line ss (x ∷ rest) ≡ y ∷ ys)
command_line_cons [] x rest = (x, rest, refl)
command_line_cons (output v ∷ ss) x rest = (_, _, refl)
command_line_cons (run_argument v ∷ ss) x rest = (_, _, refl)
command_line_cons (environment v ∷ ss) x rest = (_, _, refl)
command_line_cons (cwd v ∷ ss) x rest = (_, _, refl)
command_line_cons (timeout v ∷ ss) x rest = (_, _, refl)
command_line_cons (test_dir v ∷ ss) x rest = (_, _, refl)
command_line_cons (output_dir v ∷ ss) x rest = (_, _, refl)
command_line_cons (strict_exit ∷ ss) x rest = (_, _, refl)
command_line_cons (no_run ∷ ss) x rest = (_, _, refl)
command_line_cons (show_output ∷ ss) x rest = (_, _, refl)
command_line_cons (show_events_too ∷ ss) x rest = (_, _, refl)
command_line_cons (format_as f ∷ ss) x rest = (_, _, refl)

parse_from-settings :
    (ss : List Setting) (r : ParseResult) (x : Bytes) (rest : List Bytes)
    → All IsSetting ss
    → parse_from r (command_line ss (x ∷ rest)) ≡ parse_from (set_all r ss) (x ∷ rest)
parse_from-settings [] r x rest h = refl
parse_from-settings (s ∷ ss) r x rest h =
    let (y, ys, e) = command_line_cons ss x rest in
    ap (λ l. parse_from r (arguments_of s ++ l)) e
    ∙ parse_from-setting s r y ys h.0
    ∙ ap (parse_from (set r s)) (sym e)
    ∙ parse_from-settings ss (set r s) x rest h.1

forward_lem :
    (rest : List Bytes) (r : ParseResult)
    → forward r rest
      ≡ check_result
          (set_options r (record r.options { compiler_args = r.options.compiler_args ++ rest }))
          true
unfolding forward
forward_lem [] r = rw (append-nil r.options.compiler_args) refl
forward_lem (arg ∷ rest) r =
    forward_lem rest _ ∙ rw (append_assoc r.options.compiler_args (arg ∷ [])) refl

parse_from-dashes :
    (r : ParseResult) (rest : List Bytes) → parse_from r (codes "--" ∷ rest) ≡ forward r rest
unfolding parse_from parse_argument bytes_eq
parse_from-dashes r [] = refl
parse_from-dashes r (x ∷ rest) = refl

set_all-compiler_args :
    (ss : List Setting) (r : ParseResult)
    → (set_all r ss).options.compiler_args ≡ r.options.compiler_args
set_all-compiler_args [] r = refl
set_all-compiler_args (s ∷ ss) r = set_all-compiler_args ss (set r s) ∙ kept s
  where
    kept : (s : Setting) → (applied r.options s).compiler_args ≡ r.options.compiler_args
    kept (output v) = refl
    kept (run_argument v) = refl
    kept (environment v) = refl
    kept (cwd v) = refl
    kept (timeout v) = refl
    kept (test_dir v) = refl
    kept (output_dir v) = refl
    kept strict_exit = refl
    kept no_run = refl
    kept show_output = refl
    kept show_events_too = refl
    kept (format_as f) = refl

check_result-forwarded : (r : ParseResult) → r.options.compiler_args ≢ [] → check_result r true ≡ r
unfolding check_result
check_result-forwarded r h = ground arith

-- Any list of settings, written as arguments in front of `--` and at least one compiler argument,
-- is accepted: each setting takes effect in order, and all that stands behind `--` goes to the
-- compiler unread. Environment entries must be "NAME=VALUE" and timeouts accepted numbers.
pub parse_args-command_line :
    (ss : List Setting) (arg : Bytes) (rest : List Bytes)
    → All IsSetting ss
    → let r = set_all default_parse ss in
      parse_args (command_line ss (codes "--" ∷ arg ∷ rest))
      ≡ set_options r (record r.options { compiler_args = arg ∷ rest })
unfolding parse_args
parse_args-command_line ss arg rest h =
    let r = set_all default_parse ss in
    let given =
      set_options r (record r.options { compiler_args = r.options.compiler_args ++ arg ∷ rest }) in
    let all : r.options.compiler_args ++ arg ∷ rest ≡ arg ∷ rest =
      ap (λ l. l ++ arg ∷ rest) (set_all-compiler_args ss default_parse) in
    parse_from-settings ss default_parse (codes "--") (arg ∷ rest) h
    ∙ parse_from-dashes r (arg ∷ rest)
    ∙ forward_lem (arg ∷ rest) r
    ∙ check_result-forwarded given (λ e. cons-ne-nil arg rest (sym all ∙ e))
    ∙ ap (λ l. set_options r (record r.options { compiler_args = l })) all
