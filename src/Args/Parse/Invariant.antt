-- ===== src/Args/Parse/Invariant.antt =====
-- What holds of every result of `ParseArgs`.

use mathlib.Core.List.{cons-ne-nil}
use coretrace_runtime_analyz.Base.{
  All, All-append, Bool, Bool-cases, Bytes, List, Option, Option-cases, [], arith, false, inl, inr,
  none, refl, some, true, ◌∷◌, ◌≡◌, ◌≢◌, ◌⊎◌,
}
use coretrace_runtime_analyz.Types.{AnalyzerOptions}
use coretrace_runtime_analyz.Args.Number.{timeout_seconds}
use coretrace_runtime_analyz.Args.Parse.{
  ParseResult, Round, check_result, default_parse, failed, forward, is_valid_assignment, parse_args,
  parse_argument, parse_flag, parse_from, parse_valued, reached_dashes, returned, set_environment,
  set_format, set_options, set_output, set_timeout, took_value, went_on,
}

abbrev pub ValidEnvironment : List Bytes → Type 0
ValidEnvironment = All (λ a. is_valid_assignment a ≡ true)

-- While the loop goes on.
pub record Going (r : ParseResult) : Type 0 where
  pub is_ok : r.ok ≡ true
  pub no_error : r.error_text ≡ []
  pub no_help : r.help ≡ false
  pub no_version : r.version ≡ false
  pub environment_ok : ValidEnvironment r.options.environment

-- What is returned: an error has a text, what is accepted has none and, unless it asks for the
-- help or the version, something to compile; and the environment's entries are "NAME=VALUE".
pub record IsParsed (r : ParseResult) : Type 0 where
  pub error_has_text : r.ok ≡ false → r.error_text ≢ []
  pub ok_has_none : r.ok ≡ true → r.error_text ≡ []
  pub has_input :
      r.ok ≡ true
      → r.help ≡ false
      → r.version ≡ false
      → (r.options.compiler_args ≢ []) ⊎ (r.options.test_directories ≢ [])
  pub environment_ok : ValidEnvironment r.options.environment

abbrev RoundOk : Round → Type 0
RoundOk (returned s) = IsParsed s
RoundOk (went_on s) = Going s
RoundOk (took_value s) = Going s
RoundOk (reached_dashes s) = Going s

module _ {r : ParseResult} (g : Going r) where
  failed-IsParsed : (message : Bytes) → message ≢ [] → IsParsed (failed r message)
  failed-IsParsed message ne = record {
    error_has_text = λ _. ne;
    ok_has_none = λ h. cc;
    has_input = λ h _ _. cc;
    environment_ok = g.environment_ok;
  }

  options-Going : (o : AnalyzerOptions) → ValidEnvironment o.environment → Going (set_options r o)
  options-Going o v = record {
    is_ok = g.is_ok;
    no_error = g.no_error;
    no_help = g.no_help;
    no_version = g.no_version;
    environment_ok = v;
  }

  set_environment-RoundOk : (a : Bytes) → RoundOk (set_environment r a)
  unfolding set_environment
  set_environment-RoundOk a = elim (Bool-cases (is_valid_assignment a)) [
    | inl e ↦
        rw (set_environment, e)
          (options-Going _ (All-append _ r.options.environment (a ∷ []) g.environment_ok (e, tt)))
    | inr e ↦ rw (set_environment, e) (failed-IsParsed _ (cons-ne-nil _ _))
  ]

  set_timeout-RoundOk : (a : Bytes) → RoundOk (set_timeout r a)
  unfolding set_timeout
  set_timeout-RoundOk a = elim (Option-cases (timeout_seconds a)) [
    | inr (n, e) ↦ rw (set_timeout, e) (options-Going _ g.environment_ok)
    | inl e ↦ rw (set_timeout, e) (failed-IsParsed _ (cons-ne-nil _ _))
  ]

  check_result-IsParsed : (dashes : Bool) → IsParsed (check_result r dashes)
  unfolding check_result
  check_result-IsParsed dashes = ground (arith, g.is_ok, g.no_error, g.environment_ok)

  parse_flag-RoundOk : (arg : Bytes) (next : Option Bytes) → RoundOk (parse_flag r arg next)
  unfolding parse_flag set_format
  parse_flag-RoundOk arg next = ground arith

  parse_valued-RoundOk : (arg : Bytes) (next : Option Bytes) → RoundOk (parse_valued r arg next)
  unfolding parse_valued
  parse_valued-RoundOk arg none = ground (arith, parse_flag-RoundOk arg none)
  parse_valued-RoundOk arg (some v) =
      ground
        (arith, parse_flag-RoundOk arg (some v), set_environment-RoundOk v, set_timeout-RoundOk v)

  parse_argument-RoundOk : (arg : Bytes) (next : Option Bytes) → RoundOk (parse_argument r arg next)
  unfolding parse_argument set_output
  parse_argument-RoundOk arg none = ground (arith, parse_valued-RoundOk arg none)
  parse_argument-RoundOk arg (some v) = ground (arith, parse_valued-RoundOk arg (some v))

forward-IsParsed : (rest : List Bytes) {r : ParseResult} → Going r → IsParsed (forward r rest)
unfolding forward
forward-IsParsed [] g = check_result-IsParsed g true
forward-IsParsed (arg ∷ rest) g = forward-IsParsed rest (options-Going g _ g.environment_ok)

parse_from-IsParsed : (args : List Bytes) (r : ParseResult) → Going r → IsParsed (parse_from r args)
unfolding parse_from
parse_from-IsParsed [] r g = check_result-IsParsed g false
parse_from-IsParsed (arg ∷ []) r g =
    finish (parse_argument r arg none) (parse_argument-RoundOk g arg none)
  where
    finish :
        (round : Round)
        → RoundOk round
        → IsParsed (elim round [
          | returned s ↦ s
          | went_on s ↦ check_result s false
          | took_value s ↦ check_result s false
          | reached_dashes s ↦ forward s []
        ])
    finish (returned s) k = k
    finish (went_on s) k = check_result-IsParsed k false
    finish (took_value s) k = check_result-IsParsed k false
    finish (reached_dashes s) k = forward-IsParsed [] k
parse_from-IsParsed (arg ∷ next ∷ rest) r g =
    finish (parse_from-IsParsed (next ∷ rest)) (parse_from-IsParsed rest)
      (parse_argument r arg (some next)) (parse_argument-RoundOk g arg (some next))
  where
    finish :
        ((s : ParseResult) → Going s → IsParsed (parse_from s (next ∷ rest)))
        → ((s : ParseResult) → Going s → IsParsed (parse_from s rest))
        → (round : Round) → RoundOk round
        → IsParsed (elim round [
          | returned s ↦ s
          | went_on s ↦ parse_from s (next ∷ rest)
          | took_value s ↦ parse_from s rest
          | reached_dashes s ↦ forward s (next ∷ rest)
        ])
    finish on after (returned s) k = k
    finish on after (went_on s) k = on s k
    finish on after (took_value s) k = after s k
    finish on after (reached_dashes s) k = forward-IsParsed (next ∷ rest) k

-- Every result of `ParseArgs`: a refusal has an error text and an acceptance has none; what is
-- accepted and asks for neither the help nor the version has compiler arguments or a test
-- directory; and each environment entry has an equals sign that is not its first byte.
pub parse_args-IsParsed : (argv : List Bytes) → IsParsed (parse_args argv)
unfolding parse_args
parse_args-IsParsed argv = parse_from-IsParsed argv default_parse (record {
  is_ok = refl;
  no_error = refl;
  no_help = refl;
  no_version = refl;
  environment_ok = tt;
})
