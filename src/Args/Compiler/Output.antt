-- ===== src/Args/Compiler/Output.antt =====
-- Where the binary goes: the output path that `BuildCompilerArguments` reports is the one the
-- compiler is told.
use coretrace_runtime_analyz.Base.{
  All, Bool-cases, Bytes, List, [], arith, codes, false, if◌then◌else◌, inl, inr, is_empty, refl,
  sym, true, ◌++◌, ◌↔◌, ◌∙◌, ◌∷◌, ◌≡◌, ◌⊎◌,
}
use coretrace_runtime_analyz.Text.{bytes_eq, starts_with}
use coretrace_runtime_analyz.Types.{AnalyzerOptions}
use coretrace_runtime_analyz.Args.Compiler.{
  build_compiler_arguments, find_output_argument, is_instrument, without_instrument,
}
use coretrace_runtime_analyz.Text.Search.{bytes_eq_iff}

-- An argument that names no output.
abbrev pub NamesNoOutput : Bytes → Type 0
NamesNoOutput arg =
    (bytes_eq arg (codes "-o") ≡ false)
    × (bytes_eq arg (codes "--output") ≡ false)
    × (starts_with arg (codes "-o=") ≡ false)
    × (starts_with arg (codes "--output=") ≡ false)

-- No output is found exactly where no argument names one.
pub find_output_argument-absent :
    (args : List Bytes) → ((find_output_argument args).present ≡ false) ↔ All NamesNoOutput args
unfolding find_output_argument
find_output_argument-absent [] = (λ h. tt, λ h. refl)
find_output_argument-absent (arg ∷ rest) = ground (arith, find_output_argument-absent rest)

find_output_argument-appended :
    (args : List Bytes) (path : Bytes)
    → (find_output_argument args).present ≡ false
    → find_output_argument (args ++ codes "-o" ∷ path ∷ []) ≡ record { present = true; path = path }
unfolding find_output_argument
find_output_argument-appended [] path h = unfold bytes_eq in refl
find_output_argument-appended (arg ∷ rest) path h =
    ground (arith, find_output_argument-appended rest path)

-- The compiler's arguments always have an output argument, and its path is the one reported. Of the
-- arguments given, exactly those other than "--instrument" come first, in their order, and only an
-- output argument follows.
pub find_output_argument-build :
    (options : AnalyzerOptions)
    → let built = build_compiler_arguments options in
      (find_output_argument built.0 ≡ record { present = true; path = built.1 })
      × ((built.0 ≡ without_instrument options.compiler_args)
          ⊎ (built.0 ≡ without_instrument options.compiler_args ++ codes "-o" ∷ built.1 ∷ []))
unfolding build_compiler_arguments
find_output_argument-build options =
    let args = without_instrument options.compiler_args in
    let path : Bytes =
      if is_empty options.output_path then codes "runtime-analyzer.out" else options.output_path in
    elim (Bool-cases (find_output_argument args).present) [
      | inl given ↦ rw (build_compiler_arguments, given) (ground (arith, given), inl refl)
      | inr absent ↦
          rw (build_compiler_arguments, absent)
            (find_output_argument-appended args path absent, inr refl)
    ]

present_cons :
    (arg : Bytes) (xs ys : List Bytes)
    → (find_output_argument xs).present ≡ (find_output_argument ys).present
    → (find_output_argument (arg ∷ xs)).present ≡ (find_output_argument (arg ∷ ys)).present
unfolding find_output_argument
present_cons arg xs ys h = ground arith

instrument_names_no_output :
    (arg : Bytes) (rest : List Bytes)
    → is_instrument arg ≡ true
    → (find_output_argument (arg ∷ rest)).present ≡ (find_output_argument rest).present
instrument_names_no_output arg rest e =
    rw ((bytes_eq_iff arg (codes "--instrument")).0 e)
      (unfold find_output_argument bytes_eq starts_with in refl)

-- Dropping "--instrument" does not change whether an output is named, so the analyzer's test for
-- an output given twice, on the arguments before the drop, agrees with the arguments it compiles.
pub find_output_argument-without_instrument :
    (args : List Bytes)
    → (find_output_argument (without_instrument args)).present ≡ (find_output_argument args).present
unfolding without_instrument
find_output_argument-without_instrument [] = refl
find_output_argument-without_instrument (arg ∷ rest) = elim (Bool-cases (is_instrument arg)) [
  | inl e ↦
      rw e
        (find_output_argument-without_instrument rest ∙ sym (instrument_names_no_output arg rest e))
  | inr e ↦ rw e (
      present_cons arg (without_instrument rest) rest
        (find_output_argument-without_instrument rest))
]
