-- ===== src/Main/Exit.antt =====
-- The exit status and the outputs of the program as a whole.

use coretrace_runtime_analyz.Main.Logs.{Logged, run_accepted-Logged}
use coretrace_runtime_analyz.Text.{starts_with}
use coretrace_runtime_analyz.Toolchain.{use_shipped_clang_headers}
use coretrace_runtime_analyz.Analyzer.Discovered.{run_batch-IsBatchResult}
use coretrace_runtime_analyz.World.{World}
use coretrace_runtime_analyz.Analyzer.{run_analyzer}
use coretrace_runtime_analyz.Base.{
  Bytes, List, [], append_assoc, arith, codes, false, refl, true, ◌++◌, ◌∙◌, ◌≡◌, ◌≤◌, ◌⊎◌,
}
use coretrace_runtime_analyz.Events.{exit_not_analyzed}
use coretrace_runtime_analyz.Events.Verdict.{verdict_iff}
use coretrace_runtime_analyz.Args.Parse.{ParseResult, parse_args, sarif}
use coretrace_runtime_analyz.Main.{
  Build, add_link_arguments, help_text, main, name_output, report_batch, report_run, run_accepted,
  run_parsed,
}
use mathlib.Core.Path.{subst}
use coretrace_runtime_analyz.Text.Search.{starts_with-append}

abbrev refusal_text : Bytes → Bytes → Bytes
refusal_text reason rest = codes "runtime-analyzer: " ++ (reason ++ (codes "\n" ++ rest))

starts_refusal :
    (reason rest : Bytes)
    → starts_with (refusal_text reason rest) (codes "runtime-analyzer: " ++ (reason ++ codes "\n"))
      ≡ true
starts_refusal reason rest =
    let front = codes "runtime-analyzer: " in
    subst (λ t. starts_with (front ++ t) (front ++ (reason ++ codes "\n")) ≡ true)
      (append_assoc reason (codes "\n") rest)
      (starts_with-append (front ++ (reason ++ codes "\n")) rest)

module _ (b : Build) (w : World) where
  -- What the added arguments leave alone.
  add_link_arguments-kept :
      (parsed : ParseResult) (executable : Bytes) (s : w.State)
      → let linked = add_link_arguments b w parsed executable s in
        (linked.ok ≡ parsed.ok)
        × (linked.format ≡ parsed.format)
        × (linked.error_text ≡ parsed.error_text)
        × (linked.options.test_directories ≡ parsed.options.test_directories)
  unfolding add_link_arguments
  add_link_arguments-kept parsed executable s = ground arith

  run_parsed-accepted :
      (parsed : ParseResult) (s : w.State)
      → parsed.ok ≡ true
      → run_parsed b w parsed s ≡ run_accepted b w parsed s
  unfolding run_parsed
  run_parsed-accepted parsed s ok = ground arith

  run_parsed-refused :
      (parsed : ParseResult) (s : w.State)
      → parsed.ok ≡ false
      → run_parsed b w parsed s ≡ (
        record {
          status = exit_not_analyzed;
          out = [];
          err = refusal_text parsed.error_text help_text;
        },
        s,
      )
  unfolding run_parsed
  run_parsed-refused parsed s bad = ground arith

  -- What `Main` does when neither the help nor the version is asked for.
  main_shipped :
      (argv : List Bytes) (s : w.State)
      → (parse_args argv).help ≡ false
      → (parse_args argv).version ≡ false
      → let executable = w.main_executable s in
        let s' = (use_shipped_clang_headers w executable s).1 in
        main b w argv s ≡ run_parsed b w (add_link_arguments b w (parse_args argv) executable s') s'
  unfolding main
  main_shipped argv s h v = ground arith

  -- With `--format sarif`, the standard output of an accepted command line is the log of well-formed
  -- findings, and nothing else: for a single run those of its result, and in batch mode those of all
  -- its tests, one behind the other, where the run or the batch is made with the arguments that link
  -- against the shipped runtime, in the state behind the shipped headers. The exit status is 0 only
  -- if there are no findings; and for a single run it is 1 exactly if there are some.
  pub main-LogsFindings :
      (argv : List Bytes) (s : w.State)
      → (parse_args argv).ok ≡ true
      → (parse_args argv).help ≡ false
      → (parse_args argv).version ≡ false
      → (parse_args argv).format ≡ sarif
      → let executable = w.main_executable s in
        let s' = (use_shipped_clang_headers w executable s).1 in
        Logged b w (add_link_arguments b w (parse_args argv) executable s') s' (main b w argv s).0
  main-LogsFindings argv s ok h v f =
      let executable = w.main_executable s in
      let s' = (use_shipped_clang_headers w executable s).1 in
      let linked = add_link_arguments b w (parse_args argv) executable s' in
      let (same_ok, same_format, _, _) = add_link_arguments-kept (parse_args argv) executable s' in
      rw (main_shipped argv s h v, run_parsed-accepted linked s' (same_ok ∙ ok))
        (run_accepted-Logged b w linked s' (same_format ∙ f))

  -- A refused command line compiles and runs nothing: beside what the shipped toolchain does to the
  -- environment nothing is changed, the standard output stays empty, the error output starts with
  -- the reason, and the exit status is 2.
  pub main-refused :
      (argv : List Bytes) (s : w.State)
      → (parse_args argv).ok ≡ false
      → (parse_args argv).help ≡ false
      → (parse_args argv).version ≡ false
      → let (outcome, s') = main b w argv s in
        (s' ≡ (use_shipped_clang_headers w (w.main_executable s) s).1)
        × (outcome.out ≡ [])
        × (outcome.status ≡ exit_not_analyzed)
        × (starts_with outcome.err
              (codes "runtime-analyzer: " ++ ((parse_args argv).error_text ++ codes "\n"))
            ≡ true)
  main-refused argv s bad h v =
      let executable = w.main_executable s in
      let s' = (use_shipped_clang_headers w executable s).1 in
      let linked = add_link_arguments b w (parse_args argv) executable s' in
      let (same_ok, _, same_text, _) = add_link_arguments-kept (parse_args argv) executable s' in
      rw (main_shipped argv s h v, run_parsed-refused linked s' (same_ok ∙ bad), same_text)
        (refl, refl, refl, starts_refusal (parse_args argv).error_text help_text)

  run_accepted-le :
      (parsed : ParseResult) (s : w.State)
      → (run_accepted b w parsed s).0.status ≤ exit_not_analyzed
  unfolding run_accepted report_batch report_run
  run_accepted-le parsed s =
      let batch = (run_batch-IsBatchResult w parsed.options s).0.exit_bound in
      let r = name_output parsed.options (run_analyzer w parsed.options s).0 in
      let single = (verdict_iff r parsed.options.run_program).2 in ground arith

  run_parsed-le :
      (parsed : ParseResult) (s : w.State) → (run_parsed b w parsed s).0.status ≤ exit_not_analyzed
  unfolding run_parsed
  run_parsed-le parsed s = ground (arith, run_accepted-le parsed s)

  -- Whatever the arguments, the exit status is one of 0, 1 and 2. Where the help or the version is
  -- asked for it is 0, and nothing is changed.
  pub main-le :
      (argv : List Bytes) (s : w.State)
      → ((main b w argv s).0.status ≤ exit_not_analyzed)
        × (((parse_args argv).help ≡ true) ⊎ ((parse_args argv).version ≡ true)
            → ((main b w argv s).0.status ≡ 0) × ((main b w argv s).1 ≡ s))
  unfolding main
  main-le argv s =
      let s' = (use_shipped_clang_headers w (w.main_executable s) s).1 in
      let linked = add_link_arguments b w (parse_args argv) (w.main_executable s) s' in
      (ground (arith, run_parsed-le linked s'), λ h. ground (arith, h))
