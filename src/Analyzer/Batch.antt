-- ===== src/Analyzer/Batch.antt =====
-- The results of a batch.

use coretrace_runtime_analyz.Analyzer.EachRun.{each_run, run_tests-each_run}
use coretrace_runtime_analyz.World.{World}
use coretrace_runtime_analyz.Base.Lists.{All, All-append, is_empty}
use coretrace_runtime_analyz.Base.{
  Bool, Bool-cases, Bytes, List, [], ap, append-nil, append_assoc, arith, inl, inr, refl, sym, true,
  ℕ, ◌++◌, ◌↔◌, ◌∙◌, ◌∷◌, ◌≡◌, ◌≢◌, ◌≤◌,
}
use coretrace_runtime_analyz.Types.{AnalyzerOptions, AnalyzerResult, TestFileResult, default_batch}
use coretrace_runtime_analyz.Events.{exit_no_findings, exit_not_analyzed, merge_summaries, verdict}
use coretrace_runtime_analyz.Events.Summary.{merge_summaries-append, summary_of}
use coretrace_runtime_analyz.Analyzer.{
  BatchState, add_test, finish_batch, max_verdict, options_of_test, run_analyzer, run_sources,
  run_test, run_tests,
}
use mathlib.Core.Path.{subst}
use coretrace_runtime_analyz.Events.Verdict.{verdict_iff}
use coretrace_runtime_analyz.Analyzer.Runs.{run_analyzer_parts}

abbrev pub source_paths : List TestFileResult → List Bytes
source_paths [] = []
source_paths (test ∷ tests) = test.source_path ∷ source_paths tests

abbrev pub all_events : List TestFileResult → List Bytes
all_events [] = []
all_events (test ∷ tests) = test.analyzer_result.coretrace_events ++ all_events tests

source_paths-append :
    (ts us : List TestFileResult) → source_paths (ts ++ us) ≡ source_paths ts ++ source_paths us
source_paths-append [] us = refl
source_paths-append (t ∷ ts) us = ap (λ l. t.source_path ∷ l) (source_paths-append ts us)

all_events-append :
    (ts us : List TestFileResult) → all_events (ts ++ us) ≡ all_events ts ++ all_events us
all_events-append [] us = refl
all_events-append (t ∷ ts) us =
    ap (λ l. t.analyzer_result.coretrace_events ++ l) (all_events-append ts us)
    ∙ sym (append_assoc t.analyzer_result.coretrace_events (all_events ts) (all_events us))

All-front : {A : Type 0} (P : A → Type 0) (xs ys : List A) → All P (xs ++ ys) → All P xs
All-front P [] ys h = tt
All-front P (x ∷ xs) ys h = (h.0, All-front P xs ys h.1)

All-back : {A : Type 0} (P : A → Type 0) (xs ys : List A) → All P (xs ++ ys) → All P ys
All-back P [] ys h = h
All-back P (x ∷ xs) ys h = All-back P xs ys h.1

-- A test whose verdict is 0.
abbrev pub Quiet : Bool → TestFileResult → Type 0
Quiet run_program test = verdict test.analyzer_result run_program ≡ exit_no_findings

-- What holds between the rounds, of the sources done so far.
pub record IsBatch (run_program : Bool) (done : List Bytes) (b : BatchState) : Type 0 where
  pub in_order : source_paths b.batch.tests ≡ done
  pub counts : b.batch.summary ≡ summary_of (all_events b.batch.tests)
  pub worst_quiet : b.worst ≡ exit_no_findings → All (Quiet run_program) b.batch.tests
  pub quiet_worst : All (Quiet run_program) b.batch.tests → b.worst ≡ exit_no_findings
  pub worst_le : b.worst ≤ exit_not_analyzed

max_verdict-zero : (a b : ℕ) → max_verdict a b ≡ 0 → (a ≡ 0) × (b ≡ 0)
max_verdict-zero a b h = ground arith

max_verdict-le : (a b n : ℕ) → a ≤ n → b ≤ n → max_verdict a b ≤ n
max_verdict-le a b n h k = ground arith

-- A test is added at the end of the batch.
grown-IsBatch :
    (run_program : Bool) (done : List Bytes) (b : BatchState)
    → IsBatch run_program done b
    → (test : TestFileResult)
    → test.analyzer_result.summary ≡ summary_of test.analyzer_result.coretrace_events
    → (b' : BatchState) → b'.batch.tests ≡ b.batch.tests ++ test ∷ []
    → b'.batch.summary ≡ merge_summaries b.batch.summary test.analyzer_result.summary
    → b'.worst ≡ max_verdict b.worst (verdict test.analyzer_result run_program)
    → IsBatch run_program (done ++ test.source_path ∷ []) b'
grown-IsBatch run_program done b i test counted b' ts ss ws =
    let all : All (Quiet run_program) b'.batch.tests
        → (b.worst ≡ 0) × (verdict test.analyzer_result run_program ≡ 0) =
      λ h.
        let h' = subst (All (Quiet run_program)) ts h in
        (
          i.quiet_worst (All-front (Quiet run_program) b.batch.tests (test ∷ []) h'),
          (All-back (Quiet run_program) b.batch.tests (test ∷ []) h').0,
        ) in
    record {
      in_order =
          ap source_paths ts
          ∙ source_paths-append b.batch.tests (test ∷ [])
          ∙ ap (λ l. l ++ test.source_path ∷ []) i.in_order;
      counts =
          ss
          ∙ (rw (i.counts, counted) refl)
          ∙ sym (
              merge_summaries-append (all_events b.batch.tests)
                test.analyzer_result.coretrace_events)
          ∙ ap summary_of (
              sym (
                ap all_events ts
                ∙ all_events-append b.batch.tests (test ∷ [])
                ∙ ap (λ l. all_events b.batch.tests ++ l)
                    (append-nil test.analyzer_result.coretrace_events)));
      worst_quiet = λ h.
          let (z, v) =
            max_verdict-zero b.worst (verdict test.analyzer_result run_program) (sym ws ∙ h) in
          subst (All (Quiet run_program)) (sym ts)
            (All-append (Quiet run_program) b.batch.tests (test ∷ []) (i.worst_quiet z) (v, tt));
      quiet_worst = λ h. let (z, v) = all h in ws ∙ (rw (z, v) refl);
      worst_le =
          subst (λ n. n ≤ exit_not_analyzed) (sym ws)
            (max_verdict-le b.worst _ exit_not_analyzed i.worst_le
              (verdict_iff test.analyzer_result run_program).2);
    }

add_test-IsBatch :
    (options : AnalyzerOptions) (source output_path : Bytes) (done : List Bytes) (b : BatchState)
    (r : AnalyzerResult)
    → IsBatch options.run_program done b
    → r.summary ≡ summary_of r.coretrace_events
    → IsBatch options.run_program (done ++ source ∷ []) (add_test options source output_path b r)
unfolding add_test
add_test-IsBatch options source output_path done b r i counted =
    elim (Bool-cases (is_empty r.output_path)) [
      | inl e ↦
          grown-IsBatch options.run_program done b i
            (record {
              source_path = source;
              analyzer_result = record r { output_path = output_path };
            })
            counted _ (rw (add_test, e) refl) (rw (add_test, e) refl) (rw (add_test, e) refl)
      | inr e ↦
          grown-IsBatch options.run_program done b i
            (record { source_path = source; analyzer_result = r }) counted _ (rw (add_test, e) refl)
            (rw (add_test, e) refl) (rw (add_test, e) refl)
    ]

module _ (w : World) (options : AnalyzerOptions) where
  run_tests-IsBatch :
      (sources done : List Bytes) (b : BatchState) (s : w.State)
      → IsBatch options.run_program done b
      → IsBatch options.run_program (done ++ sources) (run_tests w options sources b s).0
  unfolding run_tests run_test
  run_tests-IsBatch [] done b s i =
      subst (λ l. IsBatch options.run_program l b) (sym (append-nil done)) i
  run_tests-IsBatch (source ∷ sources) done b s i =
      let o = options_of_test w options source s in
      let ran = run_analyzer w o (w.remove o.output_path s) in
      let b' = add_test options source o.output_path b ran.0 in
      let i' =
        add_test-IsBatch options source o.output_path done b ran.0 i
          (run_analyzer_parts w o (w.remove o.output_path s)).summary_counts in
      subst (λ l. IsBatch options.run_program l (run_tests w options sources b' ran.1).0)
        (append_assoc done (source ∷ []) sources)
        (run_tests-IsBatch sources (done ++ source ∷ []) b' ran.1 i')

  finish_batch-le :
      (b : BatchState)
      → b.worst ≤ exit_not_analyzed
      → (finish_batch options b).exit_code ≤ exit_not_analyzed
  unfolding finish_batch
  finish_batch-le b le = ground arith

  finish_batch-zero :
      (b : BatchState)
      → (b.worst ≡ exit_no_findings → All (Quiet options.run_program) b.batch.tests)
      → (finish_batch options b).exit_code ≡ exit_no_findings
      → All (Quiet options.run_program) b.batch.tests
        × (options.strict_test_exit ≡ true → b.batch.runtime_failures ≡ 0)
  unfolding finish_batch
  finish_batch-zero b quiet h = ground arith

  finish_batch-back :
      (b : BatchState)
      → (All (Quiet options.run_program) b.batch.tests → b.worst ≡ exit_no_findings)
      → All (Quiet options.run_program) b.batch.tests
        × (options.strict_test_exit ≡ true → b.batch.runtime_failures ≡ 0)
      → (finish_batch options b).exit_code ≡ exit_no_findings
  unfolding finish_batch
  finish_batch-back b worst h = ground (arith, worst h.0)

  finish_batch-exit :
      (b : BatchState) (done : List Bytes)
      → IsBatch options.run_program done b
      → let r = finish_batch options b in
        (source_paths r.tests ≡ done)
        × (r.summary ≡ summary_of (all_events r.tests))
        × (r.exit_code ≤ exit_not_analyzed)
        × ((r.exit_code ≡ exit_no_findings) ↔ (
            All (Quiet options.run_program) r.tests
            × (options.strict_test_exit ≡ true → r.runtime_failures ≡ 0)))
  unfolding finish_batch
  finish_batch-exit b done i =
      let le = i.worst_le in
      let quiet = i.worst_quiet in
      let worst = i.quiet_worst in
      (
        i.in_order,
        i.counts,
        finish_batch-le b le,
        (finish_batch-zero b quiet, finish_batch-back b worst),
      )

  -- A batch runs each of its sources once, in their order: its tests are those of `each_run`, which
  -- removes what stands at a source's output path, calls `Run` with the options of that source, and
  -- goes on in the state that this leaves. Its summary is that of the events of all its tests. Its
  -- exit code is at most 2, and it is 0 exactly when the verdict of each test is 0 and, if the
  -- programs' exit codes count, no test failed at run time.
  pub run_sources-exit :
      (sources : List Bytes) (messages : Bytes) (s : w.State)
      → sources ≢ []
      → let (r, s') = run_sources w options sources messages s in
        (r.tests ≡ (each_run w options sources s).0)
        × (s' ≡ (each_run w options sources s).1)
        × (source_paths r.tests ≡ sources)
        × (r.summary ≡ summary_of (all_events r.tests))
        × (r.exit_code ≤ exit_not_analyzed)
        × ((r.exit_code ≡ exit_no_findings) ↔ (
            All (Quiet options.run_program) r.tests
            × (options.strict_test_exit ≡ true → r.runtime_failures ≡ 0)))
  unfolding run_sources finish_batch
  run_sources-exit [] messages s ne = absurd (ne refl)
  run_sources-exit (source ∷ sources) messages s ne =
      let b : BatchState = record {
        batch = record default_batch { diagnostics = messages };
        worst = exit_no_findings;
      } in
      let i = run_tests-IsBatch (source ∷ sources) [] b s (record {
        in_order = refl;
        counts = refl;
        worst_quiet = λ _. tt;
        quiet_worst = λ _. refl;
        worst_le = omega arith;
      }) in
      let (order, counts, le, exact) = finish_batch-exit _ _ i in
      let (tests, state) = run_tests-each_run w options (source ∷ sources) b s in
      (tests, state, order, counts, le, exact)
