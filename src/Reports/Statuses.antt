-- ===== src/Reports/Statuses.antt =====
-- The statuses of a batch's report against its counters.

use coretrace_runtime_analyz.Analyzer.Each.{run_batch-keeps}
use coretrace_runtime_analyz.World.{World}
use coretrace_runtime_analyz.Base.{
  Bool, Bool-cases, Bytes, List, [], ap, arith, count, false, inl, inr, is_empty, not, refl, true,
  u64_mod, ℕ, ◌%◌, ◌&&◌, ◌++◌, ◌+◌, ◌∷◌, ◌≡◌,
}
use coretrace_runtime_analyz.Types.{AnalyzerOptions, AnalyzerResult, BatchResult, TestFileResult}
use coretrace_runtime_analyz.Events.{bump}
use coretrace_runtime_analyz.Analyzer.{BatchState, add_test, finish_batch, is_zero, run_batch}
use coretrace_runtime_analyz.Analyzer.Runs.{IsResult, IsResult-output_path}
use coretrace_runtime_analyz.Reports.{compile_failed, runtime_failed, status_of, timed_out_status}

abbrev pub is_compile_failed : TestFileResult → Bool
is_compile_failed test = elim (status_of test.analyzer_result) [ compile_failed ↦ true | _ ↦ false ]

abbrev pub is_timed_out : TestFileResult → Bool
is_timed_out test = elim (status_of test.analyzer_result) [ timed_out_status ↦ true | _ ↦ false ]

-- Failed, by its exit code.
abbrev pub is_exit_failed : TestFileResult → Bool
is_exit_failed test = elim (status_of test.analyzer_result) [
  | runtime_failed ↦ not (is_zero test.analyzer_result.exit_code)
  | _ ↦ false
]

count-append :
    (p : TestFileResult → Bool) (ts us : List TestFileResult)
    → count p (ts ++ us) ≡ count p ts + count p us
count-append p [] us = omega arith
count-append p (t ∷ ts) us = omega (arith, count-append p ts us)

-- A counter that counts the tests with a status.
abbrev Counts : ℕ → (TestFileResult → Bool) → List TestFileResult → Type 0
Counts counter p ts = counter ≡ count p ts % u64_mod

bump-Counts :
    (counter : ℕ) (p : TestFileResult → Bool) (ts : List TestFileResult) (t : TestFileResult)
    (flag : Bool)
    → Counts counter p ts
    → p t ≡ flag
    → Counts (bump flag counter) p (ts ++ t ∷ [])
bump-Counts counter p ts t flag h e = ground (arith, count-append p ts (t ∷ []))

-- The counters of a batch against the statuses of its tests.
pub record IsCounted (r : BatchResult) : Type 0 where
  pub compiled : r.compile_failures ≡ count is_compile_failed r.tests % u64_mod
  pub timed : r.timeouts ≡ count is_timed_out r.tests % u64_mod
  pub exited : r.runtime_failures ≡ count is_exit_failed r.tests % u64_mod

-- The status of a result whose parts agree, by what the loop counts.
flags :
    (run_program : Bool) (source : Bytes) (r : AnalyzerResult)
    → IsResult run_program r
    → let t : TestFileResult = record { source_path = source; analyzer_result = r } in
      (is_compile_failed t ≡ not r.compile_success)
      × (is_timed_out t ≡ (r.compile_success && r.timed_out))
      × (is_exit_failed t ≡ (r.compile_success && (not r.timed_out && not (is_zero r.exit_code))))
unfolding status_of is_zero
flags run_program source r i =
    let zero_exit : r.success ≡ true → is_zero r.exit_code ≡ true =
      λ h. ap is_zero (i.success_exit h) in
    (ground arith, ground arith, ground (arith, zero_exit))

-- What the loop keeps.
abbrev KeepsCount : BatchState → Type 0
KeepsCount b = IsCounted b.batch

add_test-KeepsCount :
    (options : AnalyzerOptions) (b : BatchState) (source output_path : Bytes) (r : AnalyzerResult)
    → IsResult options.run_program r
    → KeepsCount b
    → KeepsCount (add_test options source output_path b r)
unfolding add_test
add_test-KeepsCount options b source output_path r i h =
    elim (Bool-cases (is_empty r.output_path)) [
      | inl e ↦
          let (c, t, x) = flags options.run_program source _ (IsResult-output_path i output_path) in
          rw (add_test, e)
            (record {
              compiled =
                  bump-Counts b.batch.compile_failures is_compile_failed b.batch.tests _ _
                    h.compiled c;
              timed = bump-Counts b.batch.timeouts is_timed_out b.batch.tests _ _ h.timed t;
              exited =
                  bump-Counts b.batch.runtime_failures is_exit_failed b.batch.tests _ _ h.exited x;
            })
      | inr e ↦
          let (c, t, x) = flags options.run_program source r i in
          rw (add_test, e)
            (record {
              compiled =
                  bump-Counts b.batch.compile_failures is_compile_failed b.batch.tests _ _
                    h.compiled c;
              timed = bump-Counts b.batch.timeouts is_timed_out b.batch.tests _ _ h.timed t;
              exited =
                  bump-Counts b.batch.runtime_failures is_exit_failed b.batch.tests _ _ h.exited x;
            })
    ]

-- The counters of a batch, which are 64-bit, agree with the statuses that its report prints:
-- `compile_failures` counts the tests with COMPILE, `timeouts` those with TIMEOUT, and
-- `runtime_failures` those with RUNTIME whose exit code is not 0.
pub run_batch-IsCounted :
    (w : World) (options : AnalyzerOptions) (s : w.State) → IsCounted (run_batch w options s).0
unfolding finish_batch
run_batch-IsCounted w options =
    run_batch-keeps w options KeepsCount (add_test-KeepsCount options) IsCounted
      (λ messages. record { compiled = refl; timed = refl; exited = refl })
      (λ messages. record { compiled = refl; timed = refl; exited = refl })
      (λ b h. record { compiled = h.compiled; timed = h.timed; exited = h.exited })
