-- ===== src/Events/Summary.antt =====
-- What `CollectEvents` counts, and how summaries merge.

use coretrace_runtime_analyz.Text.Lines.{lines}
use coretrace_runtime_analyz.Base.{
  Bool, Bool-cases, Bytes, List, [], add64, append-nil, append_assoc, arith, count, inl, inr, keep,
  length, length-append, refl, u64_mod, ℕ, ◌%◌, ◌++◌, ◌+◌, ◌∙◌, ◌∷◌, ◌≡◌,
}
use coretrace_runtime_analyz.Types.{CollectionSummary}
use coretrace_runtime_analyz.Events.{
  bump, collect_events, collect_lines, is_allocation, is_bounds_error, is_coretrace_line, is_entry,
  is_error, is_exit, is_leak_report, is_vtable_event, is_warning, merge_summaries, strip_ansi,
  update_summary,
}

-- The number of lines that pass a test, as a 64-bit counter.
abbrev pub counted : (Bytes → Bool) → List Bytes → ℕ
counted test events = count test events % u64_mod

-- The counters of a list of events.
abbrev pub summary_of : List Bytes → CollectionSummary
summary_of events = record {
  coretrace_lines = length events % u64_mod;
  entry_events = counted is_entry events;
  exit_events = counted is_exit events;
  allocation_events = counted is_allocation events;
  bounds_errors = counted is_bounds_error events;
  leak_reports = counted is_leak_report events;
  vtable_events = counted is_vtable_event events;
  warnings = counted is_warning events;
  errors = counted is_error events;
}

count-append :
    (p : Bytes → Bool) (xs ys : List Bytes) → count p (xs ++ ys) ≡ count p xs + count p ys
count-append p [] ys = omega arith
count-append p (x ∷ xs) ys = omega (arith, count-append p xs ys)

counted-append :
    (p : Bytes → Bool) (xs ys : List Bytes)
    → counted p (xs ++ ys) ≡ add64 (counted p xs) (counted p ys)
counted-append p xs ys = omega (arith, count-append p xs ys)

-- The summary of two lists of events, one behind the other, is the merge of their summaries:
-- the merged counters are those of the events of both streams.
pub merge_summaries-append :
    (xs ys : List Bytes) → summary_of (xs ++ ys) ≡ merge_summaries (summary_of xs) (summary_of ys)
unfolding merge_summaries
merge_summaries-append xs ys = λ i. record {
  coretrace_lines = lines_count i;
  entry_events = counted-append is_entry xs ys i;
  exit_events = counted-append is_exit xs ys i;
  allocation_events = counted-append is_allocation xs ys i;
  bounds_errors = counted-append is_bounds_error xs ys i;
  leak_reports = counted-append is_leak_report xs ys i;
  vtable_events = counted-append is_vtable_event xs ys i;
  warnings = counted-append is_warning xs ys i;
  errors = counted-append is_error xs ys i;
}
  where
    lines_count : length (xs ++ ys) % u64_mod ≡ add64 (length xs % u64_mod) (length ys % u64_mod)
    lines_count = omega (arith, length-append xs ys)

bump-counted :
    (p : Bytes → Bool) (xs : List Bytes) (x : Bytes)
    → bump (p x) (counted p xs) ≡ counted p (xs ++ x ∷ [])
bump-counted p xs x = ground (arith, count-append p xs (x ∷ []))

-- Counting one more event.
update_summary-snoc :
    (xs : List Bytes) (line : Bytes)
    → update_summary line
        (record (summary_of xs) { coretrace_lines = add64 (length xs % u64_mod) 1 })
      ≡ summary_of (xs ++ line ∷ [])
unfolding update_summary
update_summary-snoc xs line = λ i. record {
  coretrace_lines = lines_count i;
  entry_events = bump-counted is_entry xs line i;
  exit_events = bump-counted is_exit xs line i;
  allocation_events = bump-counted is_allocation xs line i;
  bounds_errors = bump-counted is_bounds_error xs line i;
  leak_reports = bump-counted is_leak_report xs line i;
  vtable_events = bump-counted is_vtable_event xs line i;
  warnings = bump-counted is_warning xs line i;
  errors = bump-counted is_error xs line i;
}
  where
    lines_count : add64 (length xs % u64_mod) 1 ≡ length (xs ++ line ∷ []) % u64_mod
    lines_count = omega (arith, length-append xs (line ∷ []))

collect_lines-kept :
    (ls seen events : List Bytes)
    → collect_lines ls (summary_of seen) events
      ≡ (summary_of (seen ++ keep is_coretrace_line ls), events ++ keep is_coretrace_line ls)
unfolding collect_lines
collect_lines-kept [] seen events = rw (append-nil seen, append-nil events) refl
collect_lines-kept (l ∷ ls) seen events = elim (Bool-cases (is_coretrace_line l)) [
  | inl e ↦
      rw (collect_lines, e, update_summary-snoc seen l)
        (collect_lines-kept ls (seen ++ l ∷ []) (events ++ l ∷ [])
          ∙ rw (append_assoc seen (l ∷ []), append_assoc events (l ∷ [])) refl)
  | inr e ↦ rw (collect_lines, e) (collect_lines-kept ls seen events)
]

-- `CollectEvents` puts the CoreTrace lines of the stripped text behind the events it is given, in
-- their order, and its summary counts exactly those lines, each counter by its own test, modulo
-- 2 ^ 64.
pub collect_events-kept :
    (text : Bytes) (events : List Bytes)
    → let kept = keep is_coretrace_line (lines (strip_ansi text)) in
      collect_events text events ≡ (summary_of kept, events ++ kept)
unfolding collect_events
collect_events-kept text events = collect_lines-kept (lines (strip_ansi text)) [] events
