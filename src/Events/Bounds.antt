-- ===== src/Events/Bounds.antt =====
-- Bounds of the counters of a summary, and of its lines.

use coretrace_runtime_analyz.Base.{
  Bool, Bytes, List, [], arith, count, count-le-length, false, keep, length, true, u64_mod, ℕ, ◌+◌,
  ◌<◌, ◌∷◌, ◌≡◌, ◌≤◌,
}
use coretrace_runtime_analyz.Text.Lines.{lines, onto_first}
use coretrace_runtime_analyz.Events.{
  collect_events, is_allocation, is_bounds_error, is_coretrace_line, is_entry, is_error, is_exit,
  is_leak_report, is_vtable_event, is_warning, strip_ansi, strip_loop,
}
use coretrace_runtime_analyz.Events.Summary.{collect_events-kept, counted}

count_mono :
    (p q : Bytes → Bool)
    → ((x : Bytes) → p x ≡ true → q x ≡ true)
    → (xs : List Bytes) → count p xs ≤ count q xs
count_mono p q h [] = omega arith
count_mono p q h (x ∷ xs) = ground (arith, h x, count_mono p q h xs)

leak-is_allocation : (x : Bytes) → is_leak_report x ≡ true → is_allocation x ≡ true
unfolding is_leak_report is_allocation
leak-is_allocation x h = ground arith

length-keep : (p : Bytes → Bool) (xs : List Bytes) → length (keep p xs) ≤ length xs
length-keep p [] = omega arith
length-keep p (x ∷ xs) = ground (arith, length-keep p xs)

length-onto_first : (x : ℕ) (ls : List Bytes) → length (onto_first x ls) ≤ length ls + 1
length-onto_first x [] = omega arith
length-onto_first x (l ∷ ls) = omega arith

length-lines : (text : Bytes) → length (lines text) ≤ length text
unfolding lines
length-lines [] = omega arith
length-lines (x ∷ xs) = ground (arith, length-lines xs, length-onto_first x (lines xs))

length-strip_loop : (inside : Bool) (text : Bytes) → length (strip_loop inside text) ≤ length text
unfolding strip_loop
length-strip_loop inside [] = omega arith
length-strip_loop true (c ∷ cs) =
    ground (arith, length-strip_loop true cs, length-strip_loop false cs)
length-strip_loop false (c ∷ []) = omega arith
length-strip_loop false (c ∷ d ∷ cs) =
    ground (arith, length-strip_loop true cs, length-strip_loop false (d ∷ cs))

length-strip_ansi : (text : Bytes) → length (strip_ansi text) ≤ length text
unfolding strip_ansi
length-strip_ansi text = length-strip_loop false text

-- A count that is below 2 ^ 64 is not reduced.
counted_exact :
    (p : Bytes → Bool) (xs : List Bytes) → length xs < u64_mod → counted p xs ≡ count p xs
counted_exact p xs h = omega (arith, count-le-length p xs)

-- For a text of less than 2 ^ 64 bytes no counter wraps around: each is exactly the number of the
-- CoreTrace lines that pass its test, and the first is the number of all of them, which is at most
-- the number of bytes. So each counter is at most the number of lines, and there are no more leak
-- reports than allocation events.
pub collect_events-bounds :
    (text : Bytes) (events : List Bytes)
    → length text < u64_mod
    → let s = (collect_events text events).0 in
      let kept = keep is_coretrace_line (lines (strip_ansi text)) in
      (s.coretrace_lines ≡ length kept)
      × (s.entry_events ≡ count is_entry kept)
      × (s.exit_events ≡ count is_exit kept)
      × (s.allocation_events ≡ count is_allocation kept)
      × (s.bounds_errors ≡ count is_bounds_error kept)
      × (s.leak_reports ≡ count is_leak_report kept)
      × (s.vtable_events ≡ count is_vtable_event kept)
      × (s.warnings ≡ count is_warning kept)
      × (s.errors ≡ count is_error kept)
      × (length kept ≤ length text)
      × (s.leak_reports ≤ s.allocation_events)
      × (s.entry_events ≤ s.coretrace_lines)
      × (s.exit_events ≤ s.coretrace_lines)
      × (s.allocation_events ≤ s.coretrace_lines)
      × (s.bounds_errors ≤ s.coretrace_lines)
      × (s.vtable_events ≤ s.coretrace_lines)
      × (s.warnings ≤ s.coretrace_lines)
      × (s.errors ≤ s.coretrace_lines)
collect_events-bounds text events h =
    let kept = keep is_coretrace_line (lines (strip_ansi text)) in
    let few : length kept ≤ length text = omega (
      arith,
      length-keep is_coretrace_line (lines (strip_ansi text)),
      length-lines (strip_ansi text),
      length-strip_ansi text,
    ) in
    let exact = λ (p : Bytes → Bool). counted_exact p kept (omega (arith, few, h)) in
    rw (collect_events-kept text events) (
      omega (arith, few, h),
      exact is_entry,
      exact is_exit,
      exact is_allocation,
      exact is_bounds_error,
      exact is_leak_report,
      exact is_vtable_event,
      exact is_warning,
      exact is_error,
      few,
      omega (
        arith,
        count_mono is_leak_report is_allocation leak-is_allocation kept,
        count-le-length is_allocation kept,
        few,
        h,
      ),
      omega (arith, count-le-length is_entry kept, few, h),
      omega (arith, count-le-length is_exit kept, few, h),
      omega (arith, count-le-length is_allocation kept, few, h),
      omega (arith, count-le-length is_bounds_error kept, few, h),
      omega (arith, count-le-length is_vtable_event kept, few, h),
      omega (arith, count-le-length is_warning kept, few, h),
      omega (arith, count-le-length is_error kept, few, h),
    )
