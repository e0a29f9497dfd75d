-- ===== src/Process/Returns.antt =====
-- When the parent's part of `RunProcess` returns, and what it has done then.

use coretrace_runtime_analyz.World.{ProcessResult}
use coretrace_runtime_analyz.Base.{
  All, Bool, Bool-cases, List, Option, [], any, arith, false, inl, inr, none, refl, some, true,
  ◌++◌, ◌||◌, ◌∙◌, ◌∷◌, ◌≡◌,
}
use coretrace_runtime_analyz.Process.{
  Call, Reading, SelectAnswer, WaitAnswer, changed_otherwise, close_rest, exited, read_loop,
  rest_of, run_parent, select_round, signaled, started, stderr_end, stdout_end, wait_failed,
  wait_interrupted, wait_loop,
}
use coretrace_runtime_analyz.Process.Calls.{
  Returns, Returns-imp, Returns-map, is_kill, replay, replay-append,
}
use coretrace_runtime_analyz.Process.Rounds.{
  GoesOn, InOrder, ReadsStop, breaks, select_round-InOrder,
}
use mathlib.Core.Option

read_loop-InOrder :
    (selects : List SelectAnswer) (l : Reading)
    → All ReadsStop selects
    → any breaks selects ≡ true
    → InOrder l
    → Returns InOrder (read_loop selects l)
unfolding read_loop
read_loop-InOrder [] l h b u = absurd (cc)
read_loop-InOrder (answer ∷ selects) l h b u = elim (Bool-cases (l.stdout_open || l.stderr_open)) [
  | inr e ↦ rw (read_loop, e) u
  | inl e ↦
      rw (read_loop, e)
        (read_round (select_round answer l) (select_round-InOrder answer l h.0 u)
          (λ l' v g. read_loop-InOrder selects l' h.1 (ground (arith, g, b)) v))
]
  where
    read_round :
        (round : Option (Bool × Reading))
        → Returns (GoesOn answer) round
        → ((l' : Reading)
            → InOrder l'
            → breaks answer ≡ false
            → Returns InOrder (read_loop selects l'))
        → Returns InOrder (elim round [
          | none ↦ none
          | some (goes_on, l') ↦ elim goes_on [ false ↦ some l' | true ↦ read_loop selects l' ]
        ])
    read_round none v go = v
    read_round (some (false, l')) v go = v.0
    read_round (some (true, l')) v go = go l' v.0 (v.1 refl)

-- An answer of `waitpid` behind which the wait ends.
abbrev pub ends_wait : WaitAnswer → Bool
ends_wait wait_interrupted = false
ends_wait _ = true

wait_loop-Returns :
    (waits : List WaitAnswer) (l : Reading)
    → any ends_wait waits ≡ true
    → Returns (λ result. result.timed_out ≡ l.timed_out) (wait_loop waits l)
unfolding wait_loop
wait_loop-Returns [] l h = absurd (cc)
wait_loop-Returns (wait_interrupted ∷ waits) l h = wait_loop-Returns waits l h
wait_loop-Returns (wait_failed message ∷ waits) l h = refl
wait_loop-Returns (exited code ∷ waits) l h = refl
wait_loop-Returns (signaled signal ∷ waits) l h = refl
wait_loop-Returns (changed_otherwise ∷ waits) l h = refl

-- Each read end was closed once and not used behind that, and the group was killed exactly if
-- the result says that the program timed out.
abbrev pub CleanedUp : ProcessResult × List Call → Type 0
CleanedUp (result, calls) =
    (replay stdout_end true calls ≡ some false)
    × (replay stderr_end true calls ≡ some false)
    × (any is_kill calls ≡ result.timed_out)

rest_closes :
    (out err : Bool)
    → (replay stdout_end out (rest_of out err) ≡ some false)
      × (replay stderr_end err (rest_of out err) ≡ some false)
      × (any is_kill (rest_of out err) ≡ false)
rest_closes true true = (refl, refl, refl)
rest_closes true false = (refl, refl, refl)
rest_closes false true = (refl, refl, refl)
rest_closes false false = (refl, refl, refl)

any_append : (xs ys : List Call) → any is_kill (xs ++ ys) ≡ (any is_kill xs || any is_kill ys)
any_append [] ys = ground arith
any_append (x ∷ xs) ys = ground (arith, any_append xs ys)

close_rest-CleanedUp :
    (l : Reading) (result : ProcessResult)
    → InOrder l
    → result.timed_out ≡ l.timed_out
    → CleanedUp (result, (close_rest l).calls)
unfolding close_rest
close_rest-CleanedUp l result u t =
    let (out, err, kill) = rest_closes l.stdout_open l.stderr_open in
    (
      replay-append stdout_end true l.stdout_open l.calls (rest_of l.stdout_open l.stderr_open) u.0
          ∙ out,
      replay-append stderr_end true l.stderr_open l.calls (rest_of l.stdout_open l.stderr_open) u.1
          ∙ err,
      any_append l.calls (rest_of l.stdout_open l.stderr_open) ∙ ground (arith, kill, u.2, t),
    )

-- If every reading comes to a stop, `select` at some point fails or passes the deadline, and the
-- wait at some point ends, the parent's part of `RunProcess` returns. By then it has closed each
-- read end exactly once, has used neither behind that, and has killed the process group exactly if
-- the result says that the program timed out.
pub run_parent-CleanedUp :
    (selects : List SelectAnswer) (waits : List WaitAnswer)
    → All ReadsStop selects
    → any breaks selects ≡ true
    → any ends_wait waits ≡ true
    → Returns CleanedUp (run_parent selects waits)
unfolding run_parent
run_parent-CleanedUp selects waits h b e =
    finish (read_loop selects started) (read_loop-InOrder selects started h b (refl, refl, refl))
  where
    finish :
        (read : Option Reading)
        → Returns InOrder read
        → Returns CleanedUp (elim read [
          | none ↦ none
          | some l ↦ Option.map (λ result. (result, (close_rest l).calls)) (wait_loop waits l)
        ])
    finish none u = u
    finish (some l) u =
        Returns-map CleanedUp (λ result. (result, (close_rest l).calls)) (wait_loop waits l)
          (Returns-imp _ _ (λ result t. close_rest-CleanedUp l result u t) _
            (wait_loop-Returns waits l e))
