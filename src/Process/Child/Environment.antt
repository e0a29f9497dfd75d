-- ===== src/Process/Child/Environment.antt =====
-- The environment that the program is given.

use coretrace_runtime_analyz.Args.Parse.Invariant.{ValidEnvironment, parse_args-IsParsed}
use coretrace_runtime_analyz.World.{ProcessSpec}
use coretrace_runtime_analyz.Process.Child.{
  Environment, ExecAnswer, assign, assign_all, becomes, exec_failed, executed, no_entry, run_child,
}
use coretrace_runtime_analyz.Args.Parse.{is_valid_assignment, parse_args}
use coretrace_runtime_analyz.Base.{
  Bool, Bytes, List, Option, Option-cases, [], ap, arith, codes, drop, false, if◌then◌else◌, inl,
  inr, not, refl, some, suc, sym, take, true, zero, ℕ, ◌+◌, ◌==◌, ◌∙◌, ◌∷◌, ◌≡◌, ◌≢◌,
}
use coretrace_runtime_analyz.Text.{bytes_eq, find, starts_with}
use mathlib.Core.Option
use mathlib.Core.Path.{subst}

-- The text in front of the first equals sign, and the text behind it.
abbrev pub split_at_equals : Bytes → Bytes × Bytes
split_at_equals [] = ([], [])
split_at_equals (c ∷ cs) =
    let (name, value) = split_at_equals cs in if c == b'=' then ([], cs) else (c ∷ name, value)

-- The value that a name has behind assignments, looking at the last one first.
abbrev pub last_value : List Bytes → Bytes → Option Bytes → Option Bytes
last_value [] name inherited = inherited
last_value (assignment ∷ assignments) name inherited =
    let (n, value) = split_at_equals assignment in
    last_value assignments name (if bytes_eq n name then some value else inherited)

find_cons :
    (c : ℕ) (cs : Bytes)
    → find (c ∷ cs) (codes "=")
      ≡ (if c == b'=' then some 0 else Option.map suc (find cs (codes "=")))
unfolding find starts_with
find_cons c cs = ground arith

find-split :
    (a : Bytes) (eq : ℕ)
    → find a (codes "=") ≡ some eq
    → (take eq a ≡ (split_at_equals a).0) × (drop (suc eq) a ≡ (split_at_equals a).1)
unfolding Option.map
find-split [] eq h = unfold find starts_with in cc
find-split (c ∷ cs) zero h =
    let first : (c == b'=') ≡ true = ground (arith, find_cons c cs, h) in rw first (refl, refl)
find-split (c ∷ cs) (suc eq) h =
    let later : find cs (codes "=") ≡ some eq = ground (arith, find_cons c cs, h) in
    let other : (c == b'=') ≡ false = ground (arith, find_cons c cs, h) in
    let (name, value) = find-split cs eq later in rw other (ap (λ t. c ∷ t) name, value)

assign_lem :
    (a name : Bytes) (env : Environment)
    → is_valid_assignment a ≡ true
    → assign a env name
      ≡ (if bytes_eq (split_at_equals a).0 name then some (split_at_equals a).1 else env name)
unfolding assign is_valid_assignment
assign_lem a name env h = elim (Option-cases (find a (codes "="))) [
  | inl e ↦ absurd (ground (arith, h, e))
  | inr (eq, e) ↦
      let late : not (eq == 0) ≡ true = ground (arith, h, e) in
      let (n, value) = find-split a eq e in
      let step : eq + 1 ≡ suc eq = omega arith in rw (e, assign, late, n, step, value) refl
]

assign_all_lem :
    (as_given : List Bytes) (name : Bytes) (env : Environment)
    → ValidEnvironment as_given
    → assign_all as_given env name ≡ last_value as_given name (env name)
unfolding assign_all
assign_all_lem [] name env h = refl
assign_all_lem (a ∷ rest) name env h =
    assign_all_lem rest name (assign a env) h.1
    ∙ ap (last_value rest name) (assign_lem a name env h.0)

becomes_lem :
    (spec : ProcessSpec) (inherited : Environment) (changes : Bool) (executes : ExecAnswer)
    (executable : Bytes) (argv : List Bytes) (env : Environment)
    → run_child spec inherited changes executes ≡ becomes executable argv env
    → (executable ≡ spec.executable)
      × (argv ≡ spec.executable ∷ spec.args)
      × (env ≡ assign_all spec.environment inherited)
      × (spec.working_directory ≢ [] → changes ≡ true)
unfolding run_child
becomes_lem spec inherited changes executed executable argv env h = ground arith
becomes_lem spec inherited changes no_entry executable argv env h = absurd (ground arith)
becomes_lem spec inherited changes exec_failed executable argv env h = absurd (ground arith)

-- Where the child becomes the program, with the assignments that `ParseArgs` has read: it is the
-- executable that was given, with its path and the given arguments as its arguments; it stands in
-- the working directory, if one was given; and each variable has the value of its last `--env`, all
-- that stands behind the first equals sign, or, if it has none, the value it had before.
pub run_child-last_value :
    (command_line : List Bytes) (spec : ProcessSpec) (inherited : Environment) (changes : Bool)
    (executes : ExecAnswer)
    → spec.environment ≡ (parse_args command_line).options.environment
    → (executable : Bytes) (argv : List Bytes) (env : Environment)
    → run_child spec inherited changes executes ≡ becomes executable argv env
    → (executable ≡ spec.executable)
      × (argv ≡ spec.executable ∷ spec.args)
      × (spec.working_directory ≢ [] → changes ≡ true)
      × ((name : Bytes) → env name ≡ last_value spec.environment name (inherited name))
run_child-last_value command_line spec inherited changes executes e executable argv env h =
    let (same, args, set, moved) =
      becomes_lem spec inherited changes executes executable argv env h in
    let valid = subst ValidEnvironment (sym e) (parse_args-IsParsed command_line).environment_ok in
    (
      same,
      args,
      moved,
      λ name.
          ap (λ (f : Environment). f name) set
          ∙ assign_all_lem spec.environment name inherited valid,
    )
