-- ===== src/Process/Calls.antt =====
-- How the read ends of the pipes are used by a list of calls.

use coretrace_runtime_analyz.Base.{
  Bool, List, Option, [], any, arith, false, if◌then◌else◌, none, some, true, ◌++◌, ◌||◌, ◌∙◌, ◌∷◌,
  ◌≡◌,
}
use coretrace_runtime_analyz.Process.{
  Call, ReadAnswer, ReadEnd, closed, got, killed_group, read_from, read_interrupted, stderr_end,
  stdout_end,
}
use mathlib.Core.Option

abbrev pub same_end : ReadEnd → ReadEnd → Bool
same_end stdout_end stdout_end = true
same_end stderr_end stderr_end = true
same_end _ _ = false

-- An end before a call and after it; `none` is a use of an end that is closed.
abbrev pub use_end : ReadEnd → Bool → Call → Option Bool
use_end fd is_open (read_from g) =
    if same_end fd g then (if is_open then some true else none) else some is_open
use_end fd is_open (closed g) =
    if same_end fd g then (if is_open then some false else none) else some is_open
use_end fd is_open killed_group = some is_open

-- An end behind the calls.
abbrev pub replay : ReadEnd → Bool → List Call → Option Bool
replay fd is_open [] = some is_open
replay fd is_open (call ∷ calls) = elim (use_end fd is_open call) [
  | none ↦ none
  | some is_open' ↦ replay fd is_open' calls
]

pub replay-append :
    (fd : ReadEnd) (is_open is_open' : Bool) (xs ys : List Call)
    → replay fd is_open xs ≡ some is_open'
    → replay fd is_open (xs ++ ys) ≡ replay fd is_open' ys
replay-append fd o o' [] ys h = ground arith
replay-append fd o o' (x ∷ xs) ys h =
    step_append (use_end fd o x) (λ p. replay-append fd p o' xs ys) h
  where
    step_append :
        (used : Option Bool)
        → ((p : Bool) → replay fd p xs ≡ some o' → replay fd p (xs ++ ys) ≡ replay fd o' ys)
        → (elim used [ none ↦ none | some p ↦ replay fd p xs ]) ≡ some o'
        → (elim used [ none ↦ none | some p ↦ replay fd p (xs ++ ys) ]) ≡ replay fd o' ys
    step_append none go h = absurd (cc)
    step_append (some p) go h = go p h

abbrev other_end : ReadEnd → ReadEnd
other_end stdout_end = stderr_end
other_end stderr_end = stdout_end

abbrev pub is_kill : Call → Bool
is_kill killed_group = true
is_kill _ = false

any_kill :
    (xs : List Call) (call : Call)
    → any is_kill (xs ++ call ∷ []) ≡ (is_kill call || any is_kill xs)
any_kill [] call = ground arith
any_kill (x ∷ xs) call = ground (arith, any_kill xs call)

-- The calls use no end behind its closing, leave the two ends so, and kill or do not.
abbrev pub Leaves : List Call → ReadEnd → Bool → Bool → Bool → Type 0
Leaves calls fd is_open other_open killed =
    (replay fd true calls ≡ some is_open)
    × (replay (other_end fd) true calls ≡ some other_open)
    × (any is_kill calls ≡ killed)

module _ (calls : List Call) (killed : Bool) where
  pub read_from-Leaves :
      (fd : ReadEnd) (other_open : Bool)
      → Leaves calls fd true other_open killed
      → Leaves (calls ++ read_from fd ∷ []) fd true other_open killed
  read_from-Leaves stdout_end p u = (
    replay-append stdout_end true true calls _ u.0,
    replay-append stderr_end true p calls _ u.1,
    any_kill calls _ ∙ u.2,
  )
  read_from-Leaves stderr_end p u = (
    replay-append stderr_end true true calls _ u.0,
    replay-append stdout_end true p calls _ u.1,
    any_kill calls _ ∙ u.2,
  )

  pub closed-Leaves :
      (fd : ReadEnd) (other_open : Bool)
      → Leaves calls fd true other_open killed
      → Leaves (calls ++ closed fd ∷ []) fd false other_open killed
  closed-Leaves stdout_end p u = (
    replay-append stdout_end true true calls _ u.0,
    replay-append stderr_end true p calls _ u.1,
    any_kill calls _ ∙ u.2,
  )
  closed-Leaves stderr_end p u = (
    replay-append stderr_end true true calls _ u.0,
    replay-append stdout_end true p calls _ u.1,
    any_kill calls _ ∙ u.2,
  )

  pub killed_group-Leaves :
      (out err : Bool)
      → Leaves calls stdout_end out err killed
      → Leaves (calls ++ killed_group ∷ []) stdout_end out err true
  killed_group-Leaves out err u = (
    replay-append stdout_end true out calls _ u.0,
    replay-append stderr_end true err calls _ u.1,
    any_kill calls killed_group,
  )

-- An answer that ends the reading of one end.
abbrev pub stops : ReadAnswer → Bool
stops (got bytes) = false
stops read_interrupted = false
stops _ = true

-- What returns has the property; `none`, a call that still goes on, does not.
abbrev pub Returns : {A : Type 0} → (A → Type 0) → Option A → Type 0
Returns P none = ⊥
Returns P (some x) = P x

pub Returns-map :
    {A B : Type 0} (P : B → Type 0) (f : A → B) (o : Option A)
    → Returns (λ x. P (f x)) o
    → Returns P (Option.map f o)
unfolding Option.map
Returns-map P f none h = h
Returns-map P f (some x) h = h

pub Returns-imp :
    {A : Type 0} (P Q : A → Type 0)
    → ((x : A) → P x → Q x)
    → (o : Option A) → Returns P o
    → Returns Q o
Returns-imp P Q f none h = h
Returns-imp P Q f (some x) h = f x h
