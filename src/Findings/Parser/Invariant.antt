-- ===== src/Findings/Parser/Invariant.antt =====
-- What holds of the variables of `ParseFindings` after every line: `findings.back()` is only
-- called where there is a finding, so no line faults.

use coretrace_runtime_analyz.Text.{starts_with}
use mathlib.Core.List.{cons-ne-nil, concat-ne-nil}
use coretrace_runtime_analyz.Base.{
  All, All-append, Bool, Bool-cases, Bytes, List, Option, Option-cases, [], arith, codes, inl, inr,
  none, refl, some, true, ◌&&◌, ◌++◌, ◌∷◌, ◌≡◌, ◌≢◌,
}
use coretrace_runtime_analyz.Types.{Finding}
use coretrace_runtime_analyz.Findings.Parser.Reported.{
  IsReported, plain_finding-PlainReported, to_finding-IsReported,
}
use coretrace_runtime_analyz.Findings.Box.{Rows, closes, opens, to_finding}
use coretrace_runtime_analyz.Findings.Site.Bounds.{parse_site-MaybeSite}
use coretrace_runtime_analyz.Findings.Site.{field}
use coretrace_runtime_analyz.Findings.Parser.{
  ParseState, assign_back, box_line, plain_finding, plain_line, report_line, set_allocation,
  set_location, step, update_back,
}

pub record Invariant (s : ParseState) : Type 0 where
  pub has_back : s.in_bounds_report ≡ true → s.findings ≢ []
  pub box_alone : s.in_bounds_report ≡ true → s.box ≡ none
  pub reported : All IsReported s.findings

-- The step does not fault, and keeps the invariant.
abbrev pub Keeps : Option ParseState → Type 0
Keeps none = ⊥
Keeps (some s) = Invariant s

-- An assignment to the last finding, where there is one.
abbrev pub AllSome : Option (List Finding) → Type 0
AllSome none = ⊥
AllSome (some fs) = (fs ≢ []) × All IsReported fs

update_back-AllSome :
    (f : Finding → Finding) (fs : List Finding)
    → ((x : Finding) → IsReported x → IsReported (f x))
    → fs ≢ []
    → All IsReported fs
    → AllSome (update_back f fs)
unfolding update_back
update_back-AllSome f [] kept ne all = absurd (ne refl)
update_back-AllSome f (x ∷ []) kept ne all = (cons-ne-nil (f x) [], (kept x all.0, tt))
update_back-AllSome f (x ∷ y ∷ xs) kept ne all = elim (Option-cases (update_back f (y ∷ xs))) [
  | inl e ↦ absurd (rw e at (update_back-AllSome f (y ∷ xs) kept (cons-ne-nil y xs) all.1))
  | inr (fs, e) ↦ rw e (
    cons-ne-nil x fs,
    (all.0, (rw e at (update_back-AllSome f (y ∷ xs) kept (cons-ne-nil y xs) all.1)).1),
  )
]

pub assign_back-AllSome :
    (set : Bytes → Finding → Finding) (line key : Bytes) (fs : List Finding)
    → ((site : Bytes) (f : Finding) → IsReported f → IsReported (set site f))
    → fs ≢ []
    → All IsReported fs
    → AllSome (assign_back set line key fs)
unfolding assign_back
assign_back-AllSome set line key fs kept ne all = elim (Option-cases (field line key)) [
  | inl e ↦ rw (e, assign_back) ((ne, all))
  | inr (site, e) ↦ rw (e, assign_back) (update_back-AllSome (set site) fs (kept site) ne all)
]

pub set_location-IsReported :
    (site : Bytes) (f : Finding) → IsReported f → IsReported (set_location site f)
set_location-IsReported site f r = record {
  described = r.described;
  has_message = r.has_message;
  site_ok = parse_site-MaybeSite site;
  allocation_ok = r.allocation_ok;
}

set_allocation-IsReported :
    (site : Bytes) (f : Finding) → IsReported f → IsReported (set_allocation site f)
set_allocation-IsReported site f r = record {
  described = r.described;
  has_message = r.has_message;
  site_ok = r.site_ok;
  allocation_ok = parse_site-MaybeSite site;
}

module _ (s : ParseState) (inv : Invariant s) where
  push-Invariant :
      (f : Finding) (bounds : Bool)
      → s.box ≡ none
      → IsReported f
      → Invariant (record s { findings = s.findings ++ f ∷ []; in_bounds_report = bounds })
  push-Invariant f bounds b r = record {
    has_back = λ _. concat-ne-nil f s.findings;
    box_alone = λ _. b;
    reported = All-append IsReported s.findings (f ∷ []) inv.reported (r, tt);
  }

  plain_line-Invariant : (line : Bytes) → s.box ≡ none → Invariant (plain_line s line)
  unfolding plain_line
  plain_line-Invariant line b = elim (Option-cases (plain_finding line)) [
    | inl e ↦
        rw (e, plain_line)
          (record { has_back = λ h. cc; box_alone = λ h. cc; reported = inv.reported })
    | inr ((f, bounds), e) ↦
        rw (e, plain_line) (push-Invariant f bounds b (rw e at (plain_finding-PlainReported line)))
  ]

  box_line-Invariant :
      (rows : Rows) (line : Bytes) → s.box ≡ some rows → Invariant (box_line s rows line)
  unfolding box_line
  box_line-Invariant rows line b = elim (Bool-cases (closes line)) [
    | inr open_still ↦
        rw (box_line, open_still)
          (record {
            has_back = inv.has_back;
            box_alone = λ h. cc (inv.box_alone h);
            reported = inv.reported;
          })
    | inl c ↦ elim (Option-cases (to_finding rows)) [
      | inl e ↦
          rw (box_line, c, e)
            (record { has_back = inv.has_back; box_alone = λ _. refl; reported = inv.reported })
      | inr (f, e) ↦
          rw (box_line, c, e)
            (record {
              has_back = λ _. concat-ne-nil f s.findings;
              box_alone = λ _. refl;
              reported =
                  All-append IsReported s.findings (f ∷ []) inv.reported
                    (to_finding-IsReported rows e, tt);
            })
    ]
  ]

  report_line-Keeps : (line : Bytes) → s.in_bounds_report ≡ true → Keeps (report_line s line)
  unfolding report_line
  report_line-Keeps line b =
      let located =
        assign_back-AllSome set_location line (codes "access") s.findings set_location-IsReported
          (inv.has_back b) inv.reported in
      elim (Option-cases (assign_back set_location line (codes "access") s.findings)) [
        | inl e ↦ absurd (rw e at located)
        | inr (fs, e) ↦
            let (ne, all) = rw e at located in
            let allocated =
              assign_back-AllSome set_allocation line (codes "alloc_site") fs
                set_allocation-IsReported ne all in
            elim (Option-cases (assign_back set_allocation line (codes "alloc_site") fs)) [
              | inl a ↦ absurd (rw a at allocated)
              | inr (gs, a) ↦
                  let (ne', all') = rw a at allocated in
                  rw (e, report_line, a)
                    (record { has_back = λ _. ne'; box_alone = inv.box_alone; reported = all' })
            ]
      ]

  -- No line faults, and the invariant lasts.
  pub step-Keeps : (line : Bytes) → Keeps (step s line)
  unfolding step
  step-Keeps line = elim (Option-cases s.box) [
    | inr (rows, b) ↦ rw (b, step) (box_line-Invariant rows line b)
    | inl b ↦ elim (Bool-cases (opens line)) [
      | inl o ↦
          rw (b, step, o)
            (record { has_back = λ h. cc; box_alone = λ h. cc; reported = inv.reported })
      | inr o ↦ elim (Bool-cases (s.in_bounds_report && starts_with line (codes "  "))) [
        | inl i ↦ rw (b, step, o, i) (report_line-Keeps line (ground arith))
        | inr i ↦ rw (b, step, o, i) (plain_line-Invariant line b)
      ]
    ]
  ]
