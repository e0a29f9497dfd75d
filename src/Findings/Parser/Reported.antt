-- ===== src/Findings/Parser/Reported.antt =====
-- Every finding that a line or a box makes names a rule of the catalogue and valid sites.
use coretrace_runtime_analyz.Text.{bytes_eq, contains, find}
use coretrace_runtime_analyz.Text.Search.{find_fits}
use mathlib.Core.Option.{some-injective}
use mathlib.Core.Path.{subst}
use mathlib.Core.List.{cons-ne-nil}
use coretrace_runtime_analyz.Base.{
  All, All-get_elem?, Bool, Bool-cases, Bytes, List, Option, Option-cases, [], ap, arith, codes,
  get_elem?, inl, inr, is_some, length, length-append, length-drop, none, refl, some, true, ℕ, ◌++◌,
  ◌+◌, ◌∷◌, ◌≡◌, ◌≢◌,
}
use coretrace_runtime_analyz.Types.{Finding, Severity, SourceLocation, error, warning}
use coretrace_runtime_analyz.Findings.Catalogue.{
  BoundsRule, VtableRule, describe_rule, k_bounds_rules, k_rules, k_vtable_rules,
}
use coretrace_runtime_analyz.Findings.Site.{field}
use coretrace_runtime_analyz.Findings.Site.Bounds.{MaybeSite, parse_site-MaybeSite}
use coretrace_runtime_analyz.Findings.Box.{
  BoxReport, Rows, empty_report, read_row, read_rows, reported_rule, to_finding,
}
use coretrace_runtime_analyz.Findings.Parser.{
  bounds_finding, bounds_finding_at, bounds_finding_in, leak_message, one_line_finding,
  plain_finding, read_site,
}

-- What every reported finding satisfies.
pub record IsReported (f : Finding) : Type 0 where
  pub described : is_some (describe_rule f.rule) ≡ true
  pub has_message : f.message ≢ []
  pub site_ok : MaybeSite f.location
  pub allocation_ok : MaybeSite f.allocation

-- Every rule that a table or a line names is in the catalogue.
IsDescribed : Bytes → Type 0
IsDescribed rule = is_some (describe_rule rule) ≡ true

vtable_rules-IsDescribed : All (λ (r : VtableRule). IsDescribed r.rule) k_vtable_rules
unfolding IsDescribed describe_rule k_rules k_vtable_rules bytes_eq
vtable_rules-IsDescribed = (refl, (refl, (refl, (refl, (refl, (refl, (refl, (refl, tt))))))))

bounds_rules-IsDescribed : All (λ (r : BoundsRule). IsDescribed r.rule) k_bounds_rules
unfolding IsDescribed describe_rule k_rules k_bounds_rules bytes_eq
bounds_rules-IsDescribed = (refl, (refl, (refl, tt)))

line_rules-IsDescribed :
    IsDescribed (codes "double-free")
    × IsDescribed (codes "memory-leak")
    × IsDescribed (codes "vtable-diagnostic")
unfolding IsDescribed describe_rule k_rules bytes_eq
line_rules-IsDescribed = (refl, refl, refl)

reported_rule-IsDescribed : (rule : Option ℕ) → IsDescribed (reported_rule rule).rule
unfolding reported_rule
reported_rule-IsDescribed none = line_rules-IsDescribed.2
reported_rule-IsDescribed (some at) = elim (Option-cases (get_elem? k_vtable_rules at)) [
  | inl e ↦ rw (e, reported_rule) line_rules-IsDescribed.2
  | inr (r, e) ↦
      rw (e, reported_rule)
        (All-get_elem? (λ (r : VtableRule). IsDescribed r.rule) k_vtable_rules at
          vtable_rules-IsDescribed e)
]

-- An assignment from a field.
read_site-MaybeSite :
    (line key : Bytes) (old : Option SourceLocation)
    → MaybeSite old
    → MaybeSite (read_site line key old)
unfolding read_site
read_site-MaybeSite line key old h = elim (Option-cases (field line key)) [
  | inl e ↦ rw (e, read_site) h
  | inr (site, e) ↦ rw (e, read_site) (parse_site-MaybeSite site)
]

bounds_finding_at-IsReported :
    (r : BoundsRule) (line : Bytes) (at : ℕ)
    → IsDescribed r.rule
    → find line (codes "ct: " ++ r.rule ++ codes " ") ≡ some at
    → IsReported (bounds_finding_at r line at)
unfolding IsDescribed
bounds_finding_at-IsReported r line at d e = record {
  described = d;
  has_message = λ empty. absurd (
      omega (
        arith,
        find_fits _ _ at e,
        length-drop (at + 4) line,
        length-append r.rule (codes " "),
        ap length empty,
      ));
  site_ok = tt;
  allocation_ok = tt;
}

read_rows-MaybeSite :
    (report : BoxReport) (rows : Rows)
    → MaybeSite report.location
    → MaybeSite (read_rows report rows).location
unfolding read_rows
read_rows-MaybeSite report [] h = h
read_rows-MaybeSite report ((label, value) ∷ rows) h =
    read_rows-MaybeSite (read_row report (label, value)) rows
      (unfold read_row in ground (arith, parse_site-MaybeSite value))

pub to_finding-IsReported : (rows : Rows) {f : Finding} → to_finding rows ≡ some f → IsReported f
unfolding to_finding IsDescribed
to_finding-IsReported rows {f} h = ground (
  arith,
  reported_rule-IsDescribed (read_rows empty_report rows).rule,
  read_rows-MaybeSite empty_report rows tt,
)

bounds_finding_in-IsReported :
    (rules : List BoundsRule) (line : Bytes) {f : Finding}
    → All (λ (r : BoundsRule). IsDescribed r.rule) rules
    → bounds_finding_in rules line ≡ some f
    → IsReported f
unfolding bounds_finding_in
bounds_finding_in-IsReported [] line d h = cc
bounds_finding_in-IsReported (r ∷ rules) line d h =
    elim (Option-cases (find line (codes "ct: " ++ r.rule ++ codes " "))) [
      | inl e ↦ bounds_finding_in-IsReported rules line d.1 (rw (e, bounds_finding_in) at h)
      | inr (at, e) ↦
          subst IsReported (some-injective _ _ (rw (e, bounds_finding_in) at h))
            (bounds_finding_at-IsReported r line at d.0 e)
    ]

one_line_finding-IsReported :
    (line rule cwe : Bytes) (severity : Severity) (message : Bytes)
    → IsDescribed rule
    → message ≢ []
    → IsReported (one_line_finding line rule cwe severity message)
unfolding one_line_finding IsDescribed
one_line_finding-IsReported line rule cwe severity message d m = record {
  described = d;
  has_message = m;
  site_ok = read_site-MaybeSite line (codes "site") none tt;
  allocation_ok = read_site-MaybeSite line (codes "alloc_site") none tt;
}

leak_message-ne-nil : (line : Bytes) → leak_message line ≢ []
unfolding leak_message
leak_message-ne-nil line = ground arith

-- What a line outside any report gives.
abbrev pub PlainReported : Option (Finding × Bool) → Type 0
PlainReported none = Unit
PlainReported (some (f, _)) = IsReported f

bounds_finding-IsReported :
    (line : Bytes) {f : Finding} → bounds_finding line ≡ some f → IsReported f
unfolding bounds_finding
bounds_finding-IsReported line =
    bounds_finding_in-IsReported k_bounds_rules line bounds_rules-IsDescribed

pub plain_finding-PlainReported : (line : Bytes) → PlainReported (plain_finding line)
unfolding plain_finding
plain_finding-PlainReported line = elim (Option-cases (bounds_finding line)) [
  | inr (f, e) ↦ rw (e, plain_finding) (bounds_finding-IsReported line e)
  | inl e ↦ elim (Bool-cases (contains line (codes "(double free)"))) [
    | inl d ↦
        rw (e, plain_finding, d)
          (one_line_finding-IsReported line _ _ error _ line_rules-IsDescribed.0 (cons-ne-nil _ _))
    | inr d ↦ elim (Bool-cases (contains line (codes "ct: leak ptr="))) [
      | inl l ↦
          rw (e, plain_finding, d, l)
            (one_line_finding-IsReported line _ _ warning _ line_rules-IsDescribed.1
              (leak_message-ne-nil line))
      | inr l ↦ rw (e, plain_finding, d, l) tt
    ]
  ]
]
