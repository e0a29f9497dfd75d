-- ===== src/Findings/Box/Rank.antt =====
-- Which rule a box reports: the earliest entry of `kVtableRules` that one of its warnings
-- matches, whatever the order of its rows.

use coretrace_runtime_analyz.Types.{Finding}
use mathlib.Core.Logic.{∥∥₁_elim}
use mathlib.Core.List.{Perm, Permᴰ}
use mathlib.Core.Path.{ap₂}
use coretrace_runtime_analyz.Text.Search.{bytes_eq_iff}
use coretrace_runtime_analyz.Base.{
  Bool, Bool-cases, Bytes, List, Option, [], any, ap, arith, codes, false, get_elem?, if◌then◌else◌,
  inl, inr, ltb, none, not, refl, some, suc, sym, true, zero, ℕ, ◌&&◌, ◌+◌, ◌∙◌, ◌∷◌, ◌≡◌, ◌≤◌, ◌⊎◌,
}
use coretrace_runtime_analyz.Text.{bytes_eq, starts_with}
use coretrace_runtime_analyz.Findings.Catalogue.{VtableRule, k_vtable_rules}
use coretrace_runtime_analyz.Findings.Box.{
  BoxReport, Rows, earlier, empty_report, matching_rule, read_row, read_rows, to_finding,
}

-- The entry that a row's warning matches.
abbrev pub row_rule : Bytes × Bytes → Option ℕ
row_rule (label, value) =
    if bytes_eq label (codes "site")
    then none
    else if not (bytes_eq label (codes "warn"))
    then none
    else matching_rule k_vtable_rules 0 value

best : Rows → Option ℕ
best [] = none
best (row ∷ rows) = earlier (row_rule row) (best rows)

earlier_assoc : (a b c : Option ℕ) → earlier (earlier a b) c ≡ earlier a (earlier b c)
unfolding earlier
earlier_assoc a b c = ground arith

earlier_comm : (a b : Option ℕ) → earlier a b ≡ earlier b a
unfolding earlier
earlier_comm a b = ground arith

read_row-rule :
    (report : BoxReport) (row : Bytes × Bytes)
    → (read_row report row).rule ≡ earlier report.rule (row_rule row)
unfolding read_row earlier
read_row-rule report (label, value) = ground arith

read_rows-best :
    (report : BoxReport) (rows : Rows)
    → (read_rows report rows).rule ≡ earlier report.rule (best rows)
unfolding read_rows best
read_rows-best report [] = unfold earlier in ground arith
read_rows-best report (row ∷ rows) =
    read_rows-best (read_row report row) rows
    ∙ rw (read_row-rule report row) (earlier_assoc report.rule (row_rule row) (best rows))

earlier-le-left : (a b : Option ℕ) (i : ℕ) → a ≡ some i → (j : ℕ) × (earlier a b ≡ some j) × (j ≤ i)
unfolding earlier
earlier-le-left none b i h = cc
earlier-le-left (some x) none i h = (x, refl, ground arith)
earlier-le-left (some x) (some y) i h = elim (Bool-cases (ltb y x)) [
  | inl e ↦ (y, rw e refl, ground arith)
  | inr e ↦ (x, rw e refl, ground arith)
]

earlier_one : (a b : Option ℕ) (j : ℕ) → earlier a b ≡ some j → (a ≡ some j) ⊎ (b ≡ some j)
unfolding earlier
earlier_one a none j h = inl h
earlier_one none (some y) j h = inr h
earlier_one (some x) (some y) j h = ground (arith, h)

-- The value starts with the text of the entry at a position.
abbrev starts_at : List VtableRule → ℕ → Bytes → Bool
starts_at rules i value = elim (get_elem? rules i) [
  | none ↦ false
  | some candidate ↦ starts_with value candidate.warned
]

matching_rule-starts_at :
    (rules : List VtableRule) (at : ℕ) (value : Bytes) (j : ℕ)
    → matching_rule rules at value ≡ some j
    → (k : ℕ) × (j ≡ at + k) × (starts_at rules k value ≡ true)
unfolding matching_rule
matching_rule-starts_at [] at value j h = absurd (cc)
matching_rule-starts_at (c ∷ rules) at value j h = elim (Bool-cases (starts_with value c.warned)) [
  | inl e ↦ (0, ground (arith, h, e), e)
  | inr e ↦
      let (k, same, starts) =
        matching_rule-starts_at rules (at + 1) value j (ground (arith, h, e)) in
      (suc k, omega (arith, same), starts)
]

matching_rule-le :
    (rules : List VtableRule) (at : ℕ) (value : Bytes) (i : ℕ)
    → starts_at rules i value ≡ true
    → (j : ℕ) × (matching_rule rules at value ≡ some j) × (j ≤ at + i)
unfolding matching_rule
matching_rule-le [] at value i h = absurd (cc)
matching_rule-le (c ∷ rules) at value zero h = (at, rw h refl, omega arith)
matching_rule-le (c ∷ rules) at value (suc i) h = elim (Bool-cases (starts_with value c.warned)) [
  | inl e ↦ (at, rw e refl, omega arith)
  | inr e ↦
      let (j, found, le) = matching_rule-le rules (at + 1) value i h in
      (j, rw e found, omega (arith, le))
]

-- A row is a warning that starts with the text of the entry at a position of the table.
abbrev pub warns_at : ℕ → Bytes × Bytes → Bool
warns_at i (label, value) = bytes_eq label (codes "warn") && starts_at k_vtable_rules i value

warn-site :
    (label : Bytes) → bytes_eq label (codes "warn") ≡ true → bytes_eq label (codes "site") ≡ false
unfolding bytes_eq
warn-site label h = rw ((bytes_eq_iff label (codes "warn")).0 h) refl

row_rule-warns_at : (row : Bytes × Bytes) (j : ℕ) → row_rule row ≡ some j → warns_at j row ≡ true
row_rule-warns_at (label, value) j h = elim (Bool-cases (bytes_eq label (codes "site"))) [
  | inl s ↦ absurd (ground (arith, h, s))
  | inr s ↦ elim (Bool-cases (bytes_eq label (codes "warn"))) [
    | inr e ↦ absurd (ground (arith, h, s, e))
    | inl e ↦
        let (k, same, starts) =
          matching_rule-starts_at k_vtable_rules 0 value j (ground (arith, h, s, e)) in
        let here : j ≡ k = omega (arith, same) in rw (e, here) starts
  ]
]

row_rule-le :
    (row : Bytes × Bytes) (i : ℕ)
    → warns_at i row ≡ true
    → (j : ℕ) × (row_rule row ≡ some j) × (j ≤ i)
row_rule-le (label, value) i h = elim (Bool-cases (bytes_eq label (codes "warn"))) [
  | inr e ↦ absurd (ground (arith, h, e))
  | inl e ↦
      let (j, found, le) = matching_rule-le k_vtable_rules 0 value i (ground (arith, h, e)) in
      (j, rw (warn-site label e, e) found, omega (arith, le))
]

best-warns_at : (rows : Rows) (j : ℕ) → best rows ≡ some j → any (warns_at j) rows ≡ true
unfolding best
best-warns_at [] j h = absurd (cc)
best-warns_at (row ∷ rows) j h = elim (earlier_one (row_rule row) (best rows) j h) [
  | inl e ↦ rw (row_rule-warns_at row j e) refl
  | inr e ↦ ground (arith, best-warns_at rows j e)
]

best-le :
    (rows : Rows) (i : ℕ) → any (warns_at i) rows ≡ true → (j : ℕ) × (best rows ≡ some j) × (j ≤ i)
unfolding best
best-le [] i h = absurd (cc)
best-le (row ∷ rows) i h = elim (Bool-cases (warns_at i row)) [
  | inl e ↦
      let (j, here, le) = row_rule-le row i e in
      let (k, found, le') = earlier-le-left (row_rule row) (best rows) j here in
      (k, found, omega (arith, le, le'))
  | inr e ↦
      let (j, there, le) = best-le rows i (ground (arith, h, e)) in
      let (k, found, le') = earlier-le-left (best rows) (row_rule row) j there in
      (k, earlier_comm (row_rule row) (best rows) ∙ found, omega (arith, le, le'))
]

best_step :
    (report : BoxReport) (rows : Rows)
    → report.rule ≡ none
    → (read_rows report rows).rule ≡ best rows
best_step report rows h =
    read_rows-best report rows ∙ rw h (earlier_comm none (best rows) ∙ unfold earlier in refl)

-- The rule of a box is the first entry of the table that one of its warnings starts with: one of
-- the warnings starts with its text, and no warning starts with that of an earlier entry. A box has
-- no rule only if none of its warnings starts with the text of an entry.
pub read_rows_earliest :
    (rows : Rows)
    → let rule = (read_rows empty_report rows).rule in
      ((j : ℕ) → rule ≡ some j → any (warns_at j) rows ≡ true)
      × ((i : ℕ) → any (warns_at i) rows ≡ true → (j : ℕ) × (rule ≡ some j) × (j ≤ i))
read_rows_earliest rows = rw (best_step empty_report rows refl) (best-warns_at rows, best-le rows)

best_swap : (a b c : Option ℕ) → earlier a (earlier b c) ≡ earlier b (earlier a c)
best_swap a b c =
    sym (earlier_assoc a b c) ∙ ap (λ x. earlier x c) (earlier_comm a b) ∙ earlier_assoc b a c

best-Permᴰ : {rows rows' : Rows} → Permᴰ rows rows' → best rows ≡ best rows'
unfolding best
best-Permᴰ Permᴰ.nil = refl
best-Permᴰ (Permᴰ.cons e p) = ap₂ (λ r b. earlier (row_rule r) b) e (best-Permᴰ p)
best-Permᴰ (Permᴰ.swap {a} {b} {l} x y) =
    best_swap (row_rule a) (row_rule b) (best l)
    ∙ ap₂ (λ r s. earlier (row_rule r) (earlier (row_rule s) (best l))) y x
best-Permᴰ (Permᴰ.trans p q) = best-Permᴰ p ∙ best-Permᴰ q

option_set : IsSet (Option ℕ)
option_set = hlevel

-- Two boxes with the same rows, in any order, report the same rule, CWE and severity.
pub to_finding-Perm :
    (rows rows' : Rows) {f g : Finding}
    → Perm rows rows'
    → to_finding rows ≡ some f
    → to_finding rows' ≡ some g
    → (f.rule ≡ g.rule) × (f.cwe ≡ g.cwe) × (f.severity ≡ g.severity)
unfolding to_finding
to_finding-Perm rows rows' p hf hg =
    let same : best rows ≡ best rows' = ∥∥₁_elim p (option_set _ _) best-Permᴰ in
    ground (arith, best_step empty_report rows refl, best_step empty_report rows' refl)
