-- ===== src/Sarif/Ascii.antt =====
-- The ids of the catalogue are ASCII, so JSON takes them as they are.

use coretrace_runtime_analyz.Base.{
  All, Bool-cases, Bytes, List, [], ap, arith, inl, inr, is_some, refl, sym, true, ◌∙◌, ◌∷◌, ◌≡◌,
}
use coretrace_runtime_analyz.Text.{bytes_eq}
use coretrace_runtime_analyz.Text.Search.{bytes_eq_iff}
use coretrace_runtime_analyz.Sarif.{is_ascii}
use coretrace_runtime_analyz.Findings.Catalogue.{CatalogueRule, describe_in, describe_rule, k_rules}

describe_in-is_ascii :
    (rules : List CatalogueRule) (id : Bytes)
    → All (λ (r : CatalogueRule). is_ascii r.id ≡ true) rules
    → is_some (describe_in rules id) ≡ true
    → is_ascii id ≡ true
unfolding describe_in
describe_in-is_ascii [] id all h = absurd (cc)
describe_in-is_ascii (r ∷ rules) id all h = elim (Bool-cases (bytes_eq r.id id)) [
  | inl e ↦ sym (ap is_ascii ((bytes_eq_iff r.id id).0 e)) ∙ all.0
  | inr e ↦ describe_in-is_ascii rules id all.1 (ground (arith, h, e))
]

k_rules-is_ascii : All (λ (r : CatalogueRule). is_ascii r.id ≡ true) k_rules
unfolding k_rules is_ascii
k_rules-is_ascii =
    (refl, (refl, (refl, (refl, (refl, (refl, (refl, (refl, (refl, (refl, (refl, tt)))))))))))

pub described-is_ascii : (id : Bytes) → is_some (describe_rule id) ≡ true → is_ascii id ≡ true
unfolding describe_rule
described-is_ascii id h = describe_in-is_ascii k_rules id k_rules-is_ascii h
