-- ===== src/Findings/Catalogue.antt =====
-- src/findings.cpp: the catalogue of rules and the tables of the bounds and vtable reports.
-- A table's rule is named by its id; src/findings.hpp has `RuleDescription`.
use coretrace_runtime_analyz.Base.{Bytes, List, Option, [], codes, if◌then◌else◌, none, some, ◌∷◌}
use coretrace_runtime_analyz.Text.{bytes_eq}
use coretrace_runtime_analyz.Types.{Severity, error, warning}

pub record RuleDescription : Type 0 where
  pub title : Bytes
  pub description : Bytes
  pub confidence : Bytes

pub record CatalogueRule : Type 0 where
  pub id : Bytes
  pub described_as : RuleDescription

abbrev catalogue_rule : Bytes → Bytes → Bytes → Bytes → CatalogueRule
catalogue_rule id title description confidence = record {
  id = id;
  described_as = record { title = title; description = description; confidence = confidence };
}

-- `kRules`
unfoldable pub k_rules : List CatalogueRule
k_rules =
    catalogue_rule (codes "heap-buffer-overflow") (codes "Heap buffer overflow")
      (codes
        "A read or a write past the bounds of a heap allocation, observed while the program ran.")
      (codes "high")
    ∷ catalogue_rule (codes "stack-buffer-overflow") (codes "Stack buffer overflow")
        (codes
          "A read or a write past the bounds of a stack object, observed while the program ran.")
        (codes "high")
    ∷ catalogue_rule (codes "heap-use-after-free") (codes "Use of freed heap memory")
        (codes
          "A read or a write to heap memory after it was freed, observed while the program ran.")
        (codes "high")
    ∷ catalogue_rule (codes "double-free") (codes "Double free")
        (codes "Heap memory freed a second time, observed while the program ran.") (codes "high")
    ∷ catalogue_rule (codes "memory-leak") (codes "Memory leak")
        (codes "Heap memory the program allocated and had not freed when it ended.") (codes "high")
    ∷ catalogue_rule (codes "vtable-null-this") (codes "Virtual call through a null object")
        (codes "A virtual call made through a null pointer to an object.") (codes "high")
    ∷ catalogue_rule (codes "vtable-use-after-free") (codes "Virtual call through a freed object")
        (codes "A virtual call made through an object whose memory was already freed.")
        (codes "high")
    ∷ catalogue_rule (codes "vtable-corrupted") (codes "Virtual call through a corrupted vtable")
        (codes "A virtual call made through an object whose vtable pointer is missing or invalid.")
        (codes "high")
    ∷ catalogue_rule (codes "vcall-invalid-target") (codes "Virtual call to non-executable memory")
        (codes "A virtual call whose target address is not in executable memory.") (codes "high")
    ∷ catalogue_rule (codes "vtable-type-mismatch") (codes "Object of an unexpected dynamic type")
        (codes
          "At a virtual call, the object's dynamic type differs from its static type, or comes from another module: a possible type confusion, or a legitimate cast.")
        (codes "medium")
    ∷ catalogue_rule (codes "vtable-diagnostic") (codes "Other virtual call issue")
        (codes
          "A vtable or virtual call problem the runtime reported without a more specific rule, such as a vtable without type information, as built with -fno-rtti.")
        (codes "low")
    ∷ []

lookup_rule : List CatalogueRule → Bytes → Option CatalogueRule
lookup_rule [] id = none
lookup_rule (rule ∷ rules) id = if bytes_eq rule.id id then some rule else lookup_rule rules id

-- `RuleNamed`: `none` where the source does not compile
unfoldable pub rule_named : Bytes → Option CatalogueRule
unfolding lookup_rule
rule_named = lookup_rule k_rules

unfoldable pub describe_in : List CatalogueRule → Bytes → Option RuleDescription
describe_in [] rule = none
describe_in (described ∷ rules) rule =
    if bytes_eq described.id rule then some described.described_as else describe_in rules rule

-- `DescribeRule`
unfoldable pub describe_rule : Bytes → Option RuleDescription
unfolding describe_in
describe_rule = describe_in k_rules

pub record BoundsRule : Type 0 where
  pub rule : Bytes
  pub write_cwe : Bytes
  pub read_cwe : Bytes

-- `kBoundsRules`
unfoldable pub k_bounds_rules : List BoundsRule
k_bounds_rules =
    record {
      rule = codes "heap-buffer-overflow";
      write_cwe = codes "CWE-122";
      read_cwe = codes "CWE-125";
    }
    ∷ record {
      rule = codes "stack-buffer-overflow";
      write_cwe = codes "CWE-121";
      read_cwe = codes "CWE-125";
    }
    ∷ record {
      rule = codes "heap-use-after-free";
      write_cwe = codes "CWE-416";
      read_cwe = codes "CWE-416";
    }
    ∷ []

pub record VtableRule : Type 0 where
  -- matched as a prefix of the box's "warn" values
  pub warned : Bytes
  pub rule : Bytes
  pub cwe : Bytes
  pub severity : Severity

abbrev vtable_rule : Bytes → Bytes → Bytes → Severity → VtableRule
vtable_rule w r c s = record { warned = w; rule = r; cwe = c; severity = s }

-- `kVtableRules`
unfoldable pub k_vtable_rules : List VtableRule
k_vtable_rules =
    vtable_rule (codes "null this pointer") (codes "vtable-null-this") (codes "CWE-476") error
    ∷ vtable_rule (codes "vptr on freed object") (codes "vtable-use-after-free") (codes "CWE-416")
        error
    ∷ vtable_rule (codes "vtable resolve failed") (codes "vtable-corrupted") (codes "CWE-843") error
    ∷ vtable_rule (codes "no vptr") (codes "vtable-corrupted") (codes "CWE-843") error
    ∷ vtable_rule (codes "target in non-exec memory") (codes "vcall-invalid-target")
        (codes "CWE-843") error
    ∷ vtable_rule (codes "static!=dynamic type") (codes "vtable-type-mismatch") (codes "CWE-843")
        warning
    ∷ vtable_rule (codes "module mismatch: ") (codes "vtable-type-mismatch") (codes "CWE-843")
        warning
    ∷ vtable_rule (codes "missing typeinfo") (codes "vtable-diagnostic") (codes "CWE-843") warning
    ∷ []
