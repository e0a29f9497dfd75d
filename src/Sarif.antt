-- ===== src/Sarif.antt =====
-- src/sarif.cpp: the JSON value that `WriteSarif` builds. It is printed by LLVM.
pub mod Reader
pub mod Ascii
pub mod Rules
use coretrace_runtime_analyz.Base.{
  Bool, Bytes, List, Option, [], any, codes, false, if◌then◌else◌, ltb, none, not, some, true, ℕ,
  ◌&&◌, ◌*◌, ◌==◌, ◌∷◌, ◌≡◌,
}
use coretrace_runtime_analyz.Text.{bytes_eq}
use coretrace_runtime_analyz.Types.{Finding, Severity, SourceLocation, error, warning}
use coretrace_runtime_analyz.Findings.Catalogue.{describe_rule}
use mathlib.Core.Option

-- No byte is above 127.
unfoldable pub is_ascii : Bytes → Bool
is_ascii [] = true
is_ascii (c ∷ s) = ltb c 128 && is_ascii s

-- `llvm::json::Value`, as far as the code uses it: `Array` is `Items`, and `Object` is `Members`.
mutual
  pub data Json : Type 0 where
    string : Bytes → Json
    number : ℕ → Json
    array : Items → Json
    object : Members → Json

  pub data Items : Type 0 where
    nil : Items
    cons : Json → Items → Items

  pub data Members : Type 0 where
    end : Members
    member : Bytes → Json → Members → Members

-- `object[key] = value;`
unfoldable pub set_member : Bytes → Json → Members → Members
set_member key value end = member key value end
set_member key value (member k v members) =
    let rest = set_member key value members in
    if bytes_eq k key then member k value members else member k v rest

-- How `llvm::json::Value` is made of a `std::string`: `isUTF8` tests the text, and `fixUTF8` repairs
-- one that is not UTF-8. A text of ASCII is UTF-8.
pub record JsonStrings : Type 0 where
  pub is_utf8 : Bytes → Bool
  pub fix_utf8 : Bytes → Bytes
  pub ascii_utf8 : (s : Bytes) → is_ascii s ≡ true → is_utf8 s ≡ true

-- The text that the value holds.
unfoldable pub json_text : JsonStrings → Bytes → Bytes
json_text u s = if u.is_utf8 s then s else u.fix_utf8 s

-- `llvm::json::Object{{"text", text}}`, of a text that is UTF-8 or repaired
abbrev pub text_object : Bytes → Json
text_object message = object (member (codes "text") (string message) end)

abbrev pub level_text : Severity → Bytes
level_text error = codes "error"
level_text warning = codes "warning"

-- The rules that the loop lists, where `listed` are those before.
unfoldable pub listed_rules : List Bytes → List Finding → List Bytes
listed_rules listed [] = []
listed_rules listed (finding ∷ findings) = elim (any (bytes_eq finding.rule) listed) [
  | true ↦ listed_rules listed findings
  | false ↦ finding.rule ∷ listed_rules (finding.rule ∷ listed) findings
]

module _ (u : JsonStrings) where
  -- `Location`
  unfoldable pub location_object : SourceLocation → Members
  location_object location =
      let region = member (codes "startLine") (number location.line) end in
      let placed =
        if not (location.column == 0)
        then set_member (codes "startColumn") (number location.column) region
        else region in
      member (codes "physicalLocation")
        (object (
          member (codes "artifactLocation")
            (object (member (codes "uri") (string (json_text u location.file)) end))
            (member (codes "region") (object placed) end)))
        end

  -- `Rule`
  unfoldable pub rule_object : Bytes → Members
  rule_object rule =
      let listed = member (codes "id") (string (json_text u rule)) end in
      elim (describe_rule rule) [
        | none ↦ listed
        | some described ↦
            set_member (codes "fullDescription") (text_object (json_text u described.description)) (
              set_member (codes "shortDescription") (text_object (json_text u described.title))
                listed)
      ]

  -- The properties of a result.
  unfoldable pub properties_object : Finding → Members
  properties_object finding =
      let properties = member (codes "cwe") (string (json_text u finding.cwe)) end in
      elim (describe_rule finding.rule) [
        | none ↦ properties
        | some described ↦
            set_member (codes "confidence") (string (json_text u described.confidence)) properties
      ]

  -- `if (finding.location) result["locations"] = …;`
  unfoldable pub add_location : Option SourceLocation → Members → Members
  add_location none result = result
  add_location (some location) result =
      set_member (codes "locations") (array (cons (object (location_object location)) nil)) result

  -- `if (finding.allocation) { … }`
  unfoldable pub add_allocation : Option SourceLocation → Members → Members
  add_allocation none result = result
  add_allocation (some allocation) result =
      let allocated =
        set_member (codes "message") (text_object (codes "allocated here"))
          (set_member (codes "id") (number 0) (location_object allocation)) in
      set_member (codes "relatedLocations") (array (cons (object allocated) nil)) result

  -- `Result`
  unfoldable pub result_object : Finding → Members
  result_object finding =
      let result = member (codes "ruleId") (string (json_text u finding.rule)) (
        member (codes "level") (string (level_text finding.severity)) (
          member (codes "message") (text_object (json_text u finding.message))
            (member (codes "properties") (object (properties_object finding)) end))) in
      add_allocation finding.allocation (add_location finding.location result)

  -- The array `results`.
  unfoldable pub results_of : List Finding → Items
  results_of [] = nil
  results_of (finding ∷ findings) = cons (object (result_object finding)) (results_of findings)

  -- The array `rules`.
  unfoldable pub rules_of : List Bytes → Items
  rules_of [] = nil
  rules_of (rule ∷ rules) = cons (object (rule_object rule)) (rules_of rules)

  -- `WriteSarif`, up to the printing.
  unfoldable pub sarif_log : List Finding → Json
  sarif_log findings =
      let driver = member (codes "name") (string (codes "coretrace-runtime-analyzer")) (
        member (codes "informationUri")
          (string (codes "https://github.com/CoreTrace/coretrace-runtime-analyzer"))
          (member (codes "rules") (array (rules_of (listed_rules [] findings))) end)) in
      let run =
        member (codes "tool") (object (member (codes "driver") (object driver) end))
          (member (codes "results") (array (results_of findings)) end) in
      object (
        member (codes "version") (string (codes "2.1.0")) (
          member (codes "$schema") (string (codes "https://json.schemastore.org/sarif-2.1.0.json"))
            (member (codes "runs") (array (cons (object run) nil)) end)))
