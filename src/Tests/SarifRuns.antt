-- ===== src/Tests/SarifRuns.antt =====
-- Logs of concrete findings.

use coretrace_runtime_analyz.Base.{All, Bytes, List, [], any, codes, refl, some, true, ◌∷◌, ◌≡◌}
use coretrace_runtime_analyz.Tests.Worlds.{ascii_only}
use coretrace_runtime_analyz.Text.{bytes_eq}
use coretrace_runtime_analyz.Types.{Finding, SourceLocation, default_finding, warning}
use coretrace_runtime_analyz.Findings.Parser.Reported.{IsReported}
use coretrace_runtime_analyz.Sarif.{
  Items, Members, end, is_ascii, json_text, listed_rules, location_object, member, number, object,
  sarif_log, set_member, string,
}
use coretrace_runtime_analyz.Sarif.Reader.{IsUtf8, kept_findings, read_log, read_log-sarif_log}
use coretrace_runtime_analyz.Sarif.Rules.{
  IsDistinct, all_catalogue_texts, all_described, json_texts, log_rules, log_rules-IsDistinct,
  read_descriptions, read_rules,
}

abbrev leak : Finding
leak = record default_finding {
  rule = codes "memory-leak";
  cwe = codes "CWE-401";
  severity = warning;
  message = codes "memory leak";
  location = some (record { file = codes "a.c"; line = 3; column = 0 });
}

abbrev overflow : Finding
overflow = record default_finding {
  rule = codes "heap-buffer-overflow";
  cwe = codes "CWE-122";
  message = codes "heap buffer overflow";
  location = some (record { file = codes "a.c"; line = 7; column = 2 });
  allocation = some (record { file = codes "b.c"; line = 1; column = 0 });
}

abbrev three : List Finding
three = leak ∷ overflow ∷ leak ∷ []

rules : List Bytes → List Finding → List Bytes
unfolding listed_rules bytes_eq
rules = listed_rules

listed : rules [] three ≡ codes "memory-leak" ∷ codes "heap-buffer-overflow" ∷ []
unfolding rules
listed = refl

log_location : SourceLocation → Members
unfolding location_object set_member bytes_eq json_text is_ascii
log_location = location_object ascii_only

leak_location :
    log_location (record { file = codes "a.c"; line = 3; column = 0 })
    ≡ member
        (codes "physicalLocation")
        (object (
          member
            (codes "artifactLocation")
            (object (member (codes "uri") (string (codes "a.c")) end))
            (member (codes "region") (object (member (codes "startLine") (number 3) end)) end)))
        end
unfolding log_location
leak_location = refl

-- A message with a byte that is not ASCII.
abbrev odd : List Finding
odd = record leak { message = 104 ∷ 200 ∷ [] } ∷ leak ∷ []

kept : List Finding → List Finding
unfolding json_text is_ascii
kept = kept_findings ascii_only

odd_repaired : kept odd ≡ record leak { message = codes "h?" } ∷ leak ∷ []
unfolding kept
odd_repaired = refl

read_log-sarif_log_example :
    (read_log (sarif_log ascii_only odd) ≡ some (kept_findings ascii_only odd))
    × (All (IsUtf8 ascii_only) odd → read_log (sarif_log ascii_only odd) ≡ some odd)
read_log-sarif_log_example = read_log-sarif_log ascii_only odd

three-IsUtf8 : All (IsUtf8 ascii_only) three
unfolding is_ascii
three-IsUtf8 = (
  (refl, refl, refl, refl, tt),
  ((refl, refl, refl, refl, refl), ((refl, refl, refl, refl, tt), tt)),
)

three_read : read_log (sarif_log ascii_only three) ≡ some three
three_read = (read_log-sarif_log ascii_only three).1 three-IsUtf8

log_rules-IsDistinct_example :
    (rules : Items) × (ids : List Bytes) × (log_rules (sarif_log ascii_only three) ≡ some rules)
    × (read_rules rules ≡ some (json_texts ascii_only ids))
    × (All (λ f. ascii_only.is_utf8 f.rule ≡ true) three → read_rules rules ≡ some ids)
    × IsDistinct ids
    × ((r : Bytes) → any (bytes_eq r) ids ≡ any (λ (f : Finding). bytes_eq r f.rule) three)
    × (read_descriptions rules ≡ some (all_catalogue_texts ascii_only ids))
    × (All IsReported three → (read_rules rules ≡ some ids) × (all_described rules ≡ true))
log_rules-IsDistinct_example = log_rules-IsDistinct ascii_only three
