-- ===== src/Sarif/Reader.antt =====
-- Reading a log back.

use mathlib.Core.Path.{ap₂}
use coretrace_runtime_analyz.Types.{Finding, Severity, SourceLocation, error, warning}
use coretrace_runtime_analyz.Base.{
  All, Bytes, List, Option, [], ap, arith, codes, if◌then◌else◌, none, refl, some, true, ℕ, ◌∙◌,
  ◌∷◌, ◌≡◌,
}
use coretrace_runtime_analyz.Text.{bytes_eq}
use coretrace_runtime_analyz.Sarif.{
  Items, Json, JsonStrings, Members, add_allocation, add_location, array, cons, end, json_text,
  level_text, location_object, member, nil, number, object, properties_object, result_object,
  results_of, sarif_log, set_member, string, text_object,
}

-- `object[key]`, if it has the key.
unfoldable pub member_of : Bytes → Members → Option Json
member_of key end = none
member_of key (member k v members) =
    let rest = member_of key members in if bytes_eq k key then some v else rest

-- The members of an object, under a key.
unfoldable pub object_of : Bytes → Members → Option Members
object_of key members = elim (member_of key members) [ some (object m) ↦ some m | _ ↦ none ]

unfoldable pub string_of : Bytes → Members → Option Bytes
string_of key members = elim (member_of key members) [ some (string s) ↦ some s | _ ↦ none ]

-- A number under a key, with what a missing one stands for.
unfoldable pub number_or : ℕ → Bytes → Members → ℕ
number_or missing key members = elim (member_of key members) [ some (number n) ↦ n | _ ↦ missing ]

-- The only object of an array, under a key.
unfoldable pub single_of : Bytes → Members → Option Members
single_of key members = elim (member_of key members) [
  | some (array (cons (object m) nil)) ↦ some m
  | _ ↦ none
]

abbrev pub and_then : {A B : Type 0} → Option A → (A → Option B) → Option B
and_then none f = none
and_then (some a) f = f a

-- A location object, whatever else it has.
unfoldable pub read_location : Members → Option SourceLocation
read_location m = and_then (object_of (codes "physicalLocation") m) (λ physical.
    and_then (object_of (codes "artifactLocation") physical) (λ artifact.
      and_then (string_of (codes "uri") artifact) (λ uri.
        and_then (object_of (codes "region") physical) (λ region. some (record {
          file = uri;
          line = number_or 0 (codes "startLine") region;
          column = number_or 0 (codes "startColumn") region;
        })))))

abbrev severity_of : Bytes → Severity
severity_of level = if bytes_eq level (codes "error") then error else warning

-- A result object.
unfoldable pub read_result : Members → Option Finding
read_result m = and_then (string_of (codes "ruleId") m) (λ rule.
    and_then (string_of (codes "level") m) (λ level.
      and_then (object_of (codes "message") m) (λ message.
        and_then (string_of (codes "text") message) (λ message_text.
          and_then (object_of (codes "properties") m) (λ properties.
            and_then (string_of (codes "cwe") properties) (λ cwe. some (record {
              rule = rule;
              cwe = cwe;
              severity = severity_of level;
              message = message_text;
              location = and_then (single_of (codes "locations") m) read_location;
              allocation = and_then (single_of (codes "relatedLocations") m) read_location;
            })))))))

unfoldable pub read_results : Items → Option (List Finding)
read_results nil = some []
read_results (cons (object m) items) =
    and_then (read_result m) (λ f. and_then (read_results items) (λ fs. some (f ∷ fs)))
read_results (cons _ items) = none

-- The findings of a log with one run.
unfoldable pub read_log : Json → Option (List Finding)
read_log (object m) = and_then (single_of (codes "runs") m) (λ run.
    elim (member_of (codes "results") run) [ some (array items) ↦ read_results items | _ ↦ none ])
read_log _ = none

severity_of-level_text : (v : Severity) → severity_of (level_text v) ≡ v
unfolding bytes_eq
severity_of-level_text error = refl
severity_of-level_text warning = refl

module _ (u : JsonStrings) where
  -- What a log keeps of a site and of a finding: texts that are not UTF-8 are repaired.
  abbrev pub kept_site : SourceLocation → SourceLocation
  kept_site l = record l { file = json_text u l.file }

  abbrev pub kept_maybe : Option SourceLocation → Option SourceLocation
  kept_maybe none = none
  kept_maybe (some l) = some (kept_site l)

  abbrev pub kept_finding : Finding → Finding
  kept_finding f = record {
    rule = json_text u f.rule;
    cwe = json_text u f.cwe;
    severity = f.severity;
    message = json_text u f.message;
    location = kept_maybe f.location;
    allocation = kept_maybe f.allocation;
  }

  abbrev pub kept_findings : List Finding → List Finding
  kept_findings [] = []
  kept_findings (f ∷ fs) = kept_finding f ∷ kept_findings fs

  -- A site's file name is UTF-8, and so are all texts of a finding.
  abbrev pub IsUtf8Site : Option SourceLocation → Type 0
  IsUtf8Site none = Unit
  IsUtf8Site (some l) = u.is_utf8 l.file ≡ true

  abbrev pub IsUtf8 : Finding → Type 0
  IsUtf8 f =
      (u.is_utf8 f.rule ≡ true)
      × (u.is_utf8 f.cwe ≡ true)
      × (u.is_utf8 f.message ≡ true)
      × IsUtf8Site f.location
      × IsUtf8Site f.allocation

  pub json_text_utf8 : (s : Bytes) → u.is_utf8 s ≡ true → json_text u s ≡ s
  unfolding json_text
  json_text_utf8 s h = rw h refl

  kept_maybe_utf8 : (l : Option SourceLocation) → IsUtf8Site l → kept_maybe l ≡ l
  kept_maybe_utf8 none h = refl
  kept_maybe_utf8 (some l) h =
      ap (λ file. some (record l { file = file })) (json_text_utf8 l.file h)

  kept_finding_utf8 : (f : Finding) → IsUtf8 f → kept_finding f ≡ f
  kept_finding_utf8 f h = λ i. record {
    rule = json_text_utf8 f.rule h.0 i;
    cwe = json_text_utf8 f.cwe h.1 i;
    severity = f.severity;
    message = json_text_utf8 f.message h.2 i;
    location = kept_maybe_utf8 f.location h.3 i;
    allocation = kept_maybe_utf8 f.allocation h.4 i;
  }

  kept_findings_utf8 : (fs : List Finding) → All IsUtf8 fs → kept_findings fs ≡ fs
  kept_findings_utf8 [] h = refl
  kept_findings_utf8 (f ∷ fs) h = ap₂ ◌∷◌ (kept_finding_utf8 f h.0) (kept_findings_utf8 fs h.1)

  read_location-location_object :
      (l : SourceLocation) → read_location (location_object u l) ≡ some (kept_site l)
  unfolding read_location location_object object_of string_of number_or member_of set_member
      bytes_eq
  read_location-location_object l = ground arith

  read_location-allocated :
      (l : SourceLocation)
      → read_location (
          set_member
            (codes "message")
            (text_object (codes "allocated here"))
            (set_member (codes "id") (number 0) (location_object u l)))
        ≡ some (kept_site l)
  unfolding read_location location_object object_of string_of number_or member_of set_member
      bytes_eq
  read_location-allocated l = ground arith

  string_of-properties_object :
      (f : Finding) → string_of (codes "cwe") (properties_object u f) ≡ some (json_text u f.cwe)
  unfolding string_of properties_object member_of set_member bytes_eq
  string_of-properties_object f = ground arith

  module _ (rule cwe : Bytes) (severity : Severity) (message : Bytes) where
    abbrev found_at : Option SourceLocation → Option SourceLocation → Finding
    found_at location allocation = record {
      rule = rule;
      cwe = cwe;
      severity = severity;
      message = message;
      location = location;
      allocation = allocation;
    }

    read_result-found_at :
        (location allocation : Option SourceLocation)
        → read_result (result_object u (found_at location allocation))
          ≡ some (kept_finding (found_at location allocation))
    unfolding read_result result_object add_location add_allocation object_of string_of single_of
        member_of set_member bytes_eq
    read_result-found_at none none =
        rw (string_of-properties_object (found_at none none), severity_of-level_text severity) refl
    read_result-found_at (some l) none =
        rw
          (
            string_of-properties_object (found_at (some l) none),
            severity_of-level_text severity,
            read_location-location_object l,
          )
          refl
    read_result-found_at none (some a) =
        rw
          (
            string_of-properties_object (found_at none (some a)),
            severity_of-level_text severity,
            read_location-allocated a,
          )
          refl
    read_result-found_at (some l) (some a) =
        rw
          (
            string_of-properties_object (found_at (some l) (some a)),
            severity_of-level_text severity,
            read_location-location_object l,
            read_location-allocated a,
          )
          refl

  read_results-results_of :
      (fs : List Finding) → read_results (results_of u fs) ≡ some (kept_findings fs)
  unfolding read_results results_of
  read_results-results_of [] = refl
  read_results-results_of (f ∷ fs) =
      rw
        (
          read_result-found_at f.rule f.cwe f.severity f.message f.location f.allocation,
          read_results-results_of fs,
        )
        refl

  read_log_kept : (fs : List Finding) → read_log (sarif_log u fs) ≡ some (kept_findings fs)
  unfolding read_log sarif_log member_of single_of bytes_eq
  read_log_kept fs = read_results-results_of fs

  -- What reads the results of a log's run back, by their keys, gives the findings that were written,
  -- with all their fields and in their order, but for texts that are not UTF-8, which LLVM repairs:
  -- if all texts are UTF-8, the log loses nothing.
  pub read_log-sarif_log :
      (fs : List Finding)
      → (read_log (sarif_log u fs) ≡ some (kept_findings fs))
        × (All IsUtf8 fs → read_log (sarif_log u fs) ≡ some fs)
  read_log-sarif_log fs =
      (read_log_kept fs, λ h. read_log_kept fs ∙ ap some (kept_findings_utf8 fs h))
