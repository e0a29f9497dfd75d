-- ===== src/Sarif/Rules.antt =====
-- The rules that a log lists.
use coretrace_runtime_analyz.Findings.Parser.Reported.{IsReported}
use coretrace_runtime_analyz.Findings.Catalogue.{describe_rule}
use mathlib.Core.Path.{ap₂}
use coretrace_runtime_analyz.Sarif.Ascii.{described-is_ascii}
use coretrace_runtime_analyz.Text.Search.{bytes_eq_iff}
use coretrace_runtime_analyz.Base.{
  All, Bool, Bool-cases, Bytes, List, Option, [], any, ap, arith, codes, false, inl, inr, is_some,
  none, refl, some, true, ◌&&◌, ◌||◌, ◌∙◌, ◌∷◌, ◌≡◌,
}
use coretrace_runtime_analyz.Text.{bytes_eq}
use coretrace_runtime_analyz.Types.{Finding}
use coretrace_runtime_analyz.Sarif.{
  Items, Json, JsonStrings, Members, array, cons, json_text, listed_rules, nil, object, rule_object,
  rules_of, sarif_log, set_member,
}
use coretrace_runtime_analyz.Sarif.Reader.{
  and_then, json_text_utf8, member_of, object_of, single_of, string_of,
}

-- The ids of an array of rule objects, and whether each has its two descriptions.
unfoldable pub read_rules : Items → Option (List Bytes)
read_rules nil = some []
read_rules (cons (object m) items) =
    and_then (string_of (codes "id") m) (λ id. and_then (read_rules items) (λ ids. some (id ∷ ids)))
read_rules (cons _ items) = none

unfoldable pub log_rules : Json → Option Items
log_rules (object m) = and_then (single_of (codes "runs") m) (λ run.
    and_then (object_of (codes "tool") run) (λ tool.
      and_then (object_of (codes "driver") tool) (λ driver.
        elim (member_of (codes "rules") driver) [ some (array items) ↦ some items | _ ↦ none ])))
log_rules _ = none

is_described : Json → Bool
is_described (object m) =
    is_some (object_of (codes "shortDescription") m)
    && is_some (object_of (codes "fullDescription") m)
is_described _ = false

unfoldable pub all_described : Items → Bool
unfolding is_described
all_described nil = true
all_described (cons rule items) = is_described rule && all_described items

-- The text of an object under a key, and the two descriptions of each rule object.
abbrev text_under : Bytes → Members → Option Bytes
text_under key m = and_then (object_of key m) (λ described. string_of (codes "text") described)

pub read_descriptions : Items → Option (List (Option (Bytes × Bytes)))
read_descriptions nil = some []
read_descriptions (cons (object m) items) = and_then (read_descriptions items) (λ rest. some (
    and_then (text_under (codes "shortDescription") m)
      (λ title. and_then (text_under (codes "fullDescription") m) (λ full. some (title, full)))
    ∷ rest))
read_descriptions (cons _ items) = none

-- No text stands twice.
abbrev pub IsDistinct : List Bytes → Type 0
IsDistinct [] = Unit
IsDistinct (x ∷ xs) = (any (bytes_eq x) xs ≡ false) × IsDistinct xs

bytes_eq_sym : (a b : Bytes) → bytes_eq a b ≡ bytes_eq b a
unfolding bytes_eq
bytes_eq_sym [] [] = refl
bytes_eq_sym [] (y ∷ b) = refl
bytes_eq_sym (x ∷ a) [] = refl
bytes_eq_sym (x ∷ a) (y ∷ b) = ground (arith, bytes_eq_sym a b)

apart :
    (r q : Bytes) (listed : List Bytes)
    → any (bytes_eq r) listed ≡ true
    → any (bytes_eq q) listed ≡ false
    → bytes_eq r q ≡ false
apart r q listed h k = elim (Bool-cases (bytes_eq r q)) [
  | inr n ↦ n
  | inl y ↦ cc (ap (λ t. any (bytes_eq t) listed) ((bytes_eq_iff r q).0 y))
]

-- What is already listed is not listed again.
listed_rules-apart :
    (r : Bytes) (listed : List Bytes) (fs : List Finding)
    → any (bytes_eq r) listed ≡ true
    → any (bytes_eq r) (listed_rules listed fs) ≡ false
unfolding listed_rules
listed_rules-apart r listed [] h = refl
listed_rules-apart r listed (f ∷ fs) h = elim (Bool-cases (any (bytes_eq f.rule) listed)) [
  | inl e ↦ rw (listed_rules, e) (listed_rules-apart r listed fs h)
  | inr e ↦
      let differs = apart r f.rule listed h e in
      let rest = listed_rules-apart r (f.rule ∷ listed) fs (ground (arith, h)) in
      rw (listed_rules, e) (ground (arith, rest, differs))
]

listed_rules-IsDistinct :
    (listed : List Bytes) (fs : List Finding) → IsDistinct (listed_rules listed fs)
unfolding listed_rules
listed_rules-IsDistinct listed [] = tt
listed_rules-IsDistinct listed (f ∷ fs) = elim (Bool-cases (any (bytes_eq f.rule) listed)) [
  | inl e ↦ rw (listed_rules, e) (listed_rules-IsDistinct listed fs)
  | inr e ↦
      rw (listed_rules, e)
        (
          listed_rules-apart f.rule (f.rule ∷ listed) fs
              (ground (arith, (bytes_eq_iff f.rule f.rule).1 refl)),
          listed_rules-IsDistinct (f.rule ∷ listed) fs,
        )
]

-- The rules listed are exactly those of the findings.
listed_rules-any :
    (r : Bytes) (listed : List Bytes) (fs : List Finding)
    → (any (bytes_eq r) listed || any (bytes_eq r) (listed_rules listed fs))
      ≡ (any (bytes_eq r) listed || any (λ (f : Finding). bytes_eq r f.rule) fs)
unfolding listed_rules
listed_rules-any r listed [] = refl
listed_rules-any r listed (f ∷ fs) = elim (Bool-cases (any (bytes_eq f.rule) listed)) [
  | inl e ↦
      rw (listed_rules, e)
        (ground (arith, listed_rules-any r listed fs, same_rule r f.rule listed e))
  | inr e ↦ rw (listed_rules, e) (ground (arith, listed_rules-any r (f.rule ∷ listed) fs))
]
  where
    same_rule :
        (r q : Bytes) (listed : List Bytes)
        → any (bytes_eq q) listed ≡ true
        → bytes_eq r q ≡ true
        → any (bytes_eq r) listed ≡ true
    same_rule r q listed h y = cc (ap (λ t. any (bytes_eq t) listed) ((bytes_eq_iff r q).0 y))

listed_rules-All :
    (P : Bytes → Type 0) (listed : List Bytes) (fs : List Finding)
    → All (λ f. P f.rule) fs
    → All P (listed_rules listed fs)
unfolding listed_rules
listed_rules-All P listed [] h = tt
listed_rules-All P listed (f ∷ fs) h = elim (Bool-cases (any (bytes_eq f.rule) listed)) [
  | inl e ↦ rw (listed_rules, e) (listed_rules-All P listed fs h.1)
  | inr e ↦ rw (listed_rules, e) (h.0, listed_rules-All P (f.rule ∷ listed) fs h.1)
]

All-reported :
    (fs : List Finding) → All IsReported fs → All (λ f. is_some (describe_rule f.rule) ≡ true) fs
All-reported [] h = tt
All-reported (f ∷ fs) h = (h.0.described, All-reported fs h.1)

module _ (u : JsonStrings) where
  abbrev pub json_texts : List Bytes → List Bytes
  json_texts [] = []
  json_texts (s ∷ ss) = json_text u s ∷ json_texts ss

  json_texts_utf8 : (ss : List Bytes) → All (λ s. u.is_utf8 s ≡ true) ss → json_texts ss ≡ ss
  json_texts_utf8 [] h = refl
  json_texts_utf8 (s ∷ ss) h = ap₂ ◌∷◌ (json_text_utf8 u s h.0) (json_texts_utf8 ss h.1)

  string_of-rule_object :
      (rule : Bytes) → string_of (codes "id") (rule_object u rule) ≡ some (json_text u rule)
  unfolding string_of rule_object member_of set_member bytes_eq
  string_of-rule_object rule = ground arith

  read_rules-rules_of :
      (rules : List Bytes) → read_rules (rules_of u rules) ≡ some (json_texts rules)
  unfolding read_rules rules_of
  read_rules-rules_of [] = refl
  read_rules-rules_of (r ∷ rules) = rw (string_of-rule_object r, read_rules-rules_of rules) refl

  rule_object-described :
      (r : Bytes)
      → is_some (describe_rule r) ≡ true
      → is_described (object (rule_object u r)) ≡ true
  unfolding is_described rule_object object_of member_of set_member bytes_eq
  rule_object-described r h = ground arith

  -- What the catalogue says of a rule, as JSON takes it.
  abbrev catalogue_texts : Bytes → Option (Bytes × Bytes)
  catalogue_texts rule = elim (describe_rule rule) [
    | none ↦ none
    | some d ↦ some (json_text u d.title, json_text u d.description)
  ]

  abbrev pub all_catalogue_texts : List Bytes → List (Option (Bytes × Bytes))
  all_catalogue_texts [] = []
  all_catalogue_texts (r ∷ rules) = catalogue_texts r ∷ all_catalogue_texts rules

  described_texts :
      (r : Bytes)
      → and_then (text_under (codes "shortDescription") (rule_object u r)) (λ title.
        and_then
          (text_under (codes "fullDescription") (rule_object u r))
          (λ full. some (title, full)))
        ≡ catalogue_texts r
  unfolding rule_object object_of string_of member_of set_member bytes_eq
  described_texts r = ground arith

  read_descriptions-rules_of :
      (rules : List Bytes) → read_descriptions (rules_of u rules) ≡ some (all_catalogue_texts rules)
  unfolding read_descriptions rules_of
  read_descriptions-rules_of [] = refl
  read_descriptions-rules_of (r ∷ rules) =
      rw (read_descriptions-rules_of rules, described_texts r) refl

  rules_of-described :
      (rules : List Bytes)
      → All (λ r. is_some (describe_rule r) ≡ true) rules
      → all_described (rules_of u rules) ≡ true
  unfolding all_described rules_of
  rules_of-described [] h = refl
  rules_of-described (r ∷ rules) h =
      rw (rule_object-described r h.0, rules_of-described rules h.1) refl

  log_rules-sarif_log :
      (fs : List Finding) → log_rules (sarif_log u fs) ≡ some (rules_of u (listed_rules [] fs))
  unfolding log_rules sarif_log object_of member_of single_of bytes_eq
  log_rules-sarif_log fs = refl

  All-utf8 :
      (rules : List Bytes)
      → All (λ r. is_some (describe_rule r) ≡ true) rules
      → All (λ s. u.is_utf8 s ≡ true) rules
  All-utf8 [] h = tt
  All-utf8 (r ∷ rules) h = (u.ascii_utf8 r (described-is_ascii r h.0), All-utf8 rules h.1)

  -- A log lists each rule of its findings once, and no other rule, by ids that LLVM repairs where
  -- they are not UTF-8. If all are UTF-8, the ids are the rules. Each rule that the catalogue has
  -- stands with the title and the description that it has there, and each other with none. And where
  -- the findings are well formed, as those of `ParseFindings` are, their rules are UTF-8 and each has
  -- its short and its full description.
  pub log_rules-IsDistinct :
      (fs : List Finding)
      → (rules : Items) × (ids : List Bytes) × (log_rules (sarif_log u fs) ≡ some rules)
        × (read_rules rules ≡ some (json_texts ids))
        × (All (λ f. u.is_utf8 f.rule ≡ true) fs → read_rules rules ≡ some ids)
        × IsDistinct ids
        × ((r : Bytes) → any (bytes_eq r) ids ≡ any (λ (f : Finding). bytes_eq r f.rule) fs)
        × (read_descriptions rules ≡ some (all_catalogue_texts ids))
        × (All IsReported fs → (read_rules rules ≡ some ids) × (all_described rules ≡ true))
  log_rules-IsDistinct fs =
      let ids = listed_rules [] fs in
      let read = read_rules-rules_of ids in
      let plain =
        λ (h : All (λ s. u.is_utf8 s ≡ true) ids). read ∙ ap some (json_texts_utf8 ids h) in
      (
        rules_of u ids,
        ids,
        log_rules-sarif_log fs,
        read,
        λ h. plain (listed_rules-All _ [] fs h),
        listed_rules-IsDistinct [] fs,
        λ r. listed_rules-any r [] fs,
        read_descriptions-rules_of ids,
        λ h.
            let described = listed_rules-All _ [] fs (All-reported fs h) in
            (plain (All-utf8 ids described), rules_of-described ids described),
      )
