-- ===== src/Rules/Mifid.antt =====
-- ai_guardrail/aerorisk/agents/agent2_rag/compliance_loader.py: parse_mifid2_rules.
use mathlib.Core.List.{append-nil, append_assoc}
use aero_risk_ai.Base.{
  ◌≡◌, refl, sym, ◌∙◌, ap, ◌⊎◌, inl, inr, true, false, Option, none, some, List, [], ◌∷◌, ◌++◌,
  Bool-cases,
}
use aero_risk_ai.Base.Lists.{is_empty, All, All-append}
use aero_risk_ai.Base.Lines.{
  Line, newline, strip, split, Lacks, unlines, split-unlines, split-Lacks, strip-Lacks, strip-strip,
}
use aero_risk_ai.Rules.{
  Mifid2Rule, Mifid2State, is_mifid2_title, append_titled, is_titled, mifid2_line, mifid2_lines,
  parse_mifid2_rules,
}

-- A line that the parser reads as it stands.
abbrev pub IsLine : Line → Type 0
IsLine l = (strip l ≡ l) × (is_empty l ≡ false) × Lacks newline l

abbrev pub IsSectionLine : Line → Type 0
IsSectionLine l = IsLine l × (is_mifid2_title l ≡ false)

abbrev pub IsTitle : Option Line → Type 0
IsTitle none = ⊥
IsTitle (some t) = IsLine t × (is_mifid2_title t ≡ true)

abbrev pub IsRule : Mifid2Rule → Type 0
IsRule r = IsTitle (r.title) × All IsSectionLine (r.sections)

-- The rule's lines, and the rules' text.
abbrev pub title_lines : Option Line → List Line
title_lines none = []
title_lines (some t) = t ∷ []

abbrev pub rules_lines : List Mifid2Rule → List Line
rules_lines [] = []
rules_lines (r ∷ rs) = title_lines (r.title) ++ (r.sections ++ rules_lines rs)

abbrev pub print_rules : List Mifid2Rule → Line
print_rules rules = unlines (rules_lines rules)

mifid2_lines-append :
    (xs ys : List Line) (st : Mifid2State)
    → mifid2_lines st (xs ++ ys) ≡ mifid2_lines (mifid2_lines st xs) ys
unfolding mifid2_lines
mifid2_lines-append [] ys st = refl
mifid2_lines-append (x ∷ xs) ys st = mifid2_lines-append xs ys (mifid2_line st (strip x))

mifid2_line-section :
    (l : Line) (rules : List Mifid2Rule) (title : Option Line) (sections : List Line)
    → is_empty l ≡ false
    → is_mifid2_title l ≡ false
    → mifid2_line
        (record { rules = rules; current_rule = record { title = title; sections = sections } })
        l
      ≡ record {
        rules = rules;
        current_rule = record { title = title; sections = sections ++ l ∷ [] };
      }
mifid2_line-section l rules title sections ne h = rw (ne, h) refl

-- A rule's sections join the current rule.
mifid2_lines-sections :
    (ls : List Line) (rules : List Mifid2Rule) (title : Option Line) (sections : List Line)
    → All IsSectionLine ls
    → mifid2_lines
        (record { rules = rules; current_rule = record { title = title; sections = sections } })
        ls
      ≡ record { rules = rules; current_rule = record { title = title; sections = sections ++ ls } }
unfolding mifid2_lines
mifid2_lines-sections [] rules title sections h = rw (append-nil sections) refl
mifid2_lines-sections (l ∷ ls) rules title sections (((stripped, ne, _), plain), rest) =
    rw (stripped, mifid2_line-section l rules title sections ne plain)
      (mifid2_lines-sections ls rules title (sections ++ l ∷ []) rest
        ∙ rw (append_assoc sections (l ∷ []) ls) refl)

abbrev finish : Mifid2State → List Mifid2Rule
finish st = append_titled (st.rules) (st.current_rule)

mifid2_line-title :
    (t : Line) (st : Mifid2State)
    → is_empty t ≡ false
    → is_mifid2_title t ≡ true
    → mifid2_line st t
      ≡ record { rules = finish st; current_rule = record { title = some t; sections = [] } }
mifid2_line-title t st ne h = rw (ne, h) refl

-- A title opens a rule, and its sections join it.
mifid2_lines-rule :
    (t : Line) (sections rest : List Line) (st : Mifid2State)
    → IsTitle (some t)
    → All IsSectionLine sections
    → mifid2_lines st (t ∷ (sections ++ rest))
      ≡ mifid2_lines
          (record {
            rules = finish st;
            current_rule = record { title = some t; sections = sections };
          })
          rest
unfolding mifid2_lines
mifid2_lines-rule t sections rest st ((stripped, ne, _), titled) h =
    ap (λ (s : Mifid2State). mifid2_lines s (sections ++ rest))
      (ap (mifid2_line st) stripped ∙ mifid2_line-title t st ne titled)
    ∙ mifid2_lines-append sections rest _
    ∙ ap (λ (s : Mifid2State). mifid2_lines s rest)
        (mifid2_lines-sections sections (finish st) (some t) [] h)

-- A printed rule in front of lines that yield `rs`.
finish-rule :
    (t : Option Line) (ls lines : List Line) (rs : List Mifid2Rule) (st : Mifid2State)
    → IsTitle t
    → All IsSectionLine ls
    → ((st : Mifid2State) → finish (mifid2_lines st (lines ++ [] ∷ [])) ≡ finish st ++ rs)
    → finish (mifid2_lines st ((title_lines t ++ (ls ++ lines)) ++ [] ∷ []))
      ≡ finish st ++ (record { title = t; sections = ls } ∷ rs)
finish-rule none ls lines rs st titled plain later = elim titled [ ]
finish-rule (some t) ls lines rs st titled plain later =
    let r : Mifid2Rule = record { title = some t; sections = ls } in
    let opened : Mifid2State = record { rules = finish st; current_rule = r } in
    let shown : finish opened ≡ finish st ++ r ∷ [] = rw (titled.0.1) refl in
    ap (λ (x : List Line). finish (mifid2_lines st (t ∷ x))) (append_assoc ls lines ([] ∷ []))
    ∙ ap finish (mifid2_lines-rule t ls (lines ++ [] ∷ []) st titled plain)
    ∙ later opened
    ∙ ap (λ (x : List Mifid2Rule). x ++ rs) shown
    ∙ append_assoc (finish st) (r ∷ []) rs

mifid2_lines-rules :
    (rs : List Mifid2Rule) (st : Mifid2State)
    → All IsRule rs
    → finish (mifid2_lines st (rules_lines rs ++ [] ∷ [])) ≡ finish st ++ rs
unfolding mifid2_lines strip
mifid2_lines-rules [] st h = sym (append-nil (finish st))
mifid2_lines-rules (r ∷ rs) st ((title, sections), rest) =
    finish-rule (r.title) (r.sections) (rules_lines rs) rs st title sections
      (λ st. mifid2_lines-rules rs st rest)

IsLine-Lacks : (l : Line) → IsLine l → Lacks newline l
IsLine-Lacks l (_, _, h) = h

section_lines-Lacks : (ls : List Line) → All IsSectionLine ls → All (Lacks newline) ls
section_lines-Lacks [] h = tt
section_lines-Lacks (l ∷ ls) ((line, _), rest) = (IsLine-Lacks l line, section_lines-Lacks ls rest)

title_lines-Lacks : (t : Option Line) → IsTitle t → All (Lacks newline) (title_lines t)
title_lines-Lacks none h = tt
title_lines-Lacks (some t) h = (IsLine-Lacks t (h.0), tt)

rules_lines-Lacks : (rs : List Mifid2Rule) → All IsRule rs → All (Lacks newline) (rules_lines rs)
rules_lines-Lacks [] h = tt
rules_lines-Lacks (r ∷ rs) ((title, sections), rest) =
    All-append (Lacks newline) (title_lines (r.title)) (r.sections ++ rules_lines rs)
      (title_lines-Lacks (r.title) title)
      (All-append (Lacks newline) (r.sections) (rules_lines rs)
        (section_lines-Lacks (r.sections) sections) (rules_lines-Lacks rs rest))

-- The parser reads back every list of rules that is printed line by line, where each rule has a
-- title that starts with Article or Section and its other lines do not, and no line is blank, holds
-- a newline, or has white space at an end.
pub parse_mifid2_rules-print_rules :
    (rules : List Mifid2Rule) → All IsRule rules → parse_mifid2_rules (print_rules rules) ≡ rules
unfolding parse_mifid2_rules
parse_mifid2_rules-print_rules rules h =
    rw (split-unlines (rules_lines rules) (rules_lines-Lacks rules h)) (
      mifid2_lines-rules rules
        (record { rules = []; current_rule = record { title = none; sections = [] } }) h)

-- A rule that is being read: before the first title nothing is known of its lines.
abbrev IsCurrent : Mifid2Rule → Type 0
IsCurrent r = (r.title ≡ none) ⊎ IsRule r

abbrev IsState : Mifid2State → Type 0
IsState st = All IsRule (st.rules) × IsCurrent (st.current_rule)

finish-IsRule : (st : Mifid2State) → IsState st → All IsRule (finish st)
finish-IsRule st (rules, inl e) = rw e rules
finish-IsRule st (rules, inr rule) = elim (Bool-cases (is_titled ((st.current_rule).title))) [
  | inl e ↦ rw e (All-append IsRule (st.rules) (st.current_rule ∷ []) rules (rule, tt))
  | inr e ↦ rw e rules
]

mifid2_line-IsState :
    (st : Mifid2State) (l : Line)
    → strip l ≡ l
    → Lacks newline l
    → IsState st
    → IsState (mifid2_line st l)
mifid2_line-IsState st l stripped lacks h = elim (Bool-cases (is_empty l)) [
  | inl e ↦ rw e h
  | inr ne ↦ elim (Bool-cases (is_mifid2_title l)) [
    | inl e ↦ rw (ne, e) (finish-IsRule st h, inr (((stripped, ne, lacks), e), tt))
    | inr n ↦
        rw (ne, n)
          (
            h.0,
            elim (h.1) [
              | inl none_yet ↦ inl none_yet
              | inr (title, sections) ↦ inr (
                title,
                All-append IsSectionLine _ (l ∷ []) sections (((stripped, ne, lacks), n), tt),
              )
            ],
          )
  ]
]

mifid2_lines-IsState :
    (ls : List Line) (st : Mifid2State)
    → All (Lacks newline) ls
    → IsState st
    → IsState (mifid2_lines st ls)
unfolding mifid2_lines
mifid2_lines-IsState [] st h k = k
mifid2_lines-IsState (l ∷ ls) st (lacks, rest) k =
    mifid2_lines-IsState ls (mifid2_line st (strip l)) rest
      (mifid2_line-IsState st (strip l) (strip-strip l) (strip-Lacks newline l lacks) k)

-- What the parser returns, for any content, has a title in each rule and no title among its sections;
-- and printing it and parsing that gives the same rules.
pub parse_mifid2_rules-IsRule :
    (content : Line)
    → All IsRule (parse_mifid2_rules content)
      × (parse_mifid2_rules (print_rules (parse_mifid2_rules content)) ≡ parse_mifid2_rules content)
parse_mifid2_rules-IsRule content = (sound, parse_mifid2_rules-print_rules _ sound)
  where
    sound : All IsRule (parse_mifid2_rules content)
    sound =
        unfold parse_mifid2_rules in
        (finish-IsRule _ (
          mifid2_lines-IsState (split newline content) _ (split-Lacks newline content)
            (tt, inl refl)))
