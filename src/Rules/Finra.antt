-- ===== src/Rules/Finra.antt =====
-- ai_guardrail/aerorisk/agents/agent2_rag/compliance_loader.py: parse_finra_rules.
use mathlib.Core.List.{append-nil, append_assoc}
use aero_risk_ai.Base.{
  ◌+◌, ◌≡◌, refl, sym, ◌∙◌, ap, inl, inr, Bool, true, false, Option, none, some, List, [], ◌∷◌,
  ◌++◌, arith, map, Bool-cases, if◌then◌else◌,
}
use aero_risk_ai.Base.Lists.{is_empty, length, length-append, count}
use aero_risk_ai.Base.Lines.{Line, newline, strip, split}
use aero_risk_ai.Rules.{
  FinraRule, FinraState, is_finra_title, append_current, with_content, finra_line, finra_lines,
  parse_finra_rules,
}

-- The content of all rules, in order.
abbrev pub contents : List FinraRule → List Line
contents [] = []
contents (r ∷ rs) = r.content ++ contents rs

abbrev pub has_rule : Option FinraRule → Bool
has_rule none = false
has_rule (some r) = true

-- The lines that are neither blank nor a title, from the first title on; the flag is true behind it.
abbrev pub body : Bool → List Line → List Line
body started [] = []
body started (l ∷ ls) =
    let after = body true ls in
    let rest = body started ls in
    if is_empty l
    then rest
    else if is_finra_title l
    then after
    else if started
    then l ∷ rest
    else rest

abbrev finish : FinraState → List FinraRule
finish st = append_current (st.rules) (st.current_rule)

contents-append : (xs ys : List FinraRule) → contents (xs ++ ys) ≡ contents xs ++ contents ys
contents-append [] ys = refl
contents-append (x ∷ xs) ys =
    rw (contents-append xs ys) (sym (append_assoc (x.content) (contents xs) (contents ys)))

-- What one line adds: a rule if it is a title, a line of content if it is another line of a rule.
abbrev IsStep : FinraState → Line → Type 0
IsStep st l =
    (length (finish (finra_line st l)) ≡ length (finish st) + (if is_finra_title l then 1 else 0))
    × ((ls : List Line)
        → contents (finish st) ++ body (has_rule (st.current_rule)) (l ∷ ls)
          ≡ contents (finish (finra_line st l))
            ++ body (has_rule ((finra_line st l).current_rule)) ls)

contents-opened :
    (rules : List FinraRule) (n t : Line)
    → contents (rules ++ record { rule_number = n; title = t; content = [] } ∷ []) ≡ contents rules
contents-opened rules n t = contents-append rules _ ∙ append-nil (contents rules)

contents-grown :
    (rules : List FinraRule) (r : FinraRule) (l : Line) (ls : List Line)
    → contents (rules ++ r ∷ []) ++ (l ∷ ls)
      ≡ contents (rules ++ record r { content = r.content ++ l ∷ [] } ∷ []) ++ ls
contents-grown rules r l ls = simp (contents-append, append_assoc, append-nil)

length-content :
    (rules : List FinraRule) (current : Option FinraRule) (l : Line)
    → length (append_current rules (with_content l current)) ≡ length (append_current rules current)
length-content rules none l = refl
length-content rules (some r) l = rw (length-append, length-append) refl

contents-content :
    (rules : List FinraRule) (current : Option FinraRule) (l : Line) (ls : List Line)
    → contents (append_current rules current)
        ++ (let rest = body (has_rule current) ls in if has_rule current then l ∷ rest else rest)
      ≡ contents (append_current rules (with_content l current))
        ++ body (has_rule (with_content l current)) ls
contents-content rules none l ls = refl
contents-content rules (some r) l ls = contents-grown rules r l (body true ls)

finra_line-IsStep : (st : FinraState) (l : Line) → IsStep st l
finra_line-IsStep st [] = (omega arith, λ ls. refl)
finra_line-IsStep st (c ∷ l) = elim (Bool-cases (is_finra_title (c ∷ l))) [
  | inl e ↦ rw e (
    length-append (finish st) _,
    λ ls. ap (λ (x : List Line). x ++ body true ls) (sym (contents-opened (finish st) _ _)),
  )
  | inr n ↦ rw n (
    omega (arith, length-content (st.rules) (st.current_rule) (c ∷ l)),
    contents-content (st.rules) (st.current_rule) (c ∷ l),
  )
]

finra_lines-body :
    (ls : List Line) (st : FinraState)
    → (length (finish (finra_lines st ls))
        ≡ length (finish st) + count is_finra_title (map strip ls))
      × (contents (finish (finra_lines st ls))
          ≡ contents (finish st) ++ body (has_rule (st.current_rule)) (map strip ls))
unfolding finra_lines
finra_lines-body [] st = (omega arith, sym (append-nil (contents (finish st))))
finra_lines-body (l ∷ ls) st =
    let (counted, grown) = finra_line-IsStep st (strip l) in
    let (counts, grows) = finra_lines-body ls (finra_line st (strip l)) in
    (omega (arith, counted, counts), grows ∙ sym (grown (map strip ls)))

-- For any content, the parser gives one rule for each stripped line that is a title, and the
-- content of its rules, in order, is the lines behind the first title that are neither blank nor a
-- title: none is lost, doubled or moved.
pub parse_finra_rules-body :
    (content : Line)
    → let lines : List Line = map strip (split newline content) in
      (length (parse_finra_rules content) ≡ count is_finra_title lines)
      × (contents (parse_finra_rules content) ≡ body false lines)
unfolding parse_finra_rules
parse_finra_rules-body content =
    let (counts, grows) =
      finra_lines-body (split newline content) (record { rules = []; current_rule = none }) in
    (omega (arith, counts), grows)
