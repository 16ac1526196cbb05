-- ===== src/Rules.antt =====
-- ai_guardrail/aerorisk/agents/agent2_rag/compliance_loader.py. A file's content is the list of its
-- code points. The directory and the vector store are a record of operations on a state `W`.
pub mod Mifid
pub mod Finra
use aero_risk_ai.Base.{
  ℕ, zero, suc, ◌+◌, String, concat, Bool, true, false, ◌&&◌, ◌||◌, Option, none, some, List, [],
  ◌∷◌, ◌++◌, str_eq, ◌==◌, if◌then◌else◌,
}
use aero_risk_ai.Base.Lists.{is_empty}
use aero_risk_ai.Base.Text.{codes}
use aero_risk_ai.Base.Lines.{Line, newline, strip, has_prefix, split, split_blank}
use aero_risk_ai.Base.Outcome.{Outcome, ok, err}
use aero_risk_ai.Base.Exec.{Exec, pure, lift, attempt, recover, ◌>>=◌, ◌>>◌}

-- A rule's dictionary; before the first title it has no title.
pub record Mifid2Rule : Type 0 where
  pub title : Option Line
  pub sections : List Line

-- `current_rule.get("title")` as a test
abbrev pub is_titled : Option Line → Bool
is_titled none = false
is_titled (some t) = if is_empty t then false else true

abbrev pub append_titled : List Mifid2Rule → Mifid2Rule → List Mifid2Rule
append_titled rules current = if is_titled (current.title) then rules ++ current ∷ [] else rules

abbrev pub is_mifid2_title : Line → Bool
is_mifid2_title line = has_prefix (codes "Article") line || has_prefix (codes "Section") line

pub record Mifid2State : Type 0 where
  pub rules : List Mifid2Rule
  pub current_rule : Mifid2Rule

-- One round of the loop, on a line that is stripped.
abbrev pub mifid2_line : Mifid2State → Line → Mifid2State
mifid2_line st line =
    if is_empty line
    then st
    else if is_mifid2_title line
    then record {
      rules = append_titled (st.rules) (st.current_rule);
      current_rule = record { title = some line; sections = [] };
    }
    else record st {
      current_rule = record (st.current_rule) {
        sections = (st.current_rule).sections ++ line ∷ [];
      };
    }

pub mifid2_lines : Mifid2State → List Line → Mifid2State
mifid2_lines st [] = st
mifid2_lines st (line ∷ lines) = mifid2_lines (mifid2_line st (strip line)) lines

unfoldable pub parse_mifid2_rules : Line → List Mifid2Rule
unfolding mifid2_lines split strip
parse_mifid2_rules content =
    let start : Mifid2State = record {
      rules = [];
      current_rule = record { title = none; sections = [] };
    } in
    let last = mifid2_lines start (split newline content) in
    append_titled (last.rules) (last.current_rule)

pub record FinraRule : Type 0 where
  pub rule_number : Line
  pub title : Line
  pub content : List Line

abbrev pub has_code : ℕ → Line → Bool
has_code c [] = false
has_code c (d ∷ s) = d == c || has_code c s

abbrev pub colon : ℕ
colon = b':'

-- `line.split(":", 1)`, whose second part is missing where there is no colon.
abbrev pub before_colon : Line → Line
before_colon [] = []
before_colon (c ∷ s) = if c == colon then [] else c ∷ before_colon s

abbrev pub after_colon : Line → Line
after_colon [] = []
after_colon (c ∷ s) = if c == colon then s else after_colon s

-- `s.replace("Rule ", "")`, past the next `skip` characters.
abbrev pub without_rule_from : ℕ → Line → Line
without_rule_from skip [] = []
without_rule_from zero (c ∷ s) =
    let kept = c ∷ without_rule_from 0 s in
    let gone = without_rule_from 4 s in if has_prefix (codes "Rule ") (c ∷ s) then gone else kept
without_rule_from (suc skip) (c ∷ s) = without_rule_from skip s

abbrev pub without_rule : Line → Line
without_rule s = without_rule_from 0 s

abbrev pub is_finra_title : Line → Bool
is_finra_title line = has_prefix (codes "Rule ") line && has_code colon line

pub record FinraState : Type 0 where
  pub rules : List FinraRule
  pub current_rule : Option FinraRule

abbrev pub append_current : List FinraRule → Option FinraRule → List FinraRule
append_current rules none = rules
append_current rules (some rule) = rules ++ rule ∷ []

abbrev pub with_content : Line → Option FinraRule → Option FinraRule
with_content line none = none
with_content line (some rule) = some (record rule { content = rule.content ++ line ∷ [] })

abbrev pub finra_line : FinraState → Line → FinraState
finra_line st line =
    if is_empty line
    then st
    else if is_finra_title line
    then record {
      rules = append_current (st.rules) (st.current_rule);
      current_rule = some (record {
        rule_number = without_rule (before_colon line);
        title = after_colon line;
        content = [];
      });
    }
    else record st { current_rule = with_content line (st.current_rule) }

pub finra_lines : FinraState → List Line → FinraState
finra_lines st [] = st
finra_lines st (line ∷ lines) = finra_lines (finra_line st (strip line)) lines

unfoldable pub parse_finra_rules : Line → List FinraRule
unfolding finra_lines split strip
parse_finra_rules content =
    let last = finra_lines (record { rules = []; current_rule = none }) (split newline content) in
    append_current (last.rules) (last.current_rule)

pub record RuleStore (W Hit Rule : Type 0) : Type 0 where
  pub exists : W → Bool
  -- The `.txt` files of the directory, each by its stem.
  pub glob : W → List String
  pub read : String → Exec W Line
  -- `f"{source}_{i}"`
  pub rule_id : String → ℕ → String
  -- upsert_document in "compliance_rules": the identifier, the source and the text.
  pub upsert_document : String → String → Line → Exec W (Unit {0})
  -- search_similar in "compliance_rules", with the limit.
  pub search_similar : String → ℕ → Exec W (List Hit)
  -- `r.payload.get("source")`
  pub source_of : Hit → Option String
  -- The constructor ComplianceRule, whose class in models/context_bundle.py has other fields than it
  -- is given.
  pub compliance_rule : Hit → Outcome Rule

abbrev pub is_source : String → Option String → Bool
is_source source none = false
is_source source (some s) = str_eq s source

module _ {W Hit Rule : Type 0} (store : RuleStore W Hit Rule) where
  -- The sections from the number `i` on; `n` are loaded already.
  pub load_sections : String → ℕ → ℕ → List Line → Exec W ℕ
  load_sections source i n [] = pure n
  load_sections source i n (section ∷ sections) =
      let text = strip section in
      let skipped = load_sections source (suc i) n sections in
      let loaded = load_sections source (suc i) (suc n) sections in
      if is_empty text
      then skipped
      else (store.upsert_document (store.rule_id source i) source text >> loaded)

  pub load_rule_file : String → Exec W ℕ
  unfolding load_sections split_blank
  load_rule_file source = do
    content ← store.read source
    load_sections source 0 0 (split_blank content)

  -- An exception leaves the file out of the total, not what it loaded before.
  pub load_files : ℕ → List String → Exec W ℕ
  load_files total [] w = (ok total, w)
  load_files total (file ∷ files) w =
      let (count, w') = attempt (load_rule_file file) 0 w in
      load_files (total + recover 0 count) files w'

  pub load_all_rules : Exec W ℕ
  unfolding load_files
  load_all_rules w = if store.exists w then load_files 0 (store.glob w) w else (ok 0, w)

  -- The list comprehension builds the rules in order, and the first that raises ends it.
  abbrev pub rule_before : Outcome Rule → Outcome (List Rule) → Outcome (List Rule)
  rule_before (err e) rest = err e
  rule_before (ok rule) (err e) = err e
  rule_before (ok rule) (ok rules) = ok (rule ∷ rules)

  pub rules_from : String → List Hit → Outcome (List Rule)
  rules_from source [] = ok []
  rules_from source (hit ∷ hits) =
      let rest = rules_from source hits in
      if is_source source (store.source_of hit)
      then rule_before (store.compliance_rule hit) rest
      else rest

  pub get_rules_by_source : String → Exec W (List Rule)
  unfolding rules_from
  get_rules_by_source source = do
    results ← store.search_similar (concat "rules from " source) 100
    lift (rules_from source results)
