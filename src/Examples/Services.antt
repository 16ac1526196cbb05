-- ===== src/Examples/Services.antt =====
-- The theorems on the rule parsers, the news, the storage and the consumer at concrete inputs.
use aero_risk_ai.Base.{◌≡◌, refl, some, List, [], ◌∷◌, arith}
use aero_risk_ai.Base.Lists.{All}
use aero_risk_ai.Base.Text.{codes}
use aero_risk_ai.Base.Lines.{strip}
use aero_risk_ai.Rules.{Mifid2Rule, parse_mifid2_rules, parse_finra_rules}
use aero_risk_ai.Rules.Mifid.{IsRule, print_rules, parse_mifid2_rules-print_rules}

abbrev two_rules : List Mifid2Rule
two_rules =
    record {
      title = some (codes "Article 16(3)");
      sections = codes "Firms keep records." ∷ codes "For five years." ∷ [];
    }
    ∷ record { title = some (codes "Section 2"); sections = [] }
    ∷ []

two_rules-IsRule : All IsRule two_rules
unfolding strip
two_rules-IsRule = (
  (
    ((refl, refl, omega arith), refl),
    (((refl, refl, omega arith), refl), (((refl, refl, omega arith), refl), tt)),
  ),
  ((((refl, refl, omega arith), refl), tt), tt),
)

parse_mifid2_rules-print_rules_example : parse_mifid2_rules (print_rules two_rules) ≡ two_rules
parse_mifid2_rules-print_rules_example = parse_mifid2_rules-print_rules two_rules two_rules-IsRule

-- Lines before the first title are dropped, and blank ones everywhere.
mifid2_runs :
    parse_mifid2_rules (codes "Preface\n\n Article 1 \n a\n\nSection 2")
    ≡ record { title = some (codes "Article 1"); sections = codes "a" ∷ [] }
      ∷ record { title = some (codes "Section 2"); sections = [] }
      ∷ []
unfolding parse_mifid2_rules
mifid2_runs = refl

finra_runs :
    parse_finra_rules (codes "x\nRule 3110: Supervision: all\n  a\nRule 9")
    ≡ record {
      rule_number = codes "3110";
      title = codes " Supervision: all";
      content = codes "a" ∷ codes "Rule 9" ∷ [];
    }
      ∷ []
unfolding parse_finra_rules
finra_runs = refl
