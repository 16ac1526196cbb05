-- ===== src/Models/Context.antt =====
-- ai_guardrail/aerorisk/models/context_bundle.py: the bundle of retrieved context, and the rule of
-- the highest severity in it.
use mathlib.Core.Path.{subst}
use mathlib.Core.List.{append-nil, append_assoc}
use aero_risk_ai.Base.{
  sym, ap, ℕ, ◌≤◌, ◌<◌, String, ◌≡◌, refl, ◌⊎◌, Bool, true, false, not, Option, none, some, List,
  [], ◌∷◌, ◌++◌, arith, ltb, str_eq, if◌then◌else◌, inl, inr, Bool-cases,
}
use aero_risk_ai.Base.Int.{ℤ}
use aero_risk_ai.Base.Lists.{All, All-append, is_empty}
use aero_risk_ai.Base.Value.{Fields}

pub record ComplianceRule (F : Type 0) : Type 0 where
  pub rule_id : String
  pub title : String
  pub content : String
  pub jurisdiction : String
  pub category : String
  pub severity : String
  pub source : String
  pub similarity_score : F

pub record NewsItem (F : Type 0) : Type 0 where
  pub news_id : String
  pub headline : String
  pub summary : String
  pub source : String
  pub published_at : F
  pub sentiment : F
  pub relevance_score : F
  pub symbols : List String

pub record UserProfile (F : Type 0) : Type 0 where
  pub user_id : String
  pub account_type : String
  pub risk_tolerance : String
  pub trading_experience_years : ℤ
  pub avg_daily_volume : ℤ
  pub max_position_size : ℤ
  pub restricted_symbols : List String
  pub kyc_status : String
  pub sanctions_checked_at : Option F

pub record SanctionsMatch (F : Type 0) : Type 0 where
  pub match_id : String
  pub entity_name : String
  pub list_name : String
  pub match_score : F
  pub match_type : String
  pub source_details : Fields F

pub record ContextBundle (F : Type 0) : Type 0 where
  pub compliance_rules : List (ComplianceRule F)
  pub news_items : List (NewsItem F)
  pub user_profile : Option (UserProfile F)
  pub sanctions_matches : List (SanctionsMatch F)
  pub circuit_breaker_status : Fields F

-- `severity_order.get(severity, 0)`
pub severity_order : String → ℕ
severity_order s =
    if str_eq s "CRITICAL"
    then 4
    else if str_eq s "HIGH"
    then 3
    else if str_eq s "MEDIUM"
    then 2
    else if str_eq s "LOW"
    then 1
    else 0

module _ {F : Type 0} where
  pub has_sanctions_match : ContextBundle F → Bool
  has_sanctions_match c = not (is_empty c.sanctions_matches)

  abbrev pub rank : ComplianceRule F → ℕ
  rank r = severity_order r.severity

  pub pick : ComplianceRule F → ComplianceRule F → ComplianceRule F
  pick best r = if ltb (rank best) (rank r) then r else best

  -- `max(rules, key=...)` keeps the first of the largest.
  pub max_rule : ComplianceRule F → List (ComplianceRule F) → ComplianceRule F
  max_rule best [] = best
  max_rule best (r ∷ rs) = max_rule (pick best r) rs

  pub highest_severity_rule : ContextBundle F → Option (ComplianceRule F)
  highest_severity_rule c = elim c.compliance_rules [ [] ↦ none | r ∷ rs ↦ some (max_rule r rs) ]

  -- Where `best` stands in the list: what is before it ranks lower, and nothing ranks higher.
  abbrev pub IsFirstMax : ComplianceRule F → List (ComplianceRule F) → Type 0
  IsFirstMax best rules =
      (before : List (ComplianceRule F)) × (after : List (ComplianceRule F)) × (rules
        ≡ before ++ best ∷ after)
      × All (λ r. rank r < rank best) before
      × All (λ r. rank r ≤ rank best) after

  All-raise :
      (m n : ℕ) (rs : List (ComplianceRule F))
      → m < n
      → All (λ r. rank r ≤ m) rs
      → All (λ r. rank r < n) rs
  All-raise m n [] h k = tt
  All-raise m n (r ∷ rs) h k = (omega arith, All-raise m n rs h k.1)

  All-weaken :
      (m n : ℕ) (rs : List (ComplianceRule F))
      → m ≤ n
      → All (λ r. rank r < m) rs
      → All (λ r. rank r < n) rs
  All-weaken m n [] h k = tt
  All-weaken m n (r ∷ rs) h k = (omega arith, All-weaken m n rs h k.1)

  pick-new : (best r : ComplianceRule F) → ltb (rank best) (rank r) ≡ true → pick best r ≡ r
  unfolding pick
  pick-new best r e = rw e

  pick-old : (best r : ComplianceRule F) → ltb (rank best) (rank r) ≡ false → pick best r ≡ best
  unfolding pick
  pick-old best r e = rw e

  overtaken :
      (before mid : List (ComplianceRule F)) (best r : ComplianceRule F)
      → ltb (rank best) (rank r) ≡ true
      → All (λ x. rank x < rank best) before
      → All (λ x. rank x ≤ rank best) mid
      → All (λ x. rank x < rank r) (before ++ best ∷ mid)
  overtaken before mid best r e hb hm =
      let lt : rank best < rank r = ground arith in
      All-append (λ (x : ComplianceRule F). rank x < rank r) before (best ∷ mid)
        (All-weaken (rank best) (rank r) before (omega arith) hb)
        (lt, All-raise (rank best) (rank r) mid lt hm)

  kept :
      (mid : List (ComplianceRule F)) (best r : ComplianceRule F)
      → ltb (rank best) (rank r) ≡ false
      → All (λ x. rank x ≤ rank best) mid
      → All (λ x. rank x ≤ rank best) (mid ++ r ∷ [])
  kept mid best r e hm =
      All-append (λ (x : ComplianceRule F). rank x ≤ rank best) mid (r ∷ []) hm (ground arith, tt)

  -- The loop, with the rules that it has passed: `before`, the best, and `mid`.
  max_rule-IsFirstMax :
      (before mid rs : List (ComplianceRule F)) (best : ComplianceRule F)
      → All (λ r. rank r < rank best) before
      → All (λ r. rank r ≤ rank best) mid
      → IsFirstMax (max_rule best rs) (before ++ best ∷ (mid ++ rs))
  unfolding max_rule
  max_rule-IsFirstMax before mid [] best hb hm = (
    before,
    mid,
    ap (λ (l : List (ComplianceRule F)). before ++ best ∷ l) (append-nil mid),
    hb,
    hm,
  )
  max_rule-IsFirstMax before mid (r ∷ rs) best hb hm =
      elim (Bool-cases (ltb (rank best) (rank r))) [
        | inl e ↦
            subst
              (λ (x : ComplianceRule F).
                IsFirstMax (max_rule x rs) (before ++ best ∷ (mid ++ r ∷ rs)))
              (sym (pick-new best r e))
              (subst (IsFirstMax (max_rule r rs)) (append_assoc before (best ∷ mid) (r ∷ rs)) (
                max_rule-IsFirstMax (before ++ best ∷ mid) [] rs r
                  (overtaken before mid best r e hb hm) tt))
        | inr e ↦
            subst
              (λ (x : ComplianceRule F).
                IsFirstMax (max_rule x rs) (before ++ best ∷ (mid ++ r ∷ rs)))
              (sym (pick-old best r e))
              (subst
                (λ (l : List (ComplianceRule F)).
                  IsFirstMax (max_rule best rs) (before ++ best ∷ l))
                (append_assoc mid (r ∷ []) rs)
                (max_rule-IsFirstMax before (mid ++ r ∷ []) rs best hb (kept mid best r e hm)))
      ]

  -- There is a highest rule exactly when there are rules, and it is the first of the rules that no
  -- rule outranks.
  pub highest_severity_rule-IsFirstMax :
      (c : ContextBundle F)
      → ((c.compliance_rules ≡ []) × (highest_severity_rule c ≡ none))
        ⊎ ((best : ComplianceRule F) × (highest_severity_rule c ≡ some best)
            × IsFirstMax best c.compliance_rules)
  unfolding highest_severity_rule
  highest_severity_rule-IsFirstMax c = go c.compliance_rules
    where
      go :
          (rules : List (ComplianceRule F))
          → let top : Option (ComplianceRule F) = elim rules [
            | [] ↦ none
            | r ∷ rs ↦ some (max_rule r rs)
          ] in
            ((rules ≡ []) × (top ≡ none))
            ⊎ ((best : ComplianceRule F) × (top ≡ some best) × IsFirstMax best rules)
      go [] = inl (refl, refl)
      go (r ∷ rs) = inr (max_rule r rs, refl, max_rule-IsFirstMax [] [] rs r tt tt)
