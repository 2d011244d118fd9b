-- ===== src/Risk/Universe.antt =====
-- `RiskManager.evaluate_universe_candidate` of src/toss_trader/risk.py.
use toss_trader.Prelude.{◌≡◌, ◌↔◌, Bool, true, false, not, String, [], ◌∷◌, str_eq, arith}
use toss_trader.Prelude.Int.{ℤ, pos, leb_ℤ}
use toss_trader.Risk.{
  RiskDecision, raised, decide_by, unsupported_security_type, not_common_share, stock_not_active,
  trading_suspended, invalid_reference_price,
}

pub record UniverseCandidateRisk : Type 0 where
  pub symbol : String
  pub reference_price : ℤ
  pub security_type : String
  pub is_common_share : Bool
  pub status : String
  pub trading_suspended : Bool

unfoldable pub evaluate_universe_candidate : UniverseCandidateRisk → RiskDecision
evaluate_universe_candidate c = decide_by (
    raised (
      (not (str_eq c.security_type "STOCK"), unsupported_security_type)
      ∷ (not c.is_common_share, not_common_share)
      ∷ (not (str_eq c.status "ACTIVE"), stock_not_active)
      ∷ (c.trading_suspended, trading_suspended)
      ∷ (leb_ℤ c.reference_price (pos 0), invalid_reference_price)
      ∷ []))

-- A candidate is approved exactly when it is a common share of type STOCK, active and not suspended, at a positive price.
pub evaluate_universe_candidate-approved_iff :
    (c : UniverseCandidateRisk)
    → ((evaluate_universe_candidate c).approved ≡ true) ↔ (
        (str_eq c.security_type "STOCK" ≡ true)
        × (c.is_common_share ≡ true)
        × (str_eq c.status "ACTIVE" ≡ true)
        × (c.trading_suspended ≡ false)
        × (leb_ℤ c.reference_price (pos 0) ≡ false))
unfolding evaluate_universe_candidate
evaluate_universe_candidate-approved_iff c = (λ h. ground arith, λ h. ground arith)
