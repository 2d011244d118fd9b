-- ===== src/Ledger/Accounting.antt =====
-- `_position_accountings` of src/toss_trader/paper.py: average-cost accounting of the fills in order.
-- `divide` is the division of `Decimal`, whose rounding the theorems do not depend on.
pub mod Balance
pub mod Truncation
use toss_trader.Prelude.{
  ℕ, ◌<◌, ◌≡◌, refl, Bool, true, false, String, List, [], ◌∷◌, map, All, Option, none, some, Result,
  ok, err, arith, ◌>>=◌, if◌then◌else◌, str_eq, Bool-cases, inl, inr,
}
use toss_trader.Prelude.Int.{ℤ, pos, ◌+ℤ◌, ◌-ℤ◌, ◌*ℤ◌, ltb_ℤ, eqb_ℤ, sum, sum-cons, int_laws}
use toss_trader.Prelude.Dict.{Dict, put, get_or, sum_by, sum_by-put}
use toss_trader.Models.Signal.{is_buy}
use toss_trader.Ledger.{FillRow, cash_change}

pub record PositionAccounting : Type 0 where
  pub quantity : ℤ
  pub cost_basis : ℤ
  pub realized_pnl : ℤ
  pub commission : ℤ
  pub tax : ℤ

abbrev pub flat : PositionAccounting
flat = record {
  quantity = pos 0;
  cost_basis = pos 0;
  realized_pnl = pos 0;
  commission = pos 0;
  tax = pos 0;
}

-- `ValueError("paper fills oversell position: …")`
pub data AccountingError : Type 0 where
  oversell : String → AccountingError

module _ (divide : ℤ → ℤ → ℤ) where
  abbrev pub bought : FillRow → PositionAccounting → PositionAccounting
  bought r a = record {
    quantity = a.quantity +ℤ pos r.fill.quantity;
    cost_basis = a.cost_basis +ℤ (pos r.fill.notional +ℤ pos r.fill.commission +ℤ pos r.fill.tax);
    realized_pnl = a.realized_pnl;
    commission = a.commission +ℤ pos r.fill.commission;
    tax = a.tax +ℤ pos r.fill.tax;
  }

  -- `basis * quantity / held`
  abbrev pub allocated_basis : FillRow → PositionAccounting → ℤ
  allocated_basis r a = divide (a.cost_basis *ℤ pos r.fill.quantity) a.quantity

  abbrev pub sold : FillRow → PositionAccounting → PositionAccounting
  sold r a = record {
    quantity = a.quantity -ℤ pos r.fill.quantity;
    cost_basis =
        if eqb_ℤ (a.quantity -ℤ pos r.fill.quantity) (pos 0)
        then pos 0
        else a.cost_basis -ℤ allocated_basis r a;
    realized_pnl =
        a.realized_pnl
        +ℤ (pos r.fill.notional -ℤ pos r.fill.commission -ℤ pos r.fill.tax -ℤ allocated_basis r a);
    commission = a.commission +ℤ pos r.fill.commission;
    tax = a.tax +ℤ pos r.fill.tax;
  }

  -- The body of the loop, on the values of the row's symbol.
  unfoldable pub account : FillRow → PositionAccounting → Result AccountingError PositionAccounting
  account r a =
      if is_buy r.fill.side
      then ok (bought r a)
      else if ltb_ℤ a.quantity (pos r.fill.quantity)
      then err (oversell r.fill.symbol)
      else ok (sold r a)

  unfoldable pub position_accountings :
      Dict PositionAccounting → List FillRow → Result AccountingError (Dict PositionAccounting)
  position_accountings d [] = ok d
  position_accountings d (r ∷ rows) = account r (get_or flat r.fill.symbol d) >>= λ a.
      position_accountings (put r.fill.symbol a d) rows
