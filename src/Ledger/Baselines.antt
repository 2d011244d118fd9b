-- ===== src/Ledger/Baselines.antt =====
-- `daily_equity_baseline` and `record_daily_equity_baseline` of `PaperLedger` in src/toss_trader/paper.py. A time
-- lies after the first instant of year 1, so its day in UTC is a natural number.
use toss_trader.Prelude.{
  ℕ, ◌/◌, ◌≡◌, refl, sym, subst, Bool, true, false, ◌&&◌, String, List, [], ◌∷◌, ◌++◌, Option, none,
  some, any, str_eq, eq_iff, ◌==◌, arith, Bool-cases, inl, inr, if◌then◌else◌, Result, ok, err,
}
use toss_trader.Prelude.Int.{ℤ, pos_part}
use toss_trader.Models.Time.{DateTime, is_naive, instant}
use toss_trader.Ledger.{Ledger, BaselineRow}

pub data BaselineError : Type 0 where
  naive_capture : BaselineError

-- `_utc_trading_day`, of an aware time
unfoldable pub utc_trading_day : DateTime → ℕ
utc_trading_day t = pos_part (instant t) / 86_400_000_000

-- the primary key (portfolio_id, trading_day)
abbrev pub is_day : String → ℕ → BaselineRow → Bool
is_day p day r = str_eq r.portfolio_id p && r.trading_day == day

abbrev pub find_baseline : String → ℕ → List BaselineRow → Option ℤ
find_baseline p day [] = none
find_baseline p day (r ∷ rows) = if is_day p day r then some r.equity else find_baseline p day rows

unfoldable pub daily_equity_baseline : String → DateTime → Ledger → Result BaselineError (Option ℤ)
daily_equity_baseline p captured_at l =
    if is_naive captured_at
    then err naive_capture
    else ok (find_baseline p (utc_trading_day captured_at) l.baselines)

-- INSERT OR IGNORE
abbrev pub insert_baseline : BaselineRow → List BaselineRow → List BaselineRow
insert_baseline new rows =
    if any (is_day new.portfolio_id new.trading_day) rows then rows else rows ++ new ∷ []

unfoldable pub record_daily_equity_baseline :
    String → DateTime → ℤ → Ledger → Result BaselineError (Unit {0}) × Ledger
record_daily_equity_baseline p captured_at equity l =
    if is_naive captured_at then (err naive_capture, l) else (
      ok tt,
      record l {
        baselines =
            insert_baseline
              (record {
                portfolio_id = p;
                trading_day = utc_trading_day captured_at;
                equity = equity;
              })
              l.baselines;
      },
    )

-- the first of two answers that is there
abbrev pub or_else : Option ℤ → Option ℤ → Option ℤ
or_else (some x) y = some x
or_else none y = y

find_baseline-append :
    (q : String) (d : ℕ) (new : BaselineRow) (rows : List BaselineRow)
    → find_baseline q d (rows ++ new ∷ [])
      ≡ or_else (find_baseline q d rows) (if is_day q d new then some new.equity else none)
find_baseline-append q d new [] = ground arith
find_baseline-append q d new (r ∷ rows) = ground (arith, find_baseline-append q d new rows)

find_baseline-taken :
    (q : String) (d : ℕ) (rows : List BaselineRow) (o : Option ℤ)
    → any (is_day q d) rows ≡ true
    → or_else (find_baseline q d rows) o ≡ find_baseline q d rows
find_baseline-taken q d [] o h = cc h
find_baseline-taken q d (r ∷ rows) o h = ground (arith, find_baseline-taken q d rows o)

or_else-none : (o : Option ℤ) → or_else o none ≡ o
or_else-none none = refl
or_else-none (some x) = refl

same_key :
    (q : String) (d : ℕ) (new : BaselineRow)
    → is_day q d new ≡ true
    → (new.portfolio_id ≡ q) × (new.trading_day ≡ d)
same_key q d new h = ((eq_iff new.portfolio_id q).0 (ground arith), ground arith)

find_baseline-insert :
    (q : String) (d : ℕ) (new : BaselineRow) (rows : List BaselineRow)
    → find_baseline q d (insert_baseline new rows)
      ≡ or_else (find_baseline q d rows) (if is_day q d new then some new.equity else none)
find_baseline-insert q d new rows =
    elim (Bool-cases (any (is_day new.portfolio_id new.trading_day) rows)) [
      | inr free ↦ rw free (find_baseline-append q d new rows)
      | inl taken ↦ elim (Bool-cases (is_day q d new)) [
        | inr other ↦ rw (taken, other) (sym (or_else-none (find_baseline q d rows)))
        | inl same ↦
            let (p, day) = same_key q d new same in
            rw (taken, same)
              (sym (
                find_baseline-taken q d rows (some new.equity) (
                  subst (λ x. any (is_day x d) rows ≡ true) p
                    (subst (λ x. any (is_day new.portfolio_id x) rows ≡ true) day taken))))
      ]
    ]

-- At a time with an offset, recording a baseline keeps every baseline that is there: afterwards the one of a portfolio
-- and a time is the one before, or, where there was none, the recorded one if it is of that portfolio and that UTC day.
pub record-daily_equity_baseline :
    (p q : String) (at when : DateTime) (equity : ℤ) (l : Ledger)
    → is_naive at ≡ false
    → is_naive when ≡ false
    → daily_equity_baseline q when (record_daily_equity_baseline p at equity l).1
      ≡ ok (
          or_else (find_baseline q (utc_trading_day when) l.baselines) (
            if str_eq p q && utc_trading_day at == utc_trading_day when then some equity else none))
unfolding daily_equity_baseline record_daily_equity_baseline
record-daily_equity_baseline p q at when equity l a w =
    rw
      (
        a,
        w,
        daily_equity_baseline,
        find_baseline-insert q (utc_trading_day when)
            (record { portfolio_id = p; trading_day = utc_trading_day at; equity = equity })
            l.baselines,
      )
      refl
