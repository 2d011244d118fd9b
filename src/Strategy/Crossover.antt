-- ===== src/Strategy/Crossover.antt =====
-- When the crossover strategy gives a signal.
use toss_trader.Prelude.{◌*◌, ◌≤◌, ◌<◌, ◌≡◌, ◌↔◌, Bool, true, some, arith}
use toss_trader.Models.Signal.{buy, sell}
use toss_trader.Strategy.{Average, crossed_above, crossed_below, trend_entry, crossing}

-- One fraction is at most, or below, another.
abbrev pub IsAtMost : Average → Average → Type 0
IsAtMost a b = a.total * b.count ≤ b.total * a.count

abbrev pub IsBelow : Average → Average → Type 0
IsBelow a b = a.total * b.count < b.total * a.count

-- A crossover above is labelled, and bought, exactly when the short average was not above the long one and now is; a
-- crossover below, sold, exactly when it was not below and now is; a trend entry, bought, exactly when it is allowed
-- and the short average was above and still is.
pub crossing_iff :
    (ps pl s l : Average) (trend : Bool)
    → ((crossing ps pl s l trend ≡ some (buy, crossed_above)) ↔ (IsAtMost ps pl × IsBelow l s))
      × ((crossing ps pl s l trend ≡ some (sell, crossed_below)) ↔ (IsAtMost pl ps × IsBelow s l))
      × ((crossing ps pl s l trend ≡ some (buy, trend_entry))
          ↔ ((trend ≡ true) × IsBelow pl ps × IsBelow l s))
unfolding crossing
crossing_iff ps pl s l trend = (ground arith, ground arith, ground arith)
