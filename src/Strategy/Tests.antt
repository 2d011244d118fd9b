-- ===== src/Strategy/Tests.antt =====
-- Crossovers at concrete averages.
use toss_trader.Prelude.{◌≡◌, ◌↔◌, refl, true, false, some}
use toss_trader.Models.Signal.{buy, sell}
use toss_trader.Strategy.{Average, crossed_above, crossed_below, trend_entry, crossing}
use toss_trader.Strategy.Crossover.{IsAtMost, IsBelow, crossing_iff}

abbrev ten : Average
ten = record { total = 20; count = 2 }

abbrev nine : Average
nine = record { total = 27; count = 3 }

crossing_iff_example :
    ((crossing nine ten ten nine false ≡ some (buy, crossed_above))
      ↔ (IsAtMost nine ten × IsBelow nine ten))
    × ((crossing nine ten ten nine false ≡ some (sell, crossed_below))
        ↔ (IsAtMost ten nine × IsBelow ten nine))
    × ((crossing nine ten ten nine false ≡ some (buy, trend_entry))
        ↔ ((false ≡ true) × IsBelow ten nine × IsBelow nine ten))
crossing_iff_example = crossing_iff nine ten ten nine false

crossed : crossing nine ten ten nine false ≡ some (buy, crossed_above)
unfolding crossing
crossed = refl
