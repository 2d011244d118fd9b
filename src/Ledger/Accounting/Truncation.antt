-- ===== src/Ledger/Accounting/Truncation.antt =====
-- A division for which the accounting of src/toss_trader/paper.py balances: integers, rounded toward 0.
use native.Mathlib.Nat.{mul-div_cancel, zero-div}
use toss_trader.Prelude.{ℕ, ◌+◌, ◌*◌, ◌/◌, ◌<◌, ◌≡◌, arith}
use toss_trader.Prelude.Int.{ℤ, pos, negsuc, pos_part, neg_part, sub_ℕ, ◌*ℤ◌}
use toss_trader.Ledger.Accounting.Balance.{Undoes}

-- The division of integers toward 0.
abbrev pub truncated : ℤ → ℤ → ℤ
truncated x d = sub_ℕ (pos_part x / pos_part d) (neg_part x / pos_part d)

pos_times : (k n : ℕ) → pos k *ℤ pos n ≡ pos (k * n)
unfolding ◌*ℤ◌
pos_times k n = ground arith

negsuc_times :
    (k n : ℕ)
    → 0 < n
    → (pos_part (negsuc k *ℤ pos n) ≡ 0) × (neg_part (negsuc k *ℤ pos n) ≡ (k + 1) * n)
unfolding ◌*ℤ◌
negsuc_times k n p = (ground arith, ground arith)

pub truncated-Undoes : Undoes truncated
truncated-Undoes (pos k) n p = rw (pos_times k n) (ground (arith, mul-div_cancel k p, zero-div n))
truncated-Undoes (negsuc k) n p =
    rw ((negsuc_times k n p).0, (negsuc_times k n p).1)
      (ground (arith, mul-div_cancel (k + 1) p, zero-div n))
