-- ===== src/Month/Order.antt =====
-- utils.Month: the months before and after, and the index of a month.
use evgo.Shared.{ℕ, ◌+◌, ◌*◌, ◌≤◌, ◌≡◌, arith}
use evgo.Month.{make_month, year_of, month_of, prev, next}

-- a month of a year from 1 on
pub record IsMonth (m : ℕ) : Type 0 where
  pub year_low : 1 ≤ year_of m
  pub low : 1 ≤ month_of m
  pub high : month_of m ≤ 12

-- the months that have passed since year 0
abbrev pub index : ℕ → ℕ
index m = year_of m * 12 + month_of m

-- The month after a month from year 1 on is a month again, its index is one more, and the month
-- before it is the given one.
pub next-IsMonth :
    (m : ℕ) → IsMonth m → IsMonth (next m) × (index (next m) ≡ index m + 1) × (prev (next m) ≡ m)
unfolding next prev make_month year_of month_of
next-IsMonth m v = ground arith

-- The month before a month from year 2 on is a month again, its index is one less, and the month
-- after it is the given one.
pub prev-IsMonth :
    (m : ℕ)
    → IsMonth m
    → 2 ≤ year_of m
    → IsMonth (prev m) × (index (prev m) + 1 ≡ index m) × (next (prev m) ≡ m)
unfolding next prev make_month year_of month_of
prev-IsMonth m v h = ground arith
