-- ===== src/Month.antt =====
-- pkg/utils/month.go: a month as the number 100 * year + month. The years are not negative.
pub mod Order
use evgo.Shared.{ℕ, ◌+◌, ◌-◌, ◌*◌, ◌/◌, Bool, true, false, if◌then◌else◌, nat_beq}

-- `Set`
unfoldable pub make_month : ℕ → ℕ → ℕ
make_month year month = year * 100 + month

unfoldable pub year_of : ℕ → ℕ
year_of m = m / 100

unfoldable pub month_of : ℕ → ℕ
month_of m = m - year_of m * 100

unfoldable pub prev : ℕ → ℕ
prev m =
    if nat_beq (month_of m) 1
    then make_month (year_of m - 1) 12
    else make_month (year_of m) (month_of m - 1)

unfoldable pub next : ℕ → ℕ
next m =
    if nat_beq (month_of m) 12
    then make_month (year_of m + 1) 1
    else make_month (year_of m) (month_of m + 1)
