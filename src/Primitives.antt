-- ===== src/Primitives.antt =====
-- domain/primitives: validated values. Timestamps are microseconds of UTC, identifiers are the
-- 128-bit integers of their UUIDs, and quantities are natural numbers.
use auto_trading_v.Prelude.{ℕ, not, if◌then◌else◌, codes_eq, Result, ok, raise}
use auto_trading_v.Decimals.{Decimal, is_positive, add, sub}
use auto_trading_v.Text.{Text, codes}

pub record Money : Type 0 where
  pub amount : Decimal
  pub currency : Text

pub data MoneyError : Type 0 where
  currency_mismatch : Text → Text → MoneyError

-- The context in force where the code sets none.
abbrev pub default_precision : ℕ
default_precision = 28

-- Money.__add__ and Money.__sub__
unfoldable pub add_money : Money → Money → Result MoneyError Money
add_money a b =
    if not (codes_eq a.currency b.currency)
    then raise (currency_mismatch a.currency b.currency)
    else ok (record { amount = add default_precision a.amount b.amount; currency = a.currency })

unfoldable pub sub_money : Money → Money → Result MoneyError Money
sub_money a b =
    if not (codes_eq a.currency b.currency)
    then raise (currency_mismatch a.currency b.currency)
    else ok (record { amount = sub default_precision a.amount b.amount; currency = a.currency })

pub data PriceError : Type 0 where
  price_not_positive : PriceError

-- Price(value)
unfoldable pub price : Decimal → Result PriceError Decimal
price value = if not (is_positive value) then raise price_not_positive else ok value

abbrev pub usd : Text
usd = codes "USD"
