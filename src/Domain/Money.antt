-- ===== src/Domain/Money.antt =====
-- internal/domain/money.go: an amount in cents in an `int64`, and a currency code.
pub mod Digits
pub mod Format
pub mod Arithmetic
use jungle_gaming_challenge.Base.{
  ℕ, ◌+◌, ◌*◌, ◌/◌, ◌%◌, ◌^◌, ◌-◌, Bool, true, false, ◌&&◌, not, List, [], ◌∷◌, ◌++◌, Option, none,
  some, ltb, leb, ◌==◌, length, get_or, if◌then◌else◌, suc,
}
use jungle_gaming_challenge.Base.Text.{Text, text_eq, to_upper, trim_space}
use jungle_gaming_challenge.Base.Int.{
  ℤ, pos, negsuc, ltb_ℤ, eqb_ℤ, add64, sub64, neg64, wrap64, max_int64, min_int64, sub_ℕ,
}
use jungle_gaming_challenge.Errors.{
  Result, ok, err, fail_if, ◌>>=◌, ◌>>◌, incompatible_currency, money_overflow,
  invalid_money_format, invalid_currency_format,
}
use Digits.{is_digit, format_nat, parse_int}

pub record Money : Type 0 where
  pub amount : ℤ
  pub currency : Text

-- What is left of `^[0-9]+\.[0-9]{2}$` behind the point.
abbrev two_digits : Text → Bool
two_digits (a ∷ b ∷ []) = is_digit a && is_digit b
two_digits s = false

-- The first argument tells whether a digit has been read.
match_from : Bool → Text → Bool
match_from seen [] = false
match_from seen (c ∷ s) =
    if is_digit c then match_from true s else seen && c == b'.' && two_digits s

-- `decimalRegex.MatchString`
unfoldable pub match_decimal : Text → Bool
unfolding match_from
match_decimal s = match_from false s

abbrev extend_head : ℕ → List Text → List Text
extend_head c [] = (c ∷ []) ∷ []
extend_head c (p ∷ ps) = (c ∷ p) ∷ ps

-- `strings.Split` at a separator of one byte
unfoldable pub split : ℕ → Text → List Text
split sep [] = [] ∷ []
split sep (c ∷ s) = let rest = split sep s in if c == sep then [] ∷ rest else extend_head c rest

-- `strings.TrimSpace(strings.ToUpper(s))`; the code also writes the two calls the other way round,
-- which is the same on ASCII since no white space has an upper case.
unfoldable pub normalize : Text → Text
unfolding to_upper trim_space
normalize s = trim_space (to_upper s)

-- `NewMoneyFromString` behind the checks of the format: the two parts are read, and put together in
-- `int64` arithmetic.
unfoldable pub money_of_parts : Text → Text → Text → Result Money
money_of_parts integer_str decimal_str currency = elim (parse_int integer_str) [
  | none ↦ err money_overflow
  | some integers ↦ elim (parse_int decimal_str) [
    | none ↦ err invalid_money_format
    | some decimals ↦
        let amount = wrap64 (pos (integers * 100)) in
        if ltb ((2 ^ 63 - 1) / 100) integers
        then err money_overflow
        else if ltb_ℤ (sub64 max_int64 (pos decimals)) amount
        then err money_overflow
        else ok (record { amount = add64 amount (pos decimals); currency = currency })
  ]
]

unfoldable pub new_money_from_string : Text → Text → Result Money
unfolding match_decimal split money_of_parts normalize
new_money_from_string val_str currency_in =
    let currency = normalize currency_in in
    let val = trim_space val_str in
    let parts = split b'.' val in
    do
      fail_if (not (length currency == 3)) invalid_currency_format
      fail_if (not (match_decimal val)) invalid_money_format
      money_of_parts (get_or parts 0 []) (get_or parts 1 []) currency

unfoldable pub new_zero_money : Text → Money
unfolding normalize
new_zero_money currency = record { amount = pos 0; currency = normalize currency }

unfoldable pub new_internal_money : ℤ → Text → Money
new_internal_money amount currency = record { amount = amount; currency = normalize currency }

-- `/` and `%` of Go by 100, which round towards zero
abbrev quot_100 : ℤ → ℤ
quot_100 (pos n) = pos (n / 100)
quot_100 (negsuc n) = sub_ℕ 0 (suc n / 100)

abbrev rem_100 : ℤ → ℤ
rem_100 (pos n) = pos (n % 100)
rem_100 (negsuc n) = sub_ℕ 0 (suc n % 100)

-- the verbs `%d` and `%02d`
abbrev format_int : ℤ → Text
format_int (pos n) = format_nat n
format_int (negsuc n) = b'-' ∷ format_nat (suc n)

abbrev format_two : ℤ → Text
format_two (pos n) = if ltb n 10 then b'0' ∷ format_nat n else format_nat n
format_two (negsuc n) = b'-' ∷ format_nat (suc n)

-- `Money.String`
unfoldable pub to_text : Money → Text
to_text m =
    let negative = ltb_ℤ m.amount (pos 0) in
    let abs_amount = if negative then neg64 m.amount else m.amount in
    let sign : Text = if negative then b'-' ∷ [] else [] in
    sign ++ (format_int (quot_100 abs_amount) ++ (b'.' ∷ format_two (rem_100 abs_amount)))

unfoldable pub add : Money → Money → Result Money
add m other = do
  fail_if (not (text_eq m.currency other.currency)) incompatible_currency
  fail_if (ltb_ℤ (pos 0) other.amount && ltb_ℤ (sub64 max_int64 other.amount) m.amount)
      money_overflow
  fail_if (ltb_ℤ other.amount (pos 0) && ltb_ℤ m.amount (sub64 min_int64 other.amount))
      money_overflow
  ok (record m { amount = add64 m.amount other.amount })

unfoldable pub subtract : Money → Money → Result Money
subtract m other = do
  fail_if (not (text_eq m.currency other.currency)) incompatible_currency
  fail_if (ltb_ℤ (pos 0) other.amount && ltb_ℤ m.amount (add64 min_int64 other.amount))
      money_overflow
  fail_if (ltb_ℤ other.amount (pos 0) && ltb_ℤ (add64 max_int64 other.amount) m.amount)
      money_overflow
  ok (record m { amount = sub64 m.amount other.amount })

unfoldable pub negate : Money → Result Money
negate m = do
  fail_if (eqb_ℤ m.amount min_int64) money_overflow
  ok (record m { amount = neg64 m.amount })

-- -1, 0 or 1
unfoldable pub compare_money : Money → Money → Result ℤ
compare_money m other = do
  fail_if (not (text_eq m.currency other.currency)) incompatible_currency
  if ltb_ℤ m.amount other.amount
      then ok (negsuc 0)
      else if ltb_ℤ other.amount m.amount
      then ok (pos 1)
      else ok (pos 0)

unfoldable pub is_zero : Money → Bool
is_zero m = eqb_ℤ m.amount (pos 0)

unfoldable pub is_negative : Money → Bool
is_negative m = ltb_ℤ m.amount (pos 0)

unfoldable pub is_currency_supported : Money → List Text → Bool
unfolding normalize
is_currency_supported m [] = false
is_currency_supported m (c ∷ cs) =
    if text_eq (normalize c) m.currency then true else is_currency_supported m cs
