-- ===== src/Domain/Money/Digits.antt =====
-- Decimal digits: what `%d` prints and `strconv.ParseInt` reads of a number that is not negative.
use mathlib.Core.List.{foldl, foldl-append}
use jungle_gaming_challenge.Base.{
  ℕ, zero, suc, ◌+◌, ◌-◌, ◌*◌, ◌/◌, ◌%◌, ◌^◌, ◌<◌, ◌≤◌, ◌≡◌, refl, Bool, true, false, ◌&&◌, not, [],
  ◌∷◌, ◌++◌, Option, none, some, arith, ltb, leb, All, if◌then◌else◌, Bool-cases, inl, inr,
}
use jungle_gaming_challenge.Base.Text.{Text, is_empty}

abbrev pub is_digit : ℕ → Bool
is_digit c = leb b'0' c && leb c b'9'

-- With fuel; `format_nat` gives enough of it.
digits : ℕ → ℕ → Text
digits zero n = []
digits (suc fuel) n =
    let front = digits fuel (n / 10) in
    if ltb n 10 then (b'0' + n) ∷ [] else front ++ ((b'0' + n % 10) ∷ [])

unfoldable pub format_nat : ℕ → Text
unfolding digits
format_nat n = digits (suc n) n

abbrev pub value_from : ℕ → Text → ℕ
value_from = foldl (λ n c. n * 10 + (c - b'0'))

all_digits : Text → Bool
all_digits [] = true
all_digits (c ∷ s) = is_digit c && all_digits s

-- `strconv.ParseInt(s, 10, 64)` on a text without sign; `none` is its syntax or range error.
unfoldable pub parse_int : Text → Option ℕ
unfolding all_digits
parse_int s =
    if not (is_empty s) && all_digits s && leb (value_from 0 s) (2 ^ 63 - 1)
    then some (value_from 0 s)
    else none

abbrev pub AreDigits : Text → Type 0
AreDigits = All (λ c. is_digit c ≡ true)

is_empty-append : (s : Text) (c : ℕ) → is_empty (s ++ (c ∷ [])) ≡ false
is_empty-append [] c = refl
is_empty-append (d ∷ s) c = refl

AreDigits-append : (s t : Text) → AreDigits s → AreDigits t → AreDigits (s ++ t)
AreDigits-append [] t h k = k
AreDigits-append (c ∷ s) t h k = (h.0, AreDigits-append s t h.1 k)

digits-AreDigits : (fuel n : ℕ) → AreDigits (digits fuel n)
unfolding digits
digits-AreDigits zero n = tt
digits-AreDigits (suc fuel) n = elim (Bool-cases (ltb n 10)) [
  | inl e ↦ rw e (ground arith)
  | inr e ↦ rw e (
      AreDigits-append (digits fuel (n / 10)) ((b'0' + n % 10) ∷ [])
        (digits-AreDigits fuel (n / 10)) (ground arith))
]

pub format_nat-AreDigits : (n : ℕ) → AreDigits (format_nat n)
unfolding format_nat
format_nat-AreDigits n = digits-AreDigits (suc n) n

value_from-digits : (fuel n : ℕ) → n < fuel → value_from 0 (digits fuel n) ≡ n
unfolding digits
value_from-digits zero n h = elim h [ ]
value_from-digits (suc fuel) n h = elim (Bool-cases (ltb n 10)) [
  | inl e ↦ rw e (ground arith)
  | inr e ↦ rw (e, foldl-append, value_from-digits fuel (n / 10) (ground arith)) (omega arith)
]

-- The fuel is enough: the digits of a number spell it.
pub value_from-format_nat : (n : ℕ) → value_from 0 (format_nat n) ≡ n
unfolding format_nat
value_from-format_nat n = value_from-digits (suc n) n (omega arith)

all_digits-AreDigits : (s : Text) → AreDigits s → all_digits s ≡ true
unfolding all_digits
all_digits-AreDigits [] h = refl
all_digits-AreDigits (c ∷ s) h = ground (arith, all_digits-AreDigits s h.1)

pub format_nat-ne-nil : (n : ℕ) → is_empty (format_nat n) ≡ false
unfolding format_nat
format_nat-ne-nil n = elim (Bool-cases (ltb n 10)) [
  | inl e ↦ rw e
  | inr e ↦ rw e (is_empty-append (digits n (n / 10)) (b'0' + n % 10))
]

-- A text of digits whose value fits in an `int64` is read as that value.
pub parse_int-AreDigits :
    (s : Text)
    → is_empty s ≡ false
    → AreDigits s
    → value_from 0 s ≤ 2 ^ 63 - 1
    → parse_int s ≡ some (value_from 0 s)
unfolding parse_int
parse_int-AreDigits s h k l = rw (h, all_digits-AreDigits s k) (ground arith)

pub format_nat_small : (n : ℕ) → n < 10 → format_nat n ≡ (b'0' + n) ∷ []
unfolding format_nat
format_nat_small n h = ground arith

pub format_nat_two :
    (n : ℕ) → 10 ≤ n → n < 100 → format_nat n ≡ (b'0' + n / 10) ∷ (b'0' + n % 10) ∷ []
unfolding format_nat
format_nat_two zero h k = absurd (omega arith)
format_nat_two (suc n) h k = ground arith
