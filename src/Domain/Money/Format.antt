-- ===== src/Domain/Money/Format.antt =====
-- `Money.String` and `NewMoneyFromString`, one after the other.
use jungle_gaming_challenge.Base.{
  ℕ, ◌+◌, ◌-◌, ◌*◌, ◌/◌, ◌%◌, ◌^◌, ◌<◌, ◌≡◌, refl, ap, ◌∙◌, Bool, true, false, ◌||◌, not, [], ◌∷◌,
  ◌++◌, append_assoc, some, arith, ltb, Bool-cases, inl, inr, length,
}
use jungle_gaming_challenge.Base.Text.{Text, is_empty, is_space, trim_space, trim_space_id}
use jungle_gaming_challenge.Base.Int.{
  pos, max_int64, wrap64, add64, sub64, ◌+ℤ◌, ◌-ℤ◌, wrap64_of_IsInt64, add64_exact, sub64_exact,
}
use jungle_gaming_challenge.Errors.{ok}
use jungle_gaming_challenge.Domain.Money.{
  Money, to_text, new_money_from_string, match_decimal, match_from, split, normalize,
  money_of_parts,
}
use jungle_gaming_challenge.Domain.Money.Digits.{
  format_nat, parse_int, value_from, AreDigits, format_nat-AreDigits, value_from-format_nat,
  format_nat-ne-nil, format_nat_small, format_nat_two, parse_int-AreDigits,
}

-- the two digits of the cents, behind the point
abbrev cents : ℕ → Text
cents n = (b'0' + n % 100 / 10) ∷ (b'0' + n % 10) ∷ []

-- what `String` prints of an amount that is not negative
abbrev printed : ℕ → Text
printed n = format_nat (n / 100) ++ (b'.' ∷ cents n)

to_text-printed : (n : ℕ) (c : Text) → to_text (record { amount = pos n; currency = c }) ≡ printed n
unfolding to_text
to_text-printed n c = elim (Bool-cases (ltb (n % 100) 10)) [
  | inl e ↦ ground (arith, format_nat_small (n % 100))
  | inr e ↦ ground (arith, format_nat_two (n % 100))
]

match_from-digits :
    (s t : Text) (seen : Bool)
    → AreDigits s
    → match_from seen (s ++ t) ≡ match_from (seen || not (is_empty s)) t
unfolding match_from
match_from-digits [] t true h = refl
match_from-digits [] t false h = refl
match_from-digits (c ∷ s) t seen h = ground (arith, match_from-digits s t true h.1)

split-digits :
    (s t : Text) → AreDigits s → split b'.' t ≡ t ∷ [] → split b'.' (s ++ (b'.' ∷ t)) ≡ s ∷ t ∷ []
unfolding split
split-digits [] t h k = ground arith
split-digits (c ∷ s) t h k = ground (arith, split-digits s t h.1 k)

trim_space-digits :
    (s : Text) (a b : ℕ)
    → AreDigits s
    → is_empty s ≡ false
    → is_space b ≡ false
    → trim_space (s ++ (b'.' ∷ a ∷ b ∷ [])) ≡ s ++ (b'.' ∷ a ∷ b ∷ [])
trim_space-digits [] a b h k l = cc
trim_space-digits (c ∷ s) a b h k l =
    rw (← append_assoc s (b'.' ∷ a ∷ []) (b ∷ []))
      (trim_space_id c b (s ++ (b'.' ∷ a ∷ [])) (ground arith) l)

value_from-cents : (n : ℕ) → value_from 0 (cents n) ≡ n % 100
value_from-cents n = omega arith

-- The bounds that `NewMoneyFromString` tests hold for two parts of an `int64` amount.
module _ (n : ℕ) (h : n < 2 ^ 63) where
  wrap64-whole : wrap64 (pos (n / 100 * 100)) ≡ pos (n / 100 * 100)
  wrap64-whole = wrap64_of_IsInt64 _ (omega arith)

  sub64-cents : sub64 max_int64 (pos (n % 100)) ≡ pos (2 ^ 63 - 1 - n % 100)
  unfolding ◌-ℤ◌
  sub64-cents = sub64_exact _ _ (ground arith) ∙ ground arith

  add64-cents : add64 (pos (n / 100 * 100)) (pos (n % 100)) ≡ pos n
  unfolding ◌+ℤ◌
  add64-cents = add64_exact _ _ (ground arith) ∙ ground arith

  money_of_parts-printed :
      (c : Text)
      → money_of_parts (format_nat (n / 100)) (cents n) c
        ≡ ok (record { amount = pos n; currency = c })
  unfolding money_of_parts
  money_of_parts-printed c =
      ground (arith, parse_int-format_nat, parse_int-cents, wrap64-whole, sub64-cents, add64-cents)
    where
      parse_int-format_nat : parse_int (format_nat (n / 100)) ≡ some (n / 100)
      parse_int-format_nat =
          rw
            (parse_int-AreDigits (format_nat (n / 100)) (format_nat-ne-nil (n / 100))
              (format_nat-AreDigits (n / 100)) (rw value_from-format_nat (omega arith)))
            (rw value_from-format_nat)

      parse_int-cents : parse_int (cents n) ≡ some (n % 100)
      parse_int-cents =
          parse_int-AreDigits (cents n) refl (ground arith) (omega arith)
          ∙ ap some (value_from-cents n)

match_decimal-printed : (n : ℕ) → match_decimal (printed n) ≡ true
unfolding match_decimal match_from
match_decimal-printed n =
    rw
      (
        match_from-digits (format_nat (n / 100)) (b'.' ∷ cents n) false
            (format_nat-AreDigits (n / 100)),
        format_nat-ne-nil (n / 100),
      )
      (ground arith)

split-printed : (n : ℕ) → split b'.' (printed n) ≡ format_nat (n / 100) ∷ cents n ∷ []
unfolding split
split-printed n =
    split-digits (format_nat (n / 100)) (cents n) (format_nat-AreDigits (n / 100)) (ground arith)

trim_space-printed : (n : ℕ) → trim_space (printed n) ≡ printed n
trim_space-printed n =
    trim_space-digits (format_nat (n / 100)) _ _ (format_nat-AreDigits (n / 100))
      (format_nat-ne-nil (n / 100)) (ground arith)

-- Every amount that is not negative and fits in an `int64` is read back from its own print, in every
-- currency that the code keeps: three bytes, in upper case and without white space at the ends.
pub new_money_from_string-to_text :
    (n : ℕ) (c : Text)
    → n < 2 ^ 63
    → length c ≡ 3
    → normalize c ≡ c
    → let m : Money = record { amount = pos n; currency = c } in
      new_money_from_string (to_text m) c ≡ ok m
unfolding new_money_from_string
new_money_from_string-to_text n c h k l =
    rw (to_text-printed, l, k, trim_space-printed, match_decimal-printed, split-printed)
      (money_of_parts-printed n h c)
