-- ===== src/Tests/Examples.antt =====
-- The theorems at concrete values.
use jungle_gaming_challenge.Base.{◌≡◌, refl, ℕ, arith}
use jungle_gaming_challenge.Base.Text.{codes}
use jungle_gaming_challenge.Base.Int.{pos, ◌+ℤ◌, ◌-ℤ◌, IsInt64}
use jungle_gaming_challenge.Errors.{ok}
use jungle_gaming_challenge.Domain.Money.{
  Money, add, subtract, negate, new_money_from_string, to_text, normalize,
}
use jungle_gaming_challenge.Domain.Money.Format.{new_money_from_string-to_text}
use jungle_gaming_challenge.Domain.Money.Arithmetic.{Answers, arithmetic-Answers}
use jungle_gaming_challenge.Domain.Wallet.{debit, credit}
use jungle_gaming_challenge.Domain.Wallet.Balance.{
  IsBalance, Debits, Credits, debit-Debits, credit-Credits,
}
use jungle_gaming_challenge.Tests.Runs.{ana}

abbrev brl : ℕ → Money
brl n = record { amount = pos n; currency = codes "BRL" }

brl-IsInt64 : IsInt64 (pos 3050)
brl-IsInt64 = (omega arith, omega arith)

brl_normal : normalize (codes "BRL") ≡ codes "BRL"
unfolding normalize
brl_normal = refl

new_money_from_string-to_text_example :
    new_money_from_string (to_text (brl 3050)) (codes "BRL") ≡ ok (brl 3050)
new_money_from_string-to_text_example =
    new_money_from_string-to_text 3050 (codes "BRL") (omega arith) refl brl_normal

arithmetic-Answers_example :
    Answers (brl 3050) (brl 3050) (pos 3050 +ℤ pos 3050) (add (brl 3050) (brl 3050))
    × Answers (brl 3050) (brl 3050) (pos 3050 -ℤ pos 3050) (subtract (brl 3050) (brl 3050))
    × Answers (brl 3050) (brl 3050) (pos 0 -ℤ pos 3050) (negate (brl 3050))
arithmetic-Answers_example = arithmetic-Answers (brl 3050) (brl 3050) brl-IsInt64 brl-IsInt64

ana-IsBalance : IsBalance ana.balance
ana-IsBalance = ((omega arith, omega arith), omega arith)

debit-Debits_example : Debits ana (brl 3050) 11 (debit ana (brl 3050) 11)
debit-Debits_example = debit-Debits ana (brl 3050) 11 ana-IsBalance brl-IsInt64

credit-Credits_example : Credits ana (brl 3050) 11 (credit ana (brl 3050) 11)
credit-Credits_example = credit-Credits ana (brl 3050) 11 ana-IsBalance brl-IsInt64
