-- ===== src/Domain/Money/Arithmetic.antt =====
-- The arithmetic of internal/domain/money.go against exact integers.
use jungle_gaming_challenge.Base.{
  ◌≡◌, ◌≢◌, inl, inr, true, false, arith, Bool-cases, subst, zero, suc,
}
use jungle_gaming_challenge.Base.Text.{Text, text_eq, text_eq_self, text_eq→eq}
use jungle_gaming_challenge.Base.Int.{
  ℤ, pos, negsuc, ◌+ℤ◌, ◌-ℤ◌, ◌≤ℤ◌, IsInt64, max_int64, min_int64, add64, sub64, int_laws,
  add64_exact, sub64_exact, neg64_exact, +ℤ_parts, -ℤ_parts, eq_of_parts,
}
use jungle_gaming_challenge.Errors.{Result, ok, err, incompatible_currency, money_overflow}
use jungle_gaming_challenge.Domain.Money.{Money, add, subtract, negate, compare_money}

-- What an operation on two amounts may answer: the exact amount in the same currency, if it fits in
-- an `int64`; an overflow, if it does not; and a refusal where the currencies differ.
abbrev pub Answers : Money → Money → ℤ → Result Money → Type 0
Answers m other exact (ok r) =
    (m.currency ≡ other.currency) × IsInt64 exact × (r.amount ≡ exact) × (r.currency ≡ m.currency)
Answers m other exact (err money_overflow) = (m.currency ≡ other.currency) × (¬ IsInt64 exact)
Answers m other exact (err incompatible_currency) = m.currency ≢ other.currency
Answers m other exact (err _) = ⊥

pub ne_of_text_eq : (s t : Text) → text_eq s t ≡ false → s ≢ t
ne_of_text_eq s t h e = cc (subst (λ c. text_eq s c ≡ true) e (text_eq_self s))

module _ (a : ℤ) (h : IsInt64 a) where
  sub64_max : pos 0 ≤ℤ a → sub64 max_int64 a ≡ max_int64 -ℤ a
  sub64_max k = sub64_exact max_int64 a (omega int_laws)

  sub64_min : a ≤ℤ pos 0 → sub64 min_int64 a ≡ min_int64 -ℤ a
  sub64_min k = sub64_exact min_int64 a (omega int_laws)

  add64_max : a ≤ℤ pos 0 → add64 max_int64 a ≡ max_int64 +ℤ a
  add64_max k = add64_exact max_int64 a (omega int_laws)

  add64_min : pos 0 ≤ℤ a → add64 min_int64 a ≡ min_int64 +ℤ a
  add64_min k = add64_exact min_int64 a (omega int_laws)

-- Adding two amounts gives the exact sum, and fails exactly where the currencies differ or the sum
-- does not fit in 64 bits.
pub add-Answers :
    (m other : Money)
    → IsInt64 m.amount
    → IsInt64 other.amount
    → Answers m other (m.amount +ℤ other.amount) (add m other)
unfolding add
add-Answers m other h k = elim (Bool-cases (text_eq m.currency other.currency)) [
  | inr e ↦ rw e (ne_of_text_eq m.currency other.currency e)
  | inl e ↦ rw e (
      ground (
        arith,
        text_eq→eq m.currency other.currency,
        sub64_max other.amount k,
        sub64_min other.amount k,
        add64_exact m.amount other.amount,
        +ℤ_parts m.amount other.amount,
        -ℤ_parts max_int64 other.amount,
        -ℤ_parts min_int64 other.amount,
      ))
]

-- Subtracting one amount from another gives the exact difference, and fails exactly where the
-- currencies differ or the difference does not fit in 64 bits.
pub subtract-Answers :
    (m other : Money)
    → IsInt64 m.amount
    → IsInt64 other.amount
    → Answers m other (m.amount -ℤ other.amount) (subtract m other)
unfolding subtract
subtract-Answers m other h k = elim (Bool-cases (text_eq m.currency other.currency)) [
  | inr e ↦ rw e (ne_of_text_eq m.currency other.currency e)
  | inl e ↦ rw e (
      ground (
        arith,
        text_eq→eq m.currency other.currency,
        add64_max other.amount k,
        add64_min other.amount k,
        sub64_exact m.amount other.amount,
        -ℤ_parts m.amount other.amount,
        +ℤ_parts max_int64 other.amount,
        +ℤ_parts min_int64 other.amount,
      ))
]

-- Negating an amount gives its exact opposite, except for the least `int64`, which is refused.
pub negate-Answers : (m : Money) → IsInt64 m.amount → Answers m m (pos 0 -ℤ m.amount) (negate m)
unfolding negate
negate-Answers m h = ground (arith, neg64_exact m.amount, -ℤ_parts (pos 0) m.amount)

-- Sums, differences and opposites of amounts are exact: on `int64` amounts an addition, a subtraction and
-- a negation answer with the exact result in the same currency, fail with an overflow exactly where it
-- does not fit in 64 bits, and with a refusal exactly where the currencies differ.
pub arithmetic-Answers :
    (m other : Money)
    → IsInt64 m.amount
    → IsInt64 other.amount
    → Answers m other (m.amount +ℤ other.amount) (add m other)
      × Answers m other (m.amount -ℤ other.amount) (subtract m other)
      × Answers m m (pos 0 -ℤ m.amount) (negate m)
arithmetic-Answers m other h k =
    (add-Answers m other h k, subtract-Answers m other h k, negate-Answers m h)

-- What `compare_money` answers: the sign of the difference.
abbrev pub Compares : Money → Money → Result ℤ → Type 0
Compares m other (ok (pos zero)) = (m.currency ≡ other.currency) × (m.amount ≡ other.amount)
Compares m other (ok (pos (suc n))) =
    (m.currency ≡ other.currency) × (other.amount +ℤ pos 1 ≤ℤ m.amount)
Compares m other (ok (negsuc n)) =
    (m.currency ≡ other.currency) × (m.amount +ℤ pos 1 ≤ℤ other.amount)
Compares m other (err incompatible_currency) = m.currency ≢ other.currency
Compares m other (err _) = ⊥

-- Comparing answers zero exactly on equal amounts, a positive number exactly where the first amount
-- is the greater one, a negative number exactly where it is the smaller one, and fails exactly where
-- the currencies differ.
pub compare_money-Compares : (m other : Money) → Compares m other (compare_money m other)
unfolding compare_money
compare_money-Compares m other = elim (Bool-cases (text_eq m.currency other.currency)) [
  | inr e ↦ rw e (ne_of_text_eq m.currency other.currency e)
  | inl e ↦ rw e (
      ground (
        arith,
        text_eq→eq m.currency other.currency,
        +ℤ_parts m.amount (pos 1),
        +ℤ_parts other.amount (pos 1),
        eq_of_parts m.amount other.amount,
      ))
]
