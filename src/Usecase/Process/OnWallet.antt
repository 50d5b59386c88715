-- ===== src/Usecase/Process/OnWallet.antt =====
-- What the switch on the kind makes of a wallet.
use jungle_gaming_challenge.Base.{ℕ, ◌≡◌, Option, none, some, arith}
use jungle_gaming_challenge.Base.Int.{pos, add64}
use jungle_gaming_challenge.Errors.{reference_not_usable, unsupported_kind}
use jungle_gaming_challenge.Domain.Money.{Money}
use jungle_gaming_challenge.Domain.Wallet.{Wallet, debit, credit}
use jungle_gaming_challenge.Domain.Wager.{
  WagerTransaction, TransactionKind, opening, bet, win, loss, refund, rollback, unknown,
}
use jungle_gaming_challenge.Store.{Direction, debit_entry, credit_entry}
use jungle_gaming_challenge.Store.Rules.{
  Quiet, Any, Yields, bind-Quiet, lift-Quiet, pure-Quiet, raise-Quiet, if-Quiet, time_now-Quiet,
}
use jungle_gaming_challenge.Repository.Spares.{find_by_external_id_tx-Quiet}
use jungle_gaming_challenge.Usecase.Wager.{
  found_reference, Effect, awaiting_reference, unmoved, moved, debited, credited, debit_effect,
  credit_effect, reference_effect, kind_effect, is_processed,
}

-- A bet takes money from its wallet, and every other kind that moves money pays it.
abbrev pub direction_of : TransactionKind → Direction
direction_of bet = debit_entry
direction_of _ = credit_entry

-- The effect on a wallet is about that wallet, under the next version, and in this direction.
abbrev pub OnWallet : Direction → Wallet → Effect → Type 0
OnWallet d w (moved new e) = (new.id ≡ w.id) × (new.version ≡ add64 w.version (pos 1)) × (e ≡ d)
OnWallet d w _ = Unit

debit_effect-OnWallet :
    (w : Wallet) (m : Money) (now : ℕ)
    → Yields (OnWallet debit_entry w) (debit_effect (debit w m now))
unfolding debit
debit_effect-OnWallet w m now = ground arith

credit_effect-OnWallet :
    (w : Wallet) (m : Money) (now : ℕ)
    → Yields (OnWallet credit_entry w) (credit_effect (credit w m now))
unfolding credit
credit_effect-OnWallet w m now = ground arith

debited-Quiet : (t : WagerTransaction) (w : Wallet) → Quiet (OnWallet debit_entry w) (debited t w)
debited-Quiet t w =
    bind-Quiet {R = Any} time_now-Quiet (λ now _.
      lift-Quiet (debit_effect (debit w t.money now)) (debit_effect-OnWallet w t.money now))

credited-Quiet :
    (t : WagerTransaction) (w : Wallet) → Quiet (OnWallet credit_entry w) (credited t w)
credited-Quiet t w = bind-Quiet {R = Any} time_now-Quiet (λ now _.
    lift-Quiet (credit_effect (credit w t.money now)) (credit_effect-OnWallet w t.money now))

found_reference-Quiet :
    (t : WagerTransaction) (w : Wallet) (o : Option WagerTransaction)
    → Quiet (OnWallet credit_entry w) (found_reference t w o)
found_reference-Quiet t w none = pure-Quiet awaiting_reference tt
found_reference-Quiet t w (some r) =
    if-Quiet (is_processed r.status) (credited-Quiet t w) (raise-Quiet reference_not_usable)

reference_effect-Quiet :
    (t : WagerTransaction) (w : Wallet) → Quiet (OnWallet credit_entry w) (reference_effect t w)
unfolding reference_effect
reference_effect-Quiet t w =
    bind-Quiet {R = Any} (find_by_external_id_tx-Quiet t.provider_id t.reference_external_id)
      (λ o _. found_reference-Quiet t w o)

pub kind_effect-Quiet :
    (k : TransactionKind) (t : WagerTransaction) (w : Wallet)
    → Quiet (OnWallet (direction_of k) w) (kind_effect k t w)
unfolding kind_effect
kind_effect-Quiet bet t w = debited-Quiet t w
kind_effect-Quiet win t w = credited-Quiet t w
kind_effect-Quiet loss t w = pure-Quiet unmoved tt
kind_effect-Quiet refund t w = reference_effect-Quiet t w
kind_effect-Quiet rollback t w = reference_effect-Quiet t w
kind_effect-Quiet opening t w = raise-Quiet unsupported_kind
kind_effect-Quiet (unknown s) t w = raise-Quiet unsupported_kind
