-- ===== src/System/Interleaved/Keys.antt =====
-- The unique keys of the transactions under interleaved requests.
use jungle_gaming_challenge.Base.{sym, subst, List}
use jungle_gaming_challenge.Config.{Config}
use jungle_gaming_challenge.Domain.Wallet.{Wallet}
use jungle_gaming_challenge.Store.{Session}
use jungle_gaming_challenge.Store.Keys.{UniqueKeys, UniqueKeys-Stable}
use jungle_gaming_challenge.System.{events_apart}
use jungle_gaming_challenge.System.Interleaved.{Interleaves}
use jungle_gaming_challenge.System.Interleaved.Balance.{interleaves_keep}

-- However the requests interleave, and whatever of them fails: when no two stored transactions have one
-- id, one external id of a provider or one idempotency key, then so it stays.
pub interleaved-UniqueKeys :
    (cfg : Config) (s u : Session) (held : List Wallet)
    → Interleaves cfg s u held
    → UniqueKeys s.db.transactions
    → UniqueKeys u.db.transactions
interleaved-UniqueKeys cfg s u held =
    interleaves_keep cfg UniqueKeys-Stable
      (events_apart (λ db o. UniqueKeys db.transactions)
        (λ db db' o o' w l i same h. subst UniqueKeys (sym same) h))
      (λ db o handle h. h) s u held
