-- ===== src/System/Interleaved.antt =====
-- Requests beside each other: a transaction of internal/usecase/wager_usecase.go reads its wallet, others
-- commit, and then it goes on with the wallet that it has read. The row locks of `FOR UPDATE`, which
-- would forbid some of these orders, are left out.
pub mod Balance
pub mod Stale
pub mod Keys
use jungle_gaming_challenge.Base.{◌≡◌, List, [], ◌∷◌, Option, none, some}
use jungle_gaming_challenge.Base.Text.{Text}
use jungle_gaming_challenge.Base.Int.{IsInt64}
use jungle_gaming_challenge.Errors.{ok}
use jungle_gaming_challenge.Config.{Config}
use jungle_gaming_challenge.Domain.Wager.{WagerTransaction}
use jungle_gaming_challenge.Domain.Wallet.{Wallet}
use jungle_gaming_challenge.Store.{Env, Session, Tx, ◌>>◌, pure, execute_in_transaction}
use jungle_gaming_challenge.Repository.Wallet.{find_by_id_with_lock}
use jungle_gaming_challenge.Repository.Messaging.{save_inbox}
use jungle_gaming_challenge.Usecase.Wager.{InboxClaim, InputTransaction, Outcome}
use jungle_gaming_challenge.Usecase.Process.{process_locked}
use jungle_gaming_challenge.Usecase.Resolve.{credit_locked}
use jungle_gaming_challenge.System.{Step}

-- the message of the transaction, if it has one
unfoldable pub claim_inbox : Option InboxClaim → Tx (Unit {0})
claim_inbox none = pure tt
claim_inbox (some c) = save_inbox c.consumer_name c.message_id c.payload_hash

-- The transaction of a wager from its wallet on, which has found nothing stored of the request when it
-- looked. The claim of its message is written before that, and becomes visible with the commit.
unfoldable pub process_held :
    InputTransaction → WagerTransaction → Option InboxClaim → Wallet → Tx Outcome
unfolding claim_inbox
process_held input t inbox w =
    execute_in_transaction (claim_inbox inbox >> process_locked input t w)

-- The transaction of a pending reference from its wallet on, when the reference was found processed.
unfoldable pub credit_held : WagerTransaction → Wallet → Tx (Unit {0})
credit_held p w = execute_in_transaction (credit_locked p w)

pub data Among (w : Wallet) : List Wallet → Type 0 where
  first : {ws : List Wallet} → Among w (w ∷ ws)
  later : {x : Wallet} {ws : List Wallet} → Among w ws → Among w (x ∷ ws)

-- One turn, beside the wallets that requests have read so far: a whole turn of the system, the reading
-- of a wallet, or what a request does with one that it has read at some time. A version is an `int64`.
pub data Turn (cfg : Config) (s : Session) (held : List Wallet)
    : Session → List Wallet → Type 0 where
  whole : {u : Session} → Step cfg s u → Turn cfg s held u held
  read :
      (id : Text) (env : Env) (w : Wallet) {u : Session}
      → find_by_id_with_lock id env s ≡ (ok w, u)
      → IsInt64 w.version
      → Turn cfg s held u (w ∷ held)
  processed :
      (w : Wallet) (input : InputTransaction) (t : WagerTransaction) (inbox : Option InboxClaim)
      (env : Env) {u : Session}
      → Among w held
      → u ≡ (process_held input t inbox w env s).1
      → Turn cfg s held u held
  credited :
      (w : Wallet) (p : WagerTransaction) (env : Env) {u : Session}
      → Among w held
      → u ≡ (credit_held p w env s).1
      → Turn cfg s held u held

-- The sessions that a row of such turns leads to, and the wallets that have been read by then.
pub data Interleaves (cfg : Config) (s : Session) : Session → List Wallet → Type 0 where
  begin : Interleaves cfg s s []
  and_then :
      {u v : Session} {held held' : List Wallet}
      → Interleaves cfg s u held
      → Turn cfg u held v held'
      → Interleaves cfg s v held'
