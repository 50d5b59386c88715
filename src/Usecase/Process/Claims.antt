-- ===== src/Usecase/Process/Claims.antt =====
-- A request that has succeeded under an inbox claim has committed it.
use jungle_gaming_challenge.Base.{ℕ, List, ◌≡◌, refl, ap, Bool, true, false, ◌||◌, some, inl, inr}
use jungle_gaming_challenge.Base.Text.{text_eq_self}
use jungle_gaming_challenge.Errors.{Result, ok, err, Error}
use jungle_gaming_challenge.Config.{Config}
use jungle_gaming_challenge.Domain.Wager.{WagerTransaction}
use jungle_gaming_challenge.Store.{
  Db, Env, Session, ◌>>=◌, attempt, map_error, statement, Answer, done, refused, time_now, InboxRow,
}
use jungle_gaming_challenge.Store.Insert.{insert_inbox}
use jungle_gaming_challenge.Store.Writes.{Stable}
use jungle_gaming_challenge.Store.Effects.{Write-inbox, Grows, inbox_in}
use jungle_gaming_challenge.Store.Ensures.{
  WhenOk, WhenOk-of_Always, Ensures, first-Ensures, last-Ensures, execute-Ensures,
}
use jungle_gaming_challenge.Store.Always.{pure-Always}
use jungle_gaming_challenge.Repository.Messaging.{save_inbox, inbox_row, inbox_error}
use jungle_gaming_challenge.Usecase.Wager.{InboxClaim, InputTransaction}
use jungle_gaming_challenge.Usecase.Process.{
  process_transaction_with_inbox, process_body, process_once, after_claim, new_wager, output,
}
use jungle_gaming_challenge.Usecase.Process.Stable.{process_once-Always}
use jungle_gaming_challenge.Usecase.Process.Redelivery.{was_claimed, Fails, after_claim-Fails}

-- No write takes a claim back.
pub was_claimed-Stable : (c : InboxClaim) → Stable (λ db o. was_claimed c db.inbox ≡ true)
was_claimed-Stable c = record { keeps = λ w h. kept _ _ (Write-inbox w) h }
  where
    kept :
        (rows rows' : List InboxRow)
        → Grows (λ r. Unit) rows rows'
        → was_claimed c rows ≡ true
        → was_claimed c rows' ≡ true
    kept rows rows' (inl same) h = rw same h
    kept rows rows' (inr (r, new, added)) h = rw (added, h) (or_true _)
      where
        or_true : (b : Bool) → (b || true) ≡ true
        or_true true = refl
        or_true false = refl

module _ (c : InboxClaim) where
  abbrev Claimed : Db → Type 0
  Claimed db = was_claimed c db.inbox ≡ true

  -- the claim is in, or the transaction takes no more statements
  abbrev Tried : {A : Type 0} → Result A × Session → Type 0
  Tried (ok a, u) = Claimed u.db
  Tried (err e, u) = u.is_aborted ≡ true

  inserted :
      (now : ℕ) (db db' : Db) (v : Unit {0})
      → insert_inbox (inbox_row c.consumer_name c.message_id c.payload_hash now) db ≡ done v db'
      → Claimed db'
  inserted now db db' v h =
      let added =
        ap (λ d. d.inbox)
          (inbox_in (inbox_row c.consumer_name c.message_id c.payload_hash now) h) in
      rw (added, text_eq_self c.consumer_name, text_eq_self c.message_id) refl

  statement-Tried :
      (f : Db → Answer (Unit {0})) (env : Env) (s : Session)
      → ((db' : Db) (v : Unit {0}) → f s.db ≡ done v db' → Claimed db')
      → Tried (statement f env s)
  unfolding statement
  statement-Tried f env s h = at s.is_aborted (env.fails s.exchanges) (f s.db) refl refl refl
    where
      at :
          (b c : Bool) (a : Answer (Unit {0}))
          → s.is_aborted ≡ b
          → env.fails s.exchanges ≡ c
          → f s.db ≡ a
          → Tried (statement f env s)
      at true c a hb hc ha = rw hb refl
      at false true a hb hc ha = rw (hb, hc) refl
      at false false (done v db') hb hc ha = rw (hb, hc, ha) (h db' v ha)
      at false false (refused e) hb hc ha = rw (hb, hc, ha) refl

  map_error-Tried :
      {A : Type 0} (g : Error → Error) (p : Result A × Session) (env : Env) (s : Session)
      → Tried p
      → Tried (map_error g (λ _ _. p) env s)
  map_error-Tried g (ok a, u) env s h = h
  map_error-Tried g (err e, u) env s h = h

  save_inbox-Tried :
      (env : Env) (s : Session)
      → Tried (save_inbox c.consumer_name c.message_id c.payload_hash env s)
  unfolding save_inbox time_now
  save_inbox-Tried env s =
      map_error-Tried inbox_error _ env s
        (statement-Tried _ env _ (λ db' v h. inserted (env.clock s.readings) s.db db' v h))

  module _ (input : InputTransaction) (t : WagerTransaction) where
    process_body-Ensures : Ensures Claimed (process_body input t (some c))
    unfolding process_body
    process_body-Ensures = record { runs = λ env s. after env s _ (save_inbox-Tried env s) }
      where
        failed : {A : Type 0} (p : Result A × Session) → Fails p → WhenOk Claimed p
        failed (ok a, u) h = absurd (cc h.1)
        failed (err e, u) h = tt

        after :
            (env : Env) (s : Session) (p : Result (Unit {0}) × Session)
            → Tried p
            → WhenOk Claimed (◌>>=◌ (attempt (λ _ _. p)) (after_claim input t) env s)
        after env s (ok a, u) h =
            WhenOk-of_Always (process_once input t)
              (process_once-Always (was_claimed-Stable c) input t) env u h
        after env s (err e, u) h = failed _ (after_claim-Fails input t e env u h)

-- When a request under an inbox claim is answered without an error, the claim's row is committed.
pub process-Claimed :
    (cfg : Config) (input : InputTransaction) (c : InboxClaim)
    → Ensures
        (λ db. was_claimed c db.inbox ≡ true)
        (process_transaction_with_inbox cfg input (some c))
unfolding process_transaction_with_inbox
process-Claimed cfg input c = last-Ensures (new_wager cfg input) λ t.
    first-Ensures (execute-Ensures (process_body-Ensures c input t)) (λ o. pure-Always (output o))
