-- ===== src/Transport/Sqs/Safety.antt =====
-- Claims and deletions.
use jungle_gaming_challenge.Base.{
  ◌≡◌, false, refl, ◌∙◌, ap, subst, true, List, ◌∷◌, Option, none, some, ◌⊎◌, inl, inr,
}
use jungle_gaming_challenge.Base.Text.{Text}
use jungle_gaming_challenge.Errors.{Result, ok, err, duplicate_message}
use jungle_gaming_challenge.Base.Int.{pos, add64}
use jungle_gaming_challenge.Config.{Config}
use jungle_gaming_challenge.Store.{
  Db, Outside, Env, Session, add_sqs_error, ◌>>=◌, attempt, queue_call, tally, add_wager_processed,
}
use jungle_gaming_challenge.Store.Then.{Asked, queue_call-Asked}
use jungle_gaming_challenge.Store.Ensures.{WhenOk}
use jungle_gaming_challenge.Usecase.Wager.{OutputTransaction}
use jungle_gaming_challenge.Usecase.Process.{process_transaction_with_inbox}
use jungle_gaming_challenge.Usecase.Process.Claims.{process-Claimed}
use jungle_gaming_challenge.Usecase.Process.Redelivery.{was_claimed}
use jungle_gaming_challenge.Usecase.Process.Stable.{process-Always}
use jungle_gaming_challenge.Transport.Sqs.{
  Decoder, Envelope, Message, input_of, claim_of, delete, delete_message, after_delete,
  after_processing, process_decoded, process_sqs_envelope,
}
use jungle_gaming_challenge.Transport.Sqs.Keeps.{after_processing_same}

-- Nothing else was deleted, or the message with this handle.
abbrev AtMost : Type 0 → Text → List Text → List Text → Type 0
AtMost Reason handle old new = (new ≡ old) ⊎ ((new ≡ handle ∷ old) × Reason)

after_delete_same :
    (r : Result (Unit {0})) (env : Env) (s : Session)
    → (after_delete r env s).1.outside.deleted ≡ s.outside.deleted
unfolding tally
after_delete_same (err e) env s = refl
after_delete_same (ok gone) env s = refl

delete_message_once :
    (m : Message) (env : Env) (s : Session)
    → (Reason : Type 0) → Reason
    → AtMost Reason m.receipt_handle s.outside.deleted (delete_message m env s).1.outside.deleted
unfolding delete_message
delete_message_once m env s Reason why =
    after (queue_call (delete m.receipt_handle) env s) (queue_call-Asked _ env s)
  where
    after :
        (p : Result (Unit {0}) × Session)
        → Asked (delete m.receipt_handle) s p
        → AtMost Reason m.receipt_handle s.outside.deleted
            (◌>>=◌ (attempt (λ _ _. p)) after_delete env s).1.outside.deleted
    after (ok a, u) (db, out) = inr (after_delete_same (ok a) env u ∙ ap (λ o. o.deleted) out, why)
    after (err e, u) (fault, (db, out)) =
        inl (after_delete_same (err e) env u ∙ ap (λ o. o.deleted) out)

-- Why the worker deletes a message: its request has succeeded, or the use case knows the message.
abbrev Acknowledges : Result OutputTransaction → Type 0
Acknowledges r = ((o : OutputTransaction) × (r ≡ ok o)) ⊎ (r ≡ err duplicate_message)

after_processing_once :
    (m : Message) (r : Result OutputTransaction) (env : Env) (s : Session)
    → AtMost
        (Acknowledges r)
        m.receipt_handle
        s.outside.deleted
        (after_processing m r env s).1.outside.deleted
unfolding tally
after_processing_once m (ok o) env s = delete_message_once m env _ _ (inl (o, refl))
after_processing_once m (err duplicate_message) env s = delete_message_once m env s _ (inr refl)
after_processing_once m (err e) env s = inl refl

established :
    {A : Type 0} (Q : Db → Type 0) (p : Result A × Session) (a : A)
    → WhenOk Q p
    → p.0 ≡ ok a
    → Q p.1.db
established Q (ok b, u) a h e = h
established Q (err f, u) a h e = absurd (cc e)

module _ (decoder : Decoder) (cfg : Config) (m : Message) (e : Envelope) (env : Env)
    (s : Session) where
  abbrev pub use_case_answer : Result OutputTransaction × Session
  use_case_answer =
      process_transaction_with_inbox cfg (input_of e) (some (claim_of decoder m e)) env s

  -- the claim is committed, or the use case has answered that the message is a duplicate
  abbrev pub IsSettled : Db → Type 0
  IsSettled db =
      (was_claimed (claim_of decoder m e) db.inbox ≡ true)
      ⊎ (use_case_answer.0 ≡ err duplicate_message)

  decoded_once :
      let u = (process_decoded decoder cfg m (some e) env s).1 in
      AtMost (IsSettled u.db) m.receipt_handle s.outside.deleted u.outside.deleted
  decoded_once = join (after_processing_once m p.0 env p.1)
    where
      p : Result OutputTransaction × Session
      p = use_case_answer

      u : Session
      u = (process_decoded decoder cfg m (some e) env s).1

      same : p.1.outside.deleted ≡ s.outside.deleted
      same =
          (process-Always {P = λ db o. o.deleted ≡ s.outside.deleted} (record { keeps = λ w h. h })
              cfg (input_of e) (some (claim_of decoder m e))).runs
            env s refl

      settled : Acknowledges p.0 → IsSettled u.db
      settled (inr duplicate) = inr duplicate
      settled (inl (o, success)) =
          let claimed =
            established _ p o ((process-Claimed cfg (input_of e) (claim_of decoder m e)).runs env s)
              success in
          inl (rw (after_processing_same m p.0 env p.1) claimed)

      join :
          AtMost (Acknowledges p.0) m.receipt_handle p.1.outside.deleted u.outside.deleted
          → AtMost (IsSettled u.db) m.receipt_handle s.outside.deleted u.outside.deleted
      join (inl h) = inl (h ∙ same)
      join (inr (h, why)) = inr (h ∙ ap (λ d. m.receipt_handle ∷ d) same, settled why)

-- The worker deletes at most the message that it was given, and only when the message is an envelope
-- whose claim is committed in the inbox, or for which the use case has answered that it is a duplicate.
pub process_sqs_envelope-IsSettled :
    (decoder : Decoder) (cfg : Config) (m : Message) (env : Env) (s : Session)
    → let u = (process_sqs_envelope decoder cfg m env s).1 in
      (u.outside.deleted ≡ s.outside.deleted)
      ⊎ ((u.outside.deleted ≡ m.receipt_handle ∷ s.outside.deleted)
          × ((e : Envelope) × (decoder.unmarshal m.body ≡ some e)
              × IsSettled decoder cfg m e env s u.db))
unfolding process_sqs_envelope tally
process_sqs_envelope-IsSettled decoder cfg m env s = by_body (decoder.unmarshal m.body) refl
  where
    by_body :
        (o : Option Envelope)
        → decoder.unmarshal m.body ≡ o
        → let u = (process_decoded decoder cfg m o env s).1 in
          AtMost
            ((e : Envelope) × (decoder.unmarshal m.body ≡ some e)
              × IsSettled decoder cfg m e env s u.db)
            m.receipt_handle
            s.outside.deleted
            u.outside.deleted
    by_body none h = inl refl
    by_body (some e) h = elim (decoded_once decoder cfg m e env s) [
      | inl same ↦ inl same
      | inr (gone, why) ↦ inr (gone, (e, h, why))
    ]

deleted_calm :
    (m : Message) (env : Env) (s : Session)
    → env.fails s.exchanges ≡ false
    → (delete_message m env s).1.outside ≡ delete m.receipt_handle s.outside
unfolding delete_message queue_call
deleted_calm m env s calm = rw calm refl

-- What becomes of a message by what the use case answers, when the queue can be reached.
abbrev pub Settles : Message → Result OutputTransaction → Outside → Outside → Type 0
Settles m (ok o) before after =
    (after.deleted ≡ m.receipt_handle ∷ before.deleted)
    × (after.counters ≡ record before.counters {
      wagers_processed = add64 before.counters.wagers_processed (pos 1);
    })
Settles m (err duplicate_message) before after =
    (after.deleted ≡ m.receipt_handle ∷ before.deleted) × (after.counters ≡ before.counters)
Settles m (err e) before after =
    (after.deleted ≡ before.deleted)
    × (after.counters
        ≡ record before.counters { sqs_errors = add64 before.counters.sqs_errors (pos 1) })

settled_at :
    (m : Message) (env : Env) (s : Session) (q : Result OutputTransaction × Session)
    → env.fails q.1.exchanges ≡ false
    → Settles m q.0 q.1.outside (◌>>=◌ (attempt (λ _ _. q)) (after_processing m) env s).1.outside
unfolding tally add_wager_processed add_sqs_error
settled_at m env s (ok a, v) calm =
    let counted = record v {
      outside = record v.outside { counters = add_wager_processed v.outside.counters };
    } in
    let gone = deleted_calm m env counted calm in
    (ap (λ w. w.deleted) gone, ap (λ w. w.counters) gone)
settled_at m env s (err duplicate_message, v) calm =
    let gone = deleted_calm m env v calm in (ap (λ w. w.deleted) gone, ap (λ w. w.counters) gone)
settled_at m env s (err e, v) calm = (refl, refl)

-- What becomes of a message that can be decoded, while the exchange behind the use case does not fail: it
-- is deleted, and the count of processed wagers is one higher, when the use case succeeds; it is deleted,
-- and nothing is counted, when the use case answers that it is a duplicate; with any other error it stays
-- in the queue and the count of errors is one higher.
pub process_sqs_envelope-Settles :
    (decoder : Decoder) (cfg : Config) (m : Message) (e : Envelope) (env : Env) (s : Session)
    → decoder.unmarshal m.body ≡ some e
    → env.fails (use_case_answer decoder cfg m e env s).1.exchanges ≡ false
    → Settles m
        (use_case_answer decoder cfg m e env s).0
        s.outside
        (process_sqs_envelope decoder cfg m env s).1.outside
unfolding process_sqs_envelope
process_sqs_envelope-Settles decoder cfg m e env s decoded calm = rw decoded (
    subst
      (λ o.
        Settles m (use_case_answer decoder cfg m e env s).0 o
          (process_decoded decoder cfg m (some e) env s).1.outside)
      same (settled_at m env s (use_case_answer decoder cfg m e env s) calm))
  where
    same : (use_case_answer decoder cfg m e env s).1.outside ≡ s.outside
    same =
        (process-Always {P = λ db w. w ≡ s.outside} (record { keeps = λ w h. h }) cfg (input_of e)
            (some (claim_of decoder m e))).runs
          env s refl
