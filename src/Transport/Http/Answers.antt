-- ===== src/Transport/Http/Answers.antt =====
-- The answers of the wagering endpoint, case by case.
use jungle_gaming_challenge.Base.{
  ◌≡◌, refl, sym, ap, subst, ◌∙◌, Bool, true, false, Option, none, some, ◌⊎◌, inl, inr,
}
use jungle_gaming_challenge.Base.Text.{Text, codes, is_empty, trim_space, text_eq, text_eq→eq}
use jungle_gaming_challenge.Errors.{
  Result, ok, err, Error, transaction_conflict, incompatible_currency, invalid_money_format,
}
use jungle_gaming_challenge.Config.{Config}
use jungle_gaming_challenge.Store.{Env, Session, ◌>>=◌, attempt, tally}
use jungle_gaming_challenge.Usecase.Wager.{OutputTransaction}
use jungle_gaming_challenge.Usecase.Process.{process_transaction}
use jungle_gaming_challenge.Transport.Http.{
  Status, status_ok, bad_request, forbidden, conflict, internal_server_error, Response,
  wager_output, respond_with_message,
}
use jungle_gaming_challenge.Transport.Http.Wagering.{
  WagerBody, input_of, process_error, processed_response, process_for, check_provider, check_body,
  handle_process_transaction,
}

-- What the endpoint makes of the errors of the use case: 409 for a transaction that exists with another
-- payload, 400 for a currency or an amount that it does not take, and 500 for all others.
abbrev pub status_of_error : Error → Status
status_of_error transaction_conflict = conflict
status_of_error incompatible_currency = bad_request
status_of_error invalid_money_format = bad_request
status_of_error _ = internal_server_error

-- the answer to what the use case has answered
abbrev pub Tells : Response → Result OutputTransaction → Type 0
Tells r (ok o) =
    (r.status ≡ status_ok) × (r.cache_hit ≡ o.idempotent_replay) × (r.body ≡ wager_output o)
Tells r (err e) = r.status ≡ status_of_error e

error_told : (e : Error) → (process_error e).status ≡ status_of_error e
error_told transaction_conflict = refl
error_told incompatible_currency = refl
error_told invalid_money_format = refl
error_told e = refl

module _ (cfg : Config) (key : Text) (provider : Option Text) (body : Option WagerBody) (env : Env)
    (s : Session) where
  -- The use case has been called for the provider that has sent the request.
  abbrev pub Processed : Response → Session → Type 0
  Processed r u =
      (b : WagerBody) × (body ≡ some b)
      × (provider ≡ some b.provider_id)
      × (is_empty (trim_space key) ≡ false)
      × let p = process_transaction cfg (input_of key b) env s in Tells r p.0 × (u.db ≡ p.1.db)

  -- why a request does not come to the use case, and with which status it is answered
  abbrev pub TurnedAway : Response → Type 0
  TurnedAway r =
      (((is_empty (trim_space key) ≡ true) ⊎ (body ≡ none)) × (r.status ≡ bad_request))
      ⊎ ((provider ≡ none) × (r.status ≡ internal_server_error))
      ⊎ ((b : WagerBody) × (q : Text) × (body ≡ some b)
          × (provider ≡ some q)
          × (text_eq b.provider_id q ≡ false)
          × (r.status ≡ forbidden))

  abbrev pub Answers : Result Response × Session → Type 0
  Answers p = (r : Response) × (p.0 ≡ ok r) × ((TurnedAway r × (p.1.db ≡ s.db)) ⊎ Processed r p.1)

  turned_away : (r : Response) → TurnedAway r → Answers (ok r, s)
  turned_away r h = (r, refl, inl (h, refl))

  process_for-Answers :
      (b : WagerBody)
      → body ≡ some b
      → provider ≡ some b.provider_id
      → is_empty (trim_space key) ≡ false
      → Answers (process_for cfg key b env s)
  unfolding tally process_transaction
  process_for-Answers b hb hp hk = after (process_transaction cfg (input_of key b) env s) refl
    where
      after :
          (p : Result OutputTransaction × Session)
          → process_transaction cfg (input_of key b) env s ≡ p
          → Answers (◌>>=◌ (attempt (λ _ _. p)) processed_response env s)
      after (err e, u) h =
          let told = subst (Tells (process_error e)) (ap (λ q. q.0) (sym h)) (error_told e) in
          (process_error e, refl, inr (b, hb, hp, hk, (told, ap (λ q. q.1.db) (sym h))))
      after (ok o, u) h =
          let r : Response = record {
            status = status_ok;
            cache_hit = o.idempotent_replay;
            body = wager_output o;
          } in
          let told = subst (Tells r) (ap (λ q. q.0) (sym h)) (refl, refl, refl) in
          (r, refl, inr (b, hb, hp, hk, (told, ap (λ q. q.1.db) (sym h))))

  checked_provider :
      (b : WagerBody) (o : Option Text)
      → body ≡ some b
      → provider ≡ o
      → is_empty (trim_space key) ≡ false
      → Answers (check_provider cfg key b o env s)
  checked_provider b none hb hp hk = turned_away _ (inr (inl (hp, refl)))
  checked_provider b (some p) hb hp hk = compared (text_eq b.provider_id p) refl
    where
      compared :
          (same : Bool)
          → text_eq b.provider_id p ≡ same
          → Answers (check_provider cfg key b (some p) env s)
      compared false h = rw h (turned_away _ (inr (inr (b, p, hb, hp, h, refl))))
      compared true h =
          let sender : provider ≡ some b.provider_id =
            hp ∙ ap some (sym (text_eq→eq b.provider_id p h)) in
          rw h (process_for-Answers b hb sender hk)

  checked_body :
      (o : Option WagerBody)
      → body ≡ o
      → is_empty (trim_space key) ≡ false
      → Answers (check_body cfg key provider o env s)
  checked_body none hb hk = turned_away _ (inl (inr hb, refl))
  checked_body (some b) hb hk = checked_provider b provider hb refl hk

-- Every call of the wagering endpoint is answered. Either it is turned away and the tables are as they
-- were: with 400 when the idempotency key is blank or there is no body, with 500 when there is no
-- provider, with 403 when the body names another provider. Or there are key and body, the body names the
-- provider, and the use case is called with them: the tables are as it leaves them, and where it succeeds
-- the answer is 200 with its output, with the cache mark exactly for a replay; where it fails, 409 for a
-- conflict of payloads, 400 for a currency that does not fit or an amount that cannot be read, and 500
-- for any other error.
pub handle_process_transaction-Answers :
    (cfg : Config) (key : Text) (provider : Option Text) (body : Option WagerBody) (env : Env)
    (s : Session)
    → Answers cfg key provider body env s (handle_process_transaction cfg key provider body env s)
unfolding handle_process_transaction
handle_process_transaction-Answers cfg key provider body env s =
    by_key (is_empty (trim_space key)) refl
  where
    by_key :
        (b : Bool)
        → is_empty (trim_space key) ≡ b
        → Answers cfg key provider body env s
            (handle_process_transaction cfg key provider body env s)
    by_key true h =
        let ends : handle_process_transaction cfg key provider body env s
            ≡ (ok (respond_with_message bad_request (codes "Idempotency-Key is required")), s) =
          rw h refl in
        subst (Answers cfg key provider body env s) (sym ends)
          (turned_away cfg key provider body env s _ (inl (inl h, refl)))
    by_key false h =
        let goes_on : handle_process_transaction cfg key provider body env s
            ≡ check_body cfg key provider body env s =
          rw h refl in
        subst (Answers cfg key provider body env s) (sym goes_on)
          (checked_body cfg key provider body env s body refl h)
