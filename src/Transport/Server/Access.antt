-- ===== src/Transport/Server/Access.antt =====
-- Who can change the database through the server.
use jungle_gaming_challenge.Base.{
  ◌≡◌, refl, ap, subst, ◌∙◌, Bool, true, false, [], ◌∷◌, Option, none, some, ◌⊎◌, inl, inr,
  Bool-cases,
}
use jungle_gaming_challenge.Base.Text.{Text, codes, is_empty}
use jungle_gaming_challenge.Config.{Config}
use jungle_gaming_challenge.Domain.Money.{split}
use jungle_gaming_challenge.Store.{Env, Session}
use jungle_gaming_challenge.Transport.Http.Wagering.{WagerBody, handle_process_transaction}
use jungle_gaming_challenge.Transport.Http.Answers.{Answers, handle_process_transaction-Answers}
use jungle_gaming_challenge.Transport.Auth.{
  Surroundings, Decision, passed, authenticated, unauthorized, authenticate, is_public,
  verify_and_extract_provider, bearer_token, decide, verify_token, Token, Claims, key_function,
  provider_of_client, provider_of_token,
}
use jungle_gaming_challenge.Transport.Auth.Keys.{Cache}
use jungle_gaming_challenge.Transport.Server.{
  Request, Route, create_wallet, process_wager, live, ready, metrics_page, get_wallet,
  reconcile_wallet, no_route, route_of, handle, respond_to, serve_http,
}
use jungle_gaming_challenge.Transport.Server.Pages.{
  status_page_same, get_wallet_same, reconciliation_same, public_route,
}

module _ (cfg : Config) (world : Surroundings) (header : Text) (cache : Cache) where
  -- The header carries a bearer token that the library parses, for the configured issuer and RS256
  -- alone, into a valid token whose claims name the provider: by `azp`, or without it by `client_id`.
  abbrev pub IsVerified : Text → Type 0
  IsVerified provider =
      (text : Text) × (bearer_token (split b' ' header) ≡ some text)
      × (token : Token) × ((world.parse cfg.idp_issuer_url (codes "RS256" ∷ []) text
            (key_function world) cache).0
          ≡ some token)
      × (token.valid ≡ true)
      × (claims : Claims) × (token.claims ≡ some claims)
      × (client : Text) × ((claims.azp ≡ some client)
          ⊎ ((claims.azp ≡ none) × (claims.client_id ≡ some client)))
      × (provider ≡ provider_of_client client)

  abbrev Decided : Decision → Type 0
  Decided d =
      ((text : Text) × (d ≡ unauthorized text))
      ⊎ ((provider : Text) × (d ≡ authenticated provider) × IsVerified provider)

  decided :
      (text : Text) (o : Option Token) (c : Cache)
      → bearer_token (split b' ' header) ≡ some text
      → (world.parse cfg.idp_issuer_url (codes "RS256" ∷ []) text (key_function world) cache).0 ≡ o
      → Decided (decide (provider_of_token o, c)).0
  decided text none c h k = inl (_, refl)
  decided text (some token) c h k = by_claims token.claims token.valid refl refl
    where
      named :
          (claims : Claims) (azp client_id : Option Text)
          → token.claims ≡ some claims
          → token.valid ≡ true
          → claims.azp ≡ azp
          → claims.client_id ≡ client_id
          → Decided (decide (provider_of_token (some token), c)).0
      named claims (some client) o hc hv ha hi =
          rw (hc, hv, ha) (inr (_, refl, (text, h, token, k, hv, claims, hc, client, inl ha, refl)))
      named claims none (some client) hc hv ha hi =
          rw (hc, hv, ha, hi)
            (inr (_, refl, (text, h, token, k, hv, claims, hc, client, inr (ha, hi), refl)))
      named claims none none hc hv ha hi = rw (hc, hv, ha, hi) (inl (_, refl))

      by_claims :
          (o : Option Claims) (v : Bool)
          → token.claims ≡ o
          → token.valid ≡ v
          → Decided (decide (provider_of_token (some token), c)).0
      by_claims none v hc hv = rw hc (inl (_, refl))
      by_claims (some claims) false hc hv = rw (hc, hv) (inl (_, refl))
      by_claims (some claims) true hc hv = named claims claims.azp claims.client_id hc hv refl refl

  verified_token :
      (o : Option Text)
      → bearer_token (split b' ' header) ≡ o
      → Decided (verify_token cfg world o cache).0
  unfolding verify_and_extract_provider
  verified_token none h = inl (_, refl)
  verified_token (some text) h = decided text _ _ h refl

  passes :
      (path : Text) → is_public path ≡ true → (authenticate cfg world path header cache).0 ≡ passed
  unfolding authenticate
  passes path h = rw h refl

  protected :
      (path : Text) → is_public path ≡ false → Decided (authenticate cfg world path header cache).0
  unfolding authenticate
  protected path h = elim (Bool-cases (is_empty header)) [
    | inl e ↦ rw (h, e) (inl (_, refl))
    | inr e ↦ rw (h, e) (verified_token (bearer_token (split b' ' header)) refl)
  ]

module _ (cfg : Config) (world : Surroundings) (r : Request) (cache : Cache) (env : Env)
    (s : Session) where
  -- The token is for the provider, and the request opens a wallet or is a wager of this provider's own.
  abbrev pub IsAllowed : Route → Type 0
  IsAllowed route =
      (provider : Text) × IsVerified cfg world r.authorization cache provider
      × ((route ≡ create_wallet)
          ⊎ ((route ≡ process_wager)
              × (b : WagerBody) × (r.wager_body ≡ some b)
              × (b.provider_id ≡ provider)))

  handled :
      (provider : Text) (route : Route)
      → IsVerified cfg world r.authorization cache provider
      → ((handle cfg r (some provider) route env s).1.db ≡ s.db) ⊎ IsAllowed route
  unfolding handle
  handled provider process_wager verified =
      after (
        handle_process_transaction-Answers cfg r.idempotency_key (some provider) r.wager_body env s)
    where
      own :
          (b : WagerBody)
          → ◌≡◌ {A = Option Text} (some provider) (some b.provider_id)
          → b.provider_id ≡ provider
      own b h = cc h

      after :
          Answers cfg r.idempotency_key
            (some provider)
            r.wager_body
            env
            s
            (handle_process_transaction cfg r.idempotency_key (some provider) r.wager_body env s)
          → ((handle_process_transaction cfg r.idempotency_key
                (some provider)
                r.wager_body
                env
                s).1.db
              ≡ s.db)
            ⊎ IsAllowed process_wager
      after (response, answer, inl (away, same)) = inl same
      after (response, answer, inr (b, hb, hp, hk, told)) =
          inr (provider, verified, inr (refl, b, hb, own b hp))
  handled provider create_wallet verified = inr (provider, verified, inl refl)
  handled provider live verified = inl refl
  handled provider ready verified = inl (status_page_same cfg r (some provider) ready env s refl)
  handled provider metrics_page verified =
      inl (status_page_same cfg r (some provider) metrics_page env s refl)
  handled provider (get_wallet id) verified = inl (get_wallet_same id env s)
  handled provider (reconcile_wallet id) verified = inl (reconciliation_same id env s)
  handled provider no_route verified = inl refl

  responded :
      (d : Decision)
      → Decided cfg world r.authorization cache d
      → ((respond_to cfg r d env s).1.db ≡ s.db) ⊎ IsAllowed (route_of r.method r.path)
  responded passed (inl (text, h)) = absurd (cc h)
  responded passed (inr (provider, h, v)) = absurd (cc h)
  responded (unauthorized text) h = inl refl
  responded (authenticated p) (inl (text, h)) = absurd (cc h)
  responded (authenticated p) (inr (provider, h, v)) =
      handled p (route_of r.method r.path)
        (subst (IsVerified cfg world r.authorization cache) (cc h) v)

-- Whoever changes the database through the server has been authenticated: for every request, cache and
-- answer of the identity provider, either the tables are as they were, or the Authorization header
-- carries a bearer token that golang-jwt parses for the configured issuer and RS256 into a valid token,
-- whose claims name a provider, and the request is one to open a wallet, or a wager whose body names this
-- provider.
pub serve_http-IsAllowed :
    (cfg : Config) (world : Surroundings) (r : Request) (cache : Cache) (env : Env) (s : Session)
    → ((serve_http cfg world r cache env s).1.db ≡ s.db)
      ⊎ IsAllowed cfg world r cache env s (route_of r.method r.path)
unfolding serve_http
serve_http-IsAllowed cfg world r cache env s = by_path (is_public r.path) refl
  where
    by_path :
        (b : Bool)
        → is_public r.path ≡ b
        → ((respond_to cfg r (authenticate cfg world r.path r.authorization cache).0 env s).1.db
            ≡ s.db)
          ⊎ IsAllowed cfg world r cache env s (route_of r.method r.path)
    by_path false h =
        responded cfg world r cache env s _ (protected cfg world r.authorization cache r.path h)
    by_path true h =
        let page = status_page_same cfg r none _ env s (public_route r.method r.path h) in
        inl (
          ap (λ d. (respond_to cfg r d env s).1.db)
            (passes cfg world r.authorization cache r.path h)
          ∙ page)
