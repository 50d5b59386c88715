-- ===== src/Transport/Server.antt =====
-- `ServeHTTP` of internal/infrastructure/transport/http_handler.go: the authentication before the
-- patterns of `http.ServeMux`. For a request that meets no pattern the multiplexer answers 404 or 405;
-- 404 stands for both. Redirects of unclean paths and percent-decoding are left out.
use jungle_gaming_challenge.Base.{
  ℕ, ◌≡◌, ◌≢◌, refl, Bool, true, false, ◌||◌, ◌&&◌, not, List, [], ◌∷◌, Option, none, some,
  if◌then◌else◌,
}
use jungle_gaming_challenge.Base.Text.{Text, codes, text_eq, is_empty}
use jungle_gaming_challenge.Errors.{Result, ok, err}
use jungle_gaming_challenge.Config.{Config}
use jungle_gaming_challenge.Domain.Money.{split}
use jungle_gaming_challenge.Store.{Env, Session, Tx, pure}
use jungle_gaming_challenge.Usecase.OpenWallet.{OpenWalletInput}
use jungle_gaming_challenge.Transport.Http.{
  Response, Status, unauthorized as status_unauthorized, not_found, respond_with_message,
  handle_create_wallet, handle_get_wallet, handle_reconciliation, handle_liveness, handle_readiness,
  handle_metrics,
}
use jungle_gaming_challenge.Transport.Http.Wagering.{WagerBody, handle_process_transaction}
use jungle_gaming_challenge.Transport.Auth.{
  Surroundings, Decision, passed, authenticated, unauthorized, authenticate,
}
use jungle_gaming_challenge.Transport.Auth.Keys.{Cache}
pub mod Access
pub mod Pages

-- A request, with its two headers and its body as each handler decodes it.
pub record Request : Type 0 where
  pub method : Text
  pub path : Text
  pub authorization : Text
  pub idempotency_key : Text
  pub wallet_body : Option OpenWalletInput
  pub wager_body : Option WagerBody

pub data Route : Type 0 where
  create_wallet process_wager live ready metrics_page : Route
  get_wallet reconcile_wallet : Text → Route
  no_route : Route

abbrev pub post_route : List Text → Route
post_route (a ∷ wallets ∷ []) =
    if is_empty a && text_eq wallets (codes "wallets") then create_wallet else no_route
post_route (a ∷ first ∷ second ∷ []) =
    if is_empty a && text_eq first (codes "wagering") && text_eq second (codes "transactions")
    then process_wager
    else no_route
post_route (a ∷ first ∷ id ∷ last ∷ []) =
    if is_empty a
      && text_eq first (codes "wallets")
      && not (is_empty id)
      && text_eq last (codes "reconciliation")
    then reconcile_wallet id
    else no_route
post_route _ = no_route

abbrev health_route : Text → Route
health_route page =
    if text_eq page (codes "live")
    then live
    else if text_eq page (codes "ready")
    then ready
    else no_route

abbrev pub get_route : List Text → Route
get_route (a ∷ page ∷ []) =
    if is_empty a && text_eq page (codes "metrics") then metrics_page else no_route
get_route (a ∷ first ∷ second ∷ []) =
    if is_empty a && text_eq first (codes "wallets") && not (is_empty second)
    then get_wallet second
    else if is_empty a && text_eq first (codes "health")
    then health_route second
    else no_route
get_route _ = no_route

-- The pattern that a request meets; a GET pattern takes HEAD too.
unfoldable pub route_of : Text → Text → Route
unfolding split
route_of method path =
    if text_eq method (codes "POST")
    then post_route (split b'/' path)
    else if text_eq method (codes "GET") || text_eq method (codes "HEAD")
    then get_route (split b'/' path)
    else no_route

unfoldable pub handle : Config → Request → Option Text → Route → Tx Response
handle cfg r provider create_wallet = handle_create_wallet cfg r.wallet_body
handle cfg r provider process_wager =
    handle_process_transaction cfg r.idempotency_key provider r.wager_body
handle cfg r provider live = pure handle_liveness
handle cfg r provider ready = handle_readiness
handle cfg r provider metrics_page = handle_metrics
handle cfg r provider (get_wallet id) = handle_get_wallet id
handle cfg r provider (reconcile_wallet id) = handle_reconciliation id
handle cfg r provider no_route = pure (respond_with_message not_found (codes "404 page not found"))

abbrev pub respond_to : Config → Request → Decision → Tx Response
respond_to cfg r passed = handle cfg r none (route_of r.method r.path)
respond_to cfg r (authenticated provider) = handle cfg r (some provider) (route_of r.method r.path)
respond_to cfg r (unauthorized text) = pure (respond_with_message status_unauthorized text)

-- `HTTPHandler.ServeHTTP`
unfoldable pub serve_http : Config → Surroundings → Request → Cache → Tx Response
unfolding handle route_of
serve_http cfg world r cache =
    respond_to cfg r (authenticate cfg world r.path r.authorization cache).0
