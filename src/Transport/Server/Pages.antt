-- ===== src/Transport/Server/Pages.antt =====
-- The routes that only read.
use jungle_gaming_challenge.Base.{
  ◌≡◌, refl, sym, subst, arith, Bool, true, false, ◌||◌, Option, inl, inr, Bool-cases,
}
use jungle_gaming_challenge.Base.Text.{Text, codes, text_eq, text_eq→eq}
use jungle_gaming_challenge.Config.{Config}
use jungle_gaming_challenge.Domain.Money.{split}
use jungle_gaming_challenge.Store.{Env, Session}
use jungle_gaming_challenge.Store.Always.{
  bind-Always, attempt-Always, pool_query-Always, pure-Always, if-Always,
}
use jungle_gaming_challenge.Transport.Http.{
  ping_answer, handle_readiness, handle_metrics, handle_get_wallet, handle_reconciliation, is_blank,
  wallet_response, reconciliation_response,
}
use jungle_gaming_challenge.Transport.Kept.{find_by_id-Always, reconcile-Always}
use jungle_gaming_challenge.Transport.Auth.{is_public}
use jungle_gaming_challenge.Transport.Server.{
  Request, Route, create_wallet, process_wager, live, ready, metrics_page, get_wallet,
  reconcile_wallet, no_route, post_route, get_route, route_of, handle,
}

abbrev pub status_page : Route → Bool
status_page live = true
status_page ready = true
status_page metrics_page = true
status_page no_route = true
status_page _ = false

by_method :
    (method path : Text)
    → status_page (post_route (split b'/' path)) ≡ true
    → status_page (get_route (split b'/' path)) ≡ true
    → status_page (route_of method path) ≡ true
unfolding route_of
by_method method path post get = elim (Bool-cases (text_eq method (codes "POST"))) [
  | inl p ↦ rw p post
  | inr p ↦ elim (Bool-cases (text_eq method (codes "GET") || text_eq method (codes "HEAD"))) [
    | inl g ↦ rw (p, g) get
    | inr g ↦ rw (p, g) refl
  ]
]

-- A public path leads to a status page, or to none.
pub public_route :
    (method path : Text) → is_public path ≡ true → status_page (route_of method path) ≡ true
unfolding split text_eq
public_route method path h = elim (Bool-cases (text_eq path (codes "/health/live"))) [
  | inl e ↦ at (codes "/health/live") e (by_method method (codes "/health/live") refl refl)
  | inr n ↦ elim (Bool-cases (text_eq path (codes "/health/ready"))) [
    | inl e ↦ at (codes "/health/ready") e (by_method method (codes "/health/ready") refl refl)
    | inr k ↦ at (codes "/metrics") (left n k) (by_method method (codes "/metrics") refl refl)
  ]
]
  where
    at :
        (page : Text)
        → text_eq path page ≡ true
        → status_page (route_of method page) ≡ true
        → status_page (route_of method path) ≡ true
    at page e k =
        subst (λ q. status_page (route_of method q) ≡ true) (sym (text_eq→eq path page e)) k

    left :
        text_eq path (codes "/health/live") ≡ false
        → text_eq path (codes "/health/ready") ≡ false
        → text_eq path (codes "/metrics") ≡ true
    left n k = ground arith

pub status_page_same :
    (cfg : Config) (r : Request) (provider : Option Text) (route : Route) (env : Env) (s : Session)
    → status_page route ≡ true
    → (handle cfg r provider route env s).1.db ≡ s.db
unfolding handle handle_readiness handle_metrics
status_page_same cfg r provider live env s h = refl
status_page_same cfg r provider ready env s h =
    (bind-Always (attempt-Always (pool_query-Always (λ db. tt)))
        (λ answer. pure-Always {P = λ db o. db ≡ s.db} (ping_answer answer))).runs
      env s refl
status_page_same cfg r provider metrics_page env s h = refl
status_page_same cfg r provider no_route env s h = refl
status_page_same cfg r provider create_wallet env s h = absurd (cc h)
status_page_same cfg r provider process_wager env s h = absurd (cc h)
status_page_same cfg r provider (get_wallet id) env s h = absurd (cc h)
status_page_same cfg r provider (reconcile_wallet id) env s h = absurd (cc h)

pub get_wallet_same :
    (id : Text) (env : Env) (s : Session) → (handle_get_wallet id env s).1.db ≡ s.db
unfolding handle_get_wallet
get_wallet_same id env s =
    (if-Always {P = λ db o. db ≡ s.db} (is_blank id) (pure-Always _) (
        bind-Always (attempt-Always (find_by_id-Always id))
          (λ a. pure-Always (wallet_response a)))).runs
      env s refl

pub reconciliation_same :
    (id : Text) (env : Env) (s : Session) → (handle_reconciliation id env s).1.db ≡ s.db
unfolding handle_reconciliation
reconciliation_same id env s =
    (if-Always {P = λ db o. db ≡ s.db} (is_blank id) (pure-Always _) (
        bind-Always (attempt-Always (reconcile-Always id))
          (λ a. pure-Always (reconciliation_response a)))).runs
      env s refl
