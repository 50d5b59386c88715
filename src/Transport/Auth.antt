-- ===== src/Transport/Auth.antt =====
-- internal/infrastructure/transport/auth_middleware.go. golang-jwt's parser is a parameter.
use jungle_gaming_challenge.Base.{
  Bool, true, false, ◌||◌, ℕ, zero, suc, List, [], ◌∷◌, Option, none, some, if◌then◌else◌,
}
use jungle_gaming_challenge.Base.Text.{Text, codes, text_eq, is_empty, has_prefix, to_lower}
use jungle_gaming_challenge.Config.{Config}
use jungle_gaming_challenge.Domain.Money.{split}
use jungle_gaming_challenge.Transport.Auth.Keys.{PublicKey, Cache, Fetch, key_for_kid, refresh_keys}
pub mod Keys
pub mod Exponent
pub mod Refresh

abbrev initial : Text → ℕ → Fetch → Cache → Cache
initial url now fetch cache = if is_empty url then cache else (refresh_keys now fetch cache).1

-- `NewAuthMiddleware`: a first fetch may fail
unfoldable pub new_auth_middleware : Config → ℕ → Fetch → Cache
new_auth_middleware cfg now fetch =
    initial cfg.idp_jwks_url now fetch (record { keys = []; fetched_at = none })

-- What the key function reads of a token: whether its method is an RSA method, and its key id, or the
-- empty text.
pub record Header : Type 0 where
  pub is_rsa : Bool
  pub kid : Text

-- the two claims that the code reads, as `%v` prints them
pub record Claims : Type 0 where
  pub azp : Option Text
  pub client_id : Option Text

-- `jwt.Token`: its claims, if they are `jwt.MapClaims`, and `Valid`
pub record Token : Type 0 where
  pub claims : Option Claims
  pub valid : Bool

-- a function that gives the key for a header, and may refresh the cache
abbrev pub KeyFunction : Type 0
KeyFunction = Header → Cache → Option PublicKey × Cache

-- `jwt.Parse` with an issuer and the valid methods: a token, or none for an error
abbrev pub Parser : Type 0
Parser = Text → List Text → Text → KeyFunction → Cache → Option Token × Cache

-- What comes from outside while a request is verified: the clock, and the answer to a fetch of the keys.
pub record Surroundings : Type 0 where
  pub parse : Parser
  pub now : ℕ
  pub refreshed_at : ℕ
  pub fetch : Fetch

abbrev pub key_function : Surroundings → KeyFunction
key_function world header cache =
    if header.is_rsa
    then key_for_kid world.now world.refreshed_at world.fetch header.kid cache
    else (none, cache)

-- Takes out each "-service", from the left; the number is that of the bytes still to leave out.
remove_service : ℕ → Text → Text
remove_service n [] = []
remove_service (suc n) (c ∷ s) = remove_service n s
remove_service zero (c ∷ s) = elim (has_prefix (codes "-service") (c ∷ s)) [
  | true ↦ remove_service 7 s
  | false ↦ c ∷ remove_service zero s
]

-- `strings.ReplaceAll(clientID, "-service", "")`
unfoldable pub provider_of_client : Text → Text
unfolding remove_service
provider_of_client client_id = remove_service zero client_id

abbrev client_of : Option Text → Option Text → Option Text
client_of (some azp) client_id = some azp
client_of none client_id = client_id

abbrev provider_of : Option Text → Option Text
provider_of none = none
provider_of (some client) = some (provider_of_client client)

abbrev pub provider_of_token : Option Token → Option Text
provider_of_token none = none
provider_of_token (some token) = elim token.claims [
  | none ↦ none
  | some claims ↦ if token.valid then provider_of (client_of claims.azp claims.client_id) else none
]

-- `verifyAndExtractProvider`, with none for an error
unfoldable pub verify_and_extract_provider :
    Config → Surroundings → Text → Cache → Option Text × Cache
verify_and_extract_provider cfg world token cache =
    let (parsed, cache') =
      world.parse cfg.idp_issuer_url (codes "RS256" ∷ []) token (key_function world) cache in
    (provider_of_token parsed, cache')

abbrev pub is_public : Text → Bool
is_public path =
    text_eq path (codes "/health/live")
    || text_eq path (codes "/health/ready")
    || text_eq path (codes "/metrics")

-- The next handler runs, without a provider or with one, or the answer is 401.
pub data Decision : Type 0 where
  passed : Decision
  authenticated : Text → Decision
  unauthorized : Text → Decision

abbrev pub decide : Option Text × Cache → Decision × Cache
decide (none, cache) = (unauthorized (codes "Invalid token"), cache)
decide (some provider, cache) = (authenticated provider, cache)

-- the token of an `Authorization` header of two parts
abbrev pub bearer_token : List Text → Option Text
bearer_token (scheme ∷ token ∷ []) =
    if text_eq (to_lower scheme) (codes "bearer") then some token else none
bearer_token _ = none

abbrev pub verify_token : Config → Surroundings → Option Text → Cache → Decision × Cache
verify_token cfg world none cache = (unauthorized (codes "Invalid Authorization header"), cache)
verify_token cfg world (some token) cache =
    decide (verify_and_extract_provider cfg world token cache)

-- `Authenticate`, with the empty text for no header
unfoldable pub authenticate : Config → Surroundings → Text → Text → Cache → Decision × Cache
unfolding verify_and_extract_provider split
authenticate cfg world path header cache =
    if is_public path
    then (passed, cache)
    else if is_empty header
    then (unauthorized (codes "Unauthorized"), cache)
    else verify_token cfg world (bearer_token (split b' ' header)) cache
