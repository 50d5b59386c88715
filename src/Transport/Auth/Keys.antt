-- ===== src/Transport/Auth/Keys.antt =====
-- The keys of internal/infrastructure/transport/auth_middleware.go: a JWKS is decoded into RSA public
-- keys, which are kept by key id for five minutes.
use jungle_gaming_challenge.Base.{
  ℕ, ◌+◌, ◌-◌, ◌*◌, ◌/◌, ◌%◌, ◌^◌, Bool, true, false, not, ◌||◌, ◌&&◌, List, [], ◌∷◌, Option, none,
  some, leb, ltb, ◌==◌, if◌then◌else◌,
}
use jungle_gaming_challenge.Base.Text.{Text, codes, text_eq, is_empty}
use jungle_gaming_challenge.Usecase.Process.{second}

-- `base64.RawURLEncoding`: the value of a character
abbrev sextet : ℕ → Option ℕ
sextet c =
    if leb b'A' c && leb c b'Z'
    then some (c - 65)
    else if leb b'a' c && leb c b'z'
    then some (c - 71)
    else if leb b'0' c && leb c b'9'
    then some (c + 4)
    else if c == b'-'
    then some 62
    else if c == b'_'
    then some 63
    else none

-- The values of all characters; the decoder passes over line breaks.
sextets : Text → Option (List ℕ)
sextets [] = some []
sextets (c ∷ s) =
    let rest = sextets s in
    if c == 10 || c == 13 then rest else elim (sextet c) [
      | none ↦ none
      | some v ↦ elim rest [ none ↦ none | some vs ↦ some (v ∷ vs) ]
    ]

-- Four characters are three bytes; two and three at the end are one and two, whose left-over bits are not
-- looked at; one is an error.
octets : List ℕ → Option (List ℕ)
octets [] = some []
octets (a ∷ []) = none
octets (a ∷ b ∷ []) = some ((a * 4 + b / 16) ∷ [])
octets (a ∷ b ∷ c ∷ []) = some ((a * 4 + b / 16) ∷ (b % 16 * 16 + c / 4) ∷ [])
octets (a ∷ b ∷ c ∷ d ∷ vs) = elim (octets vs) [
  | none ↦ none
  | some bytes ↦ some ((a * 4 + b / 16) ∷ (b % 16 * 16 + c / 4) ∷ (c % 4 * 64 + d) ∷ bytes)
]

-- `base64.RawURLEncoding.DecodeString`
unfoldable pub decode_string : Text → Option (List ℕ)
unfolding sextets octets
decode_string s = elim (sextets s) [ none ↦ none | some vs ↦ octets vs ]

-- `big.Int.SetBytes`: the number with these digits to the base 256, the first the highest
unfoldable pub set_bytes : ℕ → List ℕ → ℕ
set_bytes n [] = n
set_bytes n (b ∷ bytes) = set_bytes (n * 256 + b) bytes

-- `e = e<<8 + int(b)` over the bytes, on the 64 bits of an `int`
unfoldable pub exponent_of : ℕ → List ℕ → ℕ
exponent_of e [] = e
exponent_of e (b ∷ bytes) = exponent_of (((e * 2 ^ 8) % 2 ^ 64 + b) % 2 ^ 64) bytes

-- `rsa.PublicKey`, the exponent as its 64 bits
pub record PublicKey : Type 0 where
  pub modulus : ℕ
  pub exponent : ℕ

abbrev key_of_bytes : List ℕ → List ℕ → Option PublicKey
key_of_bytes nb eb =
    let e = exponent_of 0 eb in
    if e == 0 then none else some (record { modulus = set_bytes 0 nb; exponent = e })

-- `rsaPublicKeyFromJWK`, with none for its errors, which are all passed over
unfoldable pub rsa_public_key_from_jwk : Text → Text → Option PublicKey
unfolding exponent_of set_bytes decode_string
rsa_public_key_from_jwk n e = elim (decode_string n) [
  | none ↦ none
  | some nb ↦ elim (decode_string e) [ none ↦ none | some eb ↦ key_of_bytes nb eb ]
]

-- `jwksKey`
pub record JwksKey : Type 0 where
  pub kid : Text
  pub kty : Text
  pub alg : Text
  pub n : Text
  pub e : Text
  pub use_of_key : Text

-- The fields of `AuthMiddleware` that change: the map of keys, with a later binding before an earlier
-- one, and the time of the last fetch, or none at all.
pub record Cache : Type 0 where
  pub keys : List (Text × PublicKey)
  pub fetched_at : Option ℕ

-- What a fetch of the JWKS brings: a failure of the exchange, or a status with a body that is a JWKS or
-- is not.
pub data Fetch : Type 0 where
  unreachable : Fetch
  answered : ℕ → Option (List JwksKey) → Fetch

abbrev pub lookup : Text → List (Text × PublicKey) → Option PublicKey
lookup kid [] = none
lookup kid ((k, key) ∷ keys) = if text_eq k kid then some key else lookup kid keys

-- `next[k.Kid] = pub` for the keys that are RSA keys
unfoldable pub rsa_keys : List (Text × PublicKey) → List JwksKey → List (Text × PublicKey)
unfolding rsa_public_key_from_jwk
rsa_keys next [] = next
rsa_keys next (k ∷ ks) = elim (text_eq k.kty (codes "RSA")) [
  | false ↦ rsa_keys next ks
  | true ↦ elim (rsa_public_key_from_jwk k.n k.e) [
    | none ↦ rsa_keys next ks
    | some key ↦ rsa_keys ((k.kid, key) ∷ next) ks
  ]
]

abbrev store_keys : ℕ → List (Text × PublicKey) → Cache → Bool × Cache
store_keys now [] cache = (false, cache)
store_keys now (k ∷ next) cache = (true, record { keys = k ∷ next; fetched_at = some now })

abbrev refresh_with : ℕ → Option (List JwksKey) → Cache → Bool × Cache
refresh_with now none cache = (false, cache)
refresh_with now (some payload) cache = store_keys now (rsa_keys [] payload) cache

-- `refreshKeys`: whether it succeeds, and the cache
unfoldable pub refresh_keys : ℕ → Fetch → Cache → Bool × Cache
unfolding rsa_keys
refresh_keys now unreachable cache = (false, cache)
refresh_keys now (answered status body) cache =
    if status == 200 then refresh_with now body cache else (false, cache)

-- time.Since(m.fetchedAt) > 5*time.Minute
abbrev pub is_stale : ℕ → Option ℕ → Bool
is_stale now none = true
is_stale now (some fetched_at) = ltb (300 * second) (now - fetched_at)

abbrev any_key : List (Text × PublicKey) → Option PublicKey
any_key [] = none
any_key ((k, key) ∷ keys) = some key

-- a key by its id; without an id, the code takes a key that the iteration over its map gives first
abbrev pub found_key : Text → List (Text × PublicKey) → Option PublicKey
found_key kid keys = elim (lookup kid keys) [
  | some key ↦ some key
  | none ↦ if is_empty kid then any_key keys else none
]

abbrev is_some : Option PublicKey → Bool
is_some none = false
is_some (some key) = true

abbrev after_refresh : Text → Bool → Bool × Cache → Option PublicKey × Cache
after_refresh kid known (refreshed, cache) =
    if not refreshed && not known then (none, cache) else (found_key kid cache.keys, cache)

-- `keyForKid`, at one time for the look at the cache and another for the refresh
unfoldable pub key_for_kid : ℕ → ℕ → Fetch → Text → Cache → Option PublicKey × Cache
unfolding refresh_keys
key_for_kid now refreshed_at fetch kid cache =
    let known = lookup kid cache.keys in
    if is_some known && not (is_stale now cache.fetched_at)
    then (known, cache)
    else after_refresh kid (is_some known) (refresh_keys refreshed_at fetch cache)
