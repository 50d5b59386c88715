-- ===== src/Config.antt =====
-- internal/config/config.go. The environment of the process, `os.LookupEnv`, is an argument.
use jungle_gaming_challenge.Base.{
  ℕ, Bool, true, false, List, [], ◌∷◌, ◌++◌, map, Option, none, some, ◌==◌, if◌then◌else◌,
}
use jungle_gaming_challenge.Base.Text.{Text, codes, text_eq}
use jungle_gaming_challenge.Base.Int.{ℤ, pos, sub_ℕ, min_int64}
use jungle_gaming_challenge.Domain.Money.{split, normalize}
use jungle_gaming_challenge.Domain.Money.Digits.{parse_int}

-- The fields that the modelled code reads, and the rest of the file's.
pub record Config : Type 0 where
  pub supported_currencies : List Text
  pub db_connection_string : Text
  pub aws_region : Text
  pub sqs_endpoint : Text
  pub wager_queue_url : Text
  pub events_queue_url : Text
  pub idp_issuer_url : Text
  pub idp_jwks_url : Text
  pub outbox_max_attempts : ℤ
  pub pending_ref_max_retry : ℤ

module _ (lookup_env : Text → Option Text) where
  unfoldable pub get_env : Text → Text → Text
  get_env key fallback = elim (lookup_env key) [ some value ↦ value | none ↦ fallback ]

  abbrev strip_zeros : Text → Text
  strip_zeros [] = []
  strip_zeros (c ∷ s) = if c == b'0' then strip_zeros s else c ∷ s

  -- behind a minus sign; the magnitude of the least `int64` is one more than that of the greatest
  abbrev negated : Text → Option ℤ
  negated s = elim (parse_int s) [
    | some n ↦ some (sub_ℕ 0 n)
    | none ↦ if text_eq (strip_zeros s) (codes "9223372036854775808") then some min_int64 else none
  ]

  abbrev positive : Option ℕ → Option ℤ
  positive none = none
  positive (some n) = some (pos n)

  -- `strconv.Atoi`
  abbrev atoi : Text → Option ℤ
  atoi [] = none
  atoi (c ∷ s) =
      if c == b'-'
      then negated s
      else if c == b'+'
      then positive (parse_int s)
      else positive (parse_int (c ∷ s))

  unfoldable pub get_env_int : Text → ℤ → ℤ
  unfolding get_env
  get_env_int key fallback = elim (atoi (get_env key [])) [ none ↦ fallback | some v ↦ v ]

  unfoldable pub new_config : Config
  unfolding get_env get_env_int split normalize
  new_config = record {
    supported_currencies =
        map normalize (split b',' (get_env (codes "SUPPORTED_CURRENCIES") (codes "BRL")));
    db_connection_string =
        codes "postgres://"
        ++ (get_env (codes "DB_USER") (codes "jungle_user")
            ++ (codes ":"
                ++ (get_env (codes "DB_PASSWORD") (codes "jungle_password")
                    ++ (codes "@"
                        ++ (get_env (codes "DB_HOST") (codes "localhost")
                            ++ (codes ":"
                                ++ (get_env (codes "DB_PORT") (codes "5432")
                                    ++ (codes "/"
                                        ++ (get_env (codes "DB_NAME")
                                              (codes "jungle_wagering_ledger")
                                            ++ (codes "?sslmode="
                                                ++ get_env (codes "DB_SSLMODE")
                                                    (codes "disable")))))))))));
    aws_region = get_env (codes "AWS_REGION") (codes "us-east-1");
    sqs_endpoint = get_env (codes "SQS_ENDPOINT") (codes "http://localhost:4566");
    wager_queue_url =
        get_env (codes "WAGER_QUEUE_URL")
          (codes "http://localhost:4566/000000000000/wager-transactions.fifo");
    events_queue_url =
        get_env (codes "EVENTS_QUEUE_URL")
          (codes "http://localhost:4566/000000000000/wager-events");
    idp_issuer_url = get_env (codes "IDP_ISSUER_URL") (codes "http://localhost:8080/realms/jungle");
    idp_jwks_url =
        get_env (codes "IDP_JWKS_URL")
          (codes "http://localhost:8080/realms/jungle/protocol/openid-connect/certs");
    outbox_max_attempts = get_env_int (codes "OUTBOX_MAX_ATTEMPTS") (pos 10);
    pending_ref_max_retry = get_env_int (codes "PENDING_REF_MAX_RETRY") (pos 20);
  }

-- `Config.IsCurrencySupported`
unfoldable pub is_supported : List Text → Text → Bool
unfolding normalize
is_supported [] currency = false
is_supported (c ∷ cs) currency =
    if text_eq (normalize currency) c then true else is_supported cs currency
