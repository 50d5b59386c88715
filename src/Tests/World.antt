-- ===== src/Tests/World.antt =====
-- A server that never fails, a clock that counts seconds, and a small database.
use mathlib.Core.List.{foldl}
use jungle_gaming_challenge.Domain.Money.Digits.{format_nat}
use jungle_gaming_challenge.Base.{ℕ, ◌+◌, ◌-◌, ◌*◌, ◌%◌, ◌^◌, ◌==◌, false, List, [], ◌∷◌, ◌++◌}
use jungle_gaming_challenge.Base.Text.{Text, codes}
use jungle_gaming_challenge.Base.Int.{pos}
use jungle_gaming_challenge.Config.{Config}
use jungle_gaming_challenge.Store.{Outside, Env, Session, Db, JsonValue, text, number}
use jungle_gaming_challenge.Usecase.Wager.{InputTransaction, InboxClaim}
use jungle_gaming_challenge.Usecase.OpenWallet.{OpenWalletInput}

-- a checksum of the values of a map: a stand-in for SHA-256 that fits the column
abbrev joined : List (Text × Text) → Text
joined [] = []
joined ((k, v) ∷ m) = v ++ (b'|' ∷ joined m)

abbrev checksum : List (Text × Text) → Text
checksum m = format_nat (foldl (λ n c. (n * 257 + c) % (2 ^ 89 - 1)) 0 (joined m))

abbrev joined_values : List (Text × JsonValue) → Text
joined_values [] = []
joined_values ((k, text v) ∷ m) = v ++ (b'|' ∷ joined_values m)
joined_values ((k, number v) ∷ m) = k ++ (b'|' ∷ joined_values m)

abbrev pub steady : Env
steady = record {
  clock = λ n. 7 + n;
  fails = λ n. false;
  reaches = λ n. false;
  sha256_json = checksum;
  json_map = joined_values;
}

-- the same server, whose n-th exchange fails
abbrev pub failing_at : ℕ → Env
failing_at n = record steady { fails = λ k. k == n }

abbrev pub no_rows : Db
no_rows = record { wallets = []; transactions = []; ledger = []; inbox = []; outbox = [] }

-- nothing sent, nothing deleted, nothing counted
abbrev pub quiet : Outside
quiet = record {
  sent = [];
  deleted = [];
  counters = record {
    wagers_processed = pos 0;
    sqs_errors = pos 0;
    outbox_published = pos 0;
    outbox_errors = pos 0;
  };
}

abbrev pub session : Db → Session
session db = record { db = db; outside = quiet; is_aborted = false; exchanges = 0; readings = 0 }

abbrev pub config : Config
config = record {
  supported_currencies = codes "BRL" ∷ codes "USD" ∷ [];
  db_connection_string = [];
  aws_region = [];
  sqs_endpoint = [];
  wager_queue_url = [];
  events_queue_url = [];
  idp_issuer_url = [];
  idp_jwks_url = [];
  outbox_max_attempts = pos 10;
  pending_ref_max_retry = pos 20;
}

abbrev pub opening_input : OpenWalletInput
opening_input = record {
  player_id = codes "ana";
  initial_amount = codes "100.00";
  initial_currency = codes "brl";
}

abbrev pub request : Text → Text → Text → Text → InputTransaction
request external_id kind amount reference = record {
  provider_id = codes "p";
  external_transaction_id = external_id;
  idempotency_key = codes "k" ++ external_id;
  player_id = codes "ana";
  wallet_id = codes "wal_ana_brl";
  round_id = codes "r";
  game_id = codes "g";
  kind = kind;
  amount = amount;
  currency = codes "BRL";
  reference_external_id = reference;
}

abbrev pub claim : InboxClaim
claim = record { consumer_name = codes "c"; message_id = codes "m1"; payload_hash = codes "h" }
