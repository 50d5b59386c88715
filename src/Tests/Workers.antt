-- ===== src/Tests/Workers.antt =====
-- The theorems on the workers, the server and the system at concrete messages and requests.
use jungle_gaming_challenge.Base.{ℕ, ◌≡◌, ◌*◌, ◌^◌, ◌%◌, refl, true, [], ◌∷◌, none, some, ◌⊎◌}
use jungle_gaming_challenge.Base.Sort.{sort_by}
use jungle_gaming_challenge.Base.Text.{Text, codes, text_eq}
use jungle_gaming_challenge.Config.{Config}
use jungle_gaming_challenge.Domain.Wager.{pending_reference, refund}
use jungle_gaming_challenge.Store.{
  timestamptz, Db, Session, OutboxRow, TransactionRow, pending_event,
}
use jungle_gaming_challenge.Store.Due.{select_pending_events, select_pending_references}
use jungle_gaming_challenge.Repository.Transaction.{transaction_row}
use jungle_gaming_challenge.Repository.Reconciled.{Reconciled}
use jungle_gaming_challenge.Usecase.Process.{second}
use jungle_gaming_challenge.Usecase.Process.Redelivery.{was_claimed}
use jungle_gaming_challenge.Transport.Outbox.{process_pending_events}
use jungle_gaming_challenge.Transport.Outbox.Delivered.{Delivered, process_pending_events-Delivered}
use jungle_gaming_challenge.Transport.Sqs.{
  Decoder, Envelope, Message, claim_of, process_sqs_envelope, poll,
}
use jungle_gaming_challenge.Transport.Sqs.Safety.{
  process_sqs_envelope-Settles, Settles, use_case_answer, IsSettled, process_sqs_envelope-IsSettled,
}
use jungle_gaming_challenge.Transport.Http.Wagering.{WagerBody, handle_process_transaction}
use jungle_gaming_challenge.Transport.Http.Answers.{Answers, handle_process_transaction-Answers}
use jungle_gaming_challenge.Transport.Auth.{Parser, Surroundings}
use jungle_gaming_challenge.Transport.Auth.Keys.{
  Cache, unreachable, PublicKey, lookup, key_for_kid, exponent_of, set_bytes,
}
use jungle_gaming_challenge.Transport.Auth.Exponent.{exponent_of-set_bytes}
use jungle_gaming_challenge.Transport.Auth.Refresh.{key_for_kid-FromCache}
use jungle_gaming_challenge.Transport.Server.{Request, route_of, serve_http}
use jungle_gaming_challenge.Transport.Server.Access.{IsAllowed, serve_http-IsAllowed}
use jungle_gaming_challenge.System.{
  Reaches, start, turn, served, received, published, EndsWith, Reaches-Reconciled, Reaches-EndsWith,
  Reaches-idempotent,
}
use jungle_gaming_challenge.Tests.World.{
  steady, failing_at, no_rows, session, config, opening_input,
}
use jungle_gaming_challenge.Tests.Runs.{opened, bet_made, stored}

-- two events of one wallet, the older one first in time
abbrev event : Text → ℕ → OutboxRow
event id at = record {
  id = id;
  aggregate_id = codes "wal_ana_brl";
  event_type = codes "WALLET_OPENED";
  payload = codes "{}";
  attempts = 0;
  status = pending_event;
  next_send_at = at;
  created_at = at;
  published_at = none;
}

abbrev waiting : Db
waiting = record no_rows { outbox = event (codes "e2") 5000 ∷ event (codes "e1") 3000 ∷ [] }

abbrev fifo_config : Config
fifo_config = record config { events_queue_url = codes "q.fifo" }

waiting-Delivered : Delivered fifo_config waiting (session waiting).outside
unfolding text_eq
waiting-Delivered = ((refl, (refl, tt)), ((λ h. absurd (cc h)), ((λ h. absurd (cc h)), tt)))

abbrev after_tick : Session
after_tick = (process_pending_events fifo_config (failing_at 2) (session waiting)).1

process_pending_events-Delivered_example : Delivered fifo_config after_tick.db after_tick.outside
process_pending_events-Delivered_example =
    process_pending_events-Delivered fifo_config (failing_at 2) (session waiting) waiting-Delivered

-- the older event is the one that is found
first_found : select_pending_events 9000 1 waiting ≡ event (codes "e1") 3000 ∷ []
unfolding select_pending_events sort_by timestamptz
first_found = refl

-- a refund that waits for its reference
abbrev refund_row : TransactionRow
refund_row = record (transaction_row (bet_made (codes "h") 7) (some 8)) {
  kind = refund;
  status = pending_reference;
}

refund_found : select_pending_references 9 20 (stored refund_row) ≡ refund_row ∷ []
unfolding select_pending_references sort_by timestamptz
refund_found = refl

-- a message that carries the bet, and a decoder that knows no other
abbrev envelope : Envelope
envelope = record {
  message_id = codes "m1";
  kind_of_message = codes "wager";
  occurred_at = [];
  provider_id = codes "p";
  external_transaction_id = codes "1";
  idempotency_key = codes "k1";
  player_id = codes "ana";
  wallet_id = codes "wal_ana_brl";
  round_id = codes "r";
  game_id = codes "g";
  kind = codes "BET";
  amount = codes "30.50";
  currency = codes "BRL";
  reference_external_id = [];
}

abbrev decoder : Decoder
decoder = record { unmarshal = λ s. some envelope; sha256_hex = λ s. s }

abbrev message : Message
message = record { id = none; body = codes "bet"; receipt_handle = codes "r1" }

process_sqs_envelope-IsSettled_example :
    let u = (process_sqs_envelope decoder config message steady opened).1 in
    (u.outside.deleted ≡ opened.outside.deleted)
    ⊎ ((u.outside.deleted ≡ codes "r1" ∷ opened.outside.deleted)
        × ((e : Envelope) × (decoder.unmarshal message.body ≡ some e)
            × IsSettled decoder config message e steady opened u.db))
process_sqs_envelope-IsSettled_example =
    process_sqs_envelope-IsSettled decoder config message steady opened

-- the bet as an HTTP request
abbrev wager_body : WagerBody
wager_body = record {
  provider_id = codes "p";
  external_transaction_id = codes "1";
  player_id = codes "ana";
  wallet_id = codes "wal_ana_brl";
  round_id = codes "r";
  game_id = codes "g";
  kind = codes "BET";
  amount = codes "30.50";
  currency = codes "BRL";
  reference_external_id = [];
}

handle_process_transaction-Answers_example :
    Answers config (codes "k1") (some (codes "p")) (some wager_body) steady opened (
      handle_process_transaction config
        (codes "k1")
        (some (codes "p"))
        (some wager_body)
        steady
        opened)
handle_process_transaction-Answers_example =
    handle_process_transaction-Answers config (codes "k1") (some (codes "p")) (some wager_body)
      steady opened

-- a parser that accepts every token whose key there is
abbrev trusting : Parser
trusting issuer methods token key_function cache =
    let (key, cache') = key_function (record { is_rsa = true; kid = codes "a" }) cache in
    (
      elim key [
        | none ↦ none
        | some k ↦ some (record {
          claims = some (record { azp = some (codes "p-service"); client_id = none });
          valid = true;
        })
      ],
      cache',
    )

abbrev key : PublicKey
key = record { modulus = 3233; exponent = 17 }

abbrev old_cache : Cache
old_cache = record { keys = (codes "a", key) ∷ []; fetched_at = some 0 }

abbrev offline : Surroundings
offline = record {
  parse = trusting;
  now = 1000 * second;
  refreshed_at = 1000 * second;
  fetch = unreachable;
}

key_for_kid-FromCache_example :
    key_for_kid (1000 * second) (1000 * second) unreachable (codes "a") old_cache
    ≡ (lookup (codes "a") old_cache.keys, old_cache)
key_for_kid-FromCache_example =
    key_for_kid-FromCache (1000 * second) (1000 * second) unreachable (codes "a") old_cache tt

-- the usual exponent
exponent_of-set_bytes_example :
    exponent_of 0 (1 ∷ 0 ∷ 1 ∷ []) ≡ set_bytes 0 (1 ∷ 0 ∷ 1 ∷ []) % 2 ^ 64
exponent_of-set_bytes_example = exponent_of-set_bytes (1 ∷ 0 ∷ 1 ∷ [])

abbrev bet_by_http : Request
bet_by_http = record {
  method = codes "POST";
  path = codes "/wagering/transactions";
  authorization = codes "Bearer t";
  idempotency_key = codes "k1";
  wallet_body = none;
  wager_body = some wager_body;
}

serve_http-IsAllowed_example :
    ((serve_http config offline bet_by_http old_cache steady opened).1.db ≡ opened.db)
    ⊎ IsAllowed config offline bet_by_http old_cache steady opened
        (route_of (codes "POST") (codes "/wagering/transactions"))
serve_http-IsAllowed_example =
    serve_http-IsAllowed config offline bet_by_http old_cache steady opened

-- the wallet is opened, the bet is made, and the events are published
abbrev opening_by_http : Request
opening_by_http = record {
  method = codes "POST";
  path = codes "/wallets";
  authorization = codes "Bearer t";
  idempotency_key = [];
  wallet_body = some opening_input;
  wager_body = none;
}

abbrev day_1 : Session
day_1 = (serve_http config offline opening_by_http old_cache steady (session no_rows)).1

abbrev day_2 : Session
day_2 = (poll decoder config (some (message ∷ [])) steady day_1).1

abbrev day_3 : Session
day_3 = (process_pending_events config steady day_2).1

path : Reaches config (session no_rows) day_3
path =
    turn
      (turn (turn start (served offline opening_by_http old_cache steady refl))
        (received decoder (some (message ∷ [])) steady refl))
      (published steady refl)

Reaches-Reconciled_example :
    Reconciled day_3.db.wallets day_3.db.ledger × Delivered config day_3.db day_3.outside
Reaches-Reconciled_example =
    Reaches-Reconciled config (session no_rows) day_3 path (tt, tt) (tt, tt)

Reaches-EndsWith_example : EndsWith [] day_3.db.ledger
Reaches-EndsWith_example = Reaches-EndsWith config (session no_rows) day_3 path

-- the inbox already holds the message
abbrev with_claim : Session
with_claim = session (record no_rows {
  inbox =
      record {
        message_id = codes "m1";
        consumer_name = codes "sqs_wager_consumer";
        payload_hash = codes "bet";
        received_at = 1;
        processed_at = 1;
      }
      ∷ [];
})

claimed : was_claimed (claim_of decoder message envelope) with_claim.db.inbox ≡ true
unfolding text_eq
claimed = refl

abbrev after_claim : Session
after_claim = (process_pending_events config steady with_claim).1

Reaches-idempotent_example :
    (process_sqs_envelope decoder config message steady after_claim).1.db ≡ after_claim.db
Reaches-idempotent_example =
    Reaches-idempotent config with_claim after_claim decoder message envelope steady
      (turn start (published steady refl)) refl claimed

abbrev after_bet : Session
after_bet = (process_sqs_envelope decoder config message steady opened).1

process_sqs_envelope-Settles_example :
    Settles message
      (use_case_answer decoder config message envelope steady opened).0
      opened.outside
      after_bet.outside
process_sqs_envelope-Settles_example =
    process_sqs_envelope-Settles decoder config message envelope steady opened refl refl
