-- ===== src/Domain/Wager.antt =====
-- internal/domain/transaction.go: a wager transaction and its state machine. The clock readings of
-- `time.Now()` are arguments.
pub mod Lifecycle
pub mod Creation
use jungle_gaming_challenge.Base.{
  ℕ, Bool, true, false, ◌||◌, ◌&&◌, not, List, [], ◌∷◌, if◌then◌else◌,
}
use jungle_gaming_challenge.Base.Text.{Text, codes, is_empty, text_eq, trim_space}
use jungle_gaming_challenge.Errors.{
  Result, ok, err, fail_if, ◌>>=◌, ◌>>◌, terminal_state_transition, invalid_transaction_kind,
  missing_reference, invalid_state_transition, loss_type_must_have_zero_value,
  amount_must_be_positive, failure_code_required,
}
use jungle_gaming_challenge.Domain.Money.{Money, is_zero, is_negative, to_text}

-- The constants of `TransactionKind`, and any other text that a request may carry.
pub data TransactionKind : Type 0 where
  opening bet win loss refund rollback : TransactionKind
  unknown : Text → TransactionKind

unfoldable pub kind_text : TransactionKind → Text
kind_text opening = codes "OPENING"
kind_text bet = codes "BET"
kind_text win = codes "WIN"
kind_text loss = codes "LOSS"
kind_text refund = codes "REFUND"
kind_text rollback = codes "ROLLBACK"
kind_text (unknown s) = s

-- The conversion `domain.TransactionKind(s)`.
unfoldable pub transaction_kind : Text → TransactionKind
transaction_kind s =
    if text_eq s (codes "OPENING")
    then opening
    else if text_eq s (codes "BET")
    then bet
    else if text_eq s (codes "WIN")
    then win
    else if text_eq s (codes "LOSS")
    then loss
    else if text_eq s (codes "REFUND")
    then refund
    else if text_eq s (codes "ROLLBACK")
    then rollback
    else unknown s

pub data TransactionStatus : Type 0 where
  pending pending_reference processed rejected failed : TransactionStatus

unfoldable pub status_text : TransactionStatus → Text
status_text pending = codes "PENDING"
status_text pending_reference = codes "PENDING_REFERENCE"
status_text processed = codes "PROCESSED"
status_text rejected = codes "REJECTED"
status_text failed = codes "FAILED"

pub record WagerTransaction : Type 0 where
  pub id : Text
  pub provider_id : Text
  pub external_transaction_id : Text
  pub idempotency_key : Text
  pub payload_hash : Text
  pub wallet_id : Text
  pub player_id : Text
  pub round_id : Text
  pub game_id : Text
  pub kind : TransactionKind
  pub money : Money
  pub reference_external_id : Text
  pub status : TransactionStatus
  pub failure_code : Text
  pub idempotent_replay : Bool
  pub created_at : ℕ
  pub updated_at : ℕ

-- `switch kind` on the kinds that a provider may send
abbrev pub is_external : TransactionKind → Bool
is_external opening = false
is_external (unknown s) = false
is_external _ = true

-- `kind == KindRefund || kind == KindRollback`
abbrev pub needs_reference : TransactionKind → Bool
needs_reference refund = true
needs_reference rollback = true
needs_reference _ = false

-- the rules of the amount by kind
abbrev check_amount : TransactionKind → Money → Result (Unit {0})
check_amount loss money = fail_if (not (is_zero money)) loss_type_must_have_zero_value
check_amount opening money = ok tt
check_amount (unknown s) money = ok tt
check_amount _ money = fail_if (is_zero money || is_negative money) amount_must_be_positive

unfoldable pub new_wager_transaction :
    Text
    → Text
    → Text
    → Text
    → Text
    → Text
    → Text
    → Text
    → TransactionKind
    → Money
    → Text
    → ℕ
    → Result WagerTransaction
new_wager_transaction id provider_id external_id idempotency_key wallet_id player_id round_id
      game_id kind money reference_external_id now =
    do
      fail_if
          (is_empty id
            || is_empty provider_id
            || is_empty external_id
            || is_empty idempotency_key
            || is_empty wallet_id
            || is_empty player_id)
          missing_reference
      fail_if (not (is_external kind)) invalid_transaction_kind
      check_amount kind money
      fail_if (needs_reference kind && is_empty (trim_space reference_external_id))
          missing_reference
      ok (record {
        id = id;
        provider_id = provider_id;
        external_transaction_id = external_id;
        idempotency_key = idempotency_key;
        payload_hash = [];
        wallet_id = wallet_id;
        player_id = player_id;
        round_id = round_id;
        game_id = game_id;
        kind = kind;
        money = money;
        reference_external_id = reference_external_id;
        status = pending;
        failure_code = [];
        idempotent_replay = false;
        created_at = now;
        updated_at = now;
      })

unfoldable pub rehydrate_wager_transaction :
    Text
    → Text
    → Text
    → Text
    → Text
    → Text
    → Text
    → Text
    → Text
    → TransactionKind
    → Money
    → Text
    → TransactionStatus
    → Text
    → ℕ
    → ℕ
    → WagerTransaction
rehydrate_wager_transaction id provider_id external_id idempotency_key payload_hash wallet_id
      player_id round_id game_id kind money reference_external_id status failure_code created_at
      updated_at =
    record {
      id = id;
      provider_id = provider_id;
      external_transaction_id = external_id;
      idempotency_key = idempotency_key;
      payload_hash = payload_hash;
      wallet_id = wallet_id;
      player_id = player_id;
      round_id = round_id;
      game_id = game_id;
      kind = kind;
      money = money;
      reference_external_id = reference_external_id;
      status = status;
      failure_code = failure_code;
      idempotent_replay = false;
      created_at = created_at;
      updated_at = updated_at;
    }

unfoldable pub mark_as_idempotent_replay : WagerTransaction → WagerTransaction
mark_as_idempotent_replay t = record t { idempotent_replay = true }

abbrev pub is_terminal_status : TransactionStatus → Bool
is_terminal_status processed = true
is_terminal_status rejected = true
is_terminal_status failed = true
is_terminal_status _ = false

unfoldable pub is_terminal : WagerTransaction → Bool
is_terminal t = is_terminal_status t.status

unfoldable pub transition_to_processed : WagerTransaction → ℕ → Result WagerTransaction
unfolding is_terminal
transition_to_processed t now = do
  fail_if (is_terminal t) terminal_state_transition
  ok (record t { status = processed; updated_at = now })

-- `status != StatusPending && status != StatusPendingReference`
abbrev not_pending : TransactionStatus → Bool
not_pending pending = false
not_pending pending_reference = false
not_pending _ = true

unfoldable pub transition_to_pending_reference : WagerTransaction → ℕ → Result WagerTransaction
unfolding is_terminal
transition_to_pending_reference t now = do
  fail_if (is_terminal t) terminal_state_transition
  fail_if (not_pending t.status) invalid_state_transition
  ok (record t { status = pending_reference; updated_at = now })

unfoldable pub transition_to_rejected : WagerTransaction → Text → ℕ → Result WagerTransaction
unfolding is_terminal
transition_to_rejected t failure_code now = do
  fail_if (is_terminal t) terminal_state_transition
  fail_if (is_empty failure_code) failure_code_required
  ok (record t { status = rejected; failure_code = failure_code; updated_at = now })

-- The map that `CalculateAndSetPayloadHash` serializes, its keys in the order of `json.Marshal`.
unfoldable pub payload_map : WagerTransaction → List (Text × Text)
unfolding kind_text
payload_map t =
    (codes "amount", to_text t.money)
    ∷ (codes "currency", t.money.currency)
    ∷ (codes "externalTransactionID", t.external_transaction_id)
    ∷ (codes "gameID", t.game_id)
    ∷ (codes "kind", kind_text t.kind)
    ∷ (codes "playerID", t.player_id)
    ∷ (codes "providerID", t.provider_id)
    ∷ (codes "referenceExternalID", t.reference_external_id)
    ∷ (codes "roundID", t.round_id)
    ∷ (codes "walletID", t.wallet_id)
    ∷ []

-- `sha256_json` stands for the SHA-256 of the JSON of a map of texts, in hexadecimal digits. A map of
-- texts always has a JSON form, so the method's error does not occur.
unfoldable pub calculate_and_set_payload_hash :
    (List (Text × Text) → Text) → WagerTransaction → WagerTransaction
unfolding payload_map
calculate_and_set_payload_hash sha256_json t = record t {
  payload_hash = sha256_json (payload_map t);
}
