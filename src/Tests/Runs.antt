-- ===== src/Tests/Runs.antt =====
-- The story that the tests tell: a wallet is opened with 100.00, and 30.50 of it is bet.
use jungle_gaming_challenge.Base.{false, [], ◌∷◌, List, ℕ}
use jungle_gaming_challenge.Base.Text.{Text, codes}
use jungle_gaming_challenge.Base.Int.{pos}
use jungle_gaming_challenge.Domain.Wager.{WagerTransaction, bet, pending}
use jungle_gaming_challenge.Domain.Wallet.{Wallet}
use jungle_gaming_challenge.Store.{
  Session, Db, TransactionRow, WalletRow, LedgerRow, credit_entry, debit_entry,
}
use jungle_gaming_challenge.Usecase.OpenWallet.{open_wallet}
use jungle_gaming_challenge.Usecase.Wager.{InputTransaction}
use jungle_gaming_challenge.Tests.World.{steady, no_rows, session, config, opening_input, request}

abbrev pub opened : Session
opened = (open_wallet config opening_input steady (session no_rows)).1

abbrev pub bet_request : InputTransaction
bet_request = request (codes "1") (codes "BET") (codes "30.50") []

-- the bet as it is made, with a hash of its payload
abbrev pub bet_made : Text → ℕ → WagerTransaction
bet_made hash now = record {
  id = codes "tx_p_1";
  provider_id = codes "p";
  external_transaction_id = codes "1";
  idempotency_key = codes "k1";
  payload_hash = hash;
  wallet_id = codes "wal_ana_brl";
  player_id = codes "ana";
  round_id = codes "r";
  game_id = codes "g";
  kind = bet;
  money = record { amount = pos 3050; currency = codes "BRL" };
  reference_external_id = [];
  status = pending;
  failure_code = [];
  idempotent_replay = false;
  created_at = now;
  updated_at = now;
}

abbrev pub ana_row : WalletRow
ana_row = record {
  id = codes "wal_ana_brl";
  player_id = codes "ana";
  currency = codes "BRL";
  amount = pos 6950;
  version = pos 2;
  created_at = 7;
  updated_at = 9;
}

abbrev pub ana : Wallet
ana = record {
  id = codes "wal_ana_brl";
  player_id = codes "ana";
  balance = record { amount = pos 6950; currency = codes "BRL" };
  version = pos 2;
  created_at = 7;
  updated_at = 9;
}

abbrev pub ana_ledger : List LedgerRow
ana_ledger =
    record {
      id = codes "led_tx_p_1";
      wallet_id = codes "wal_ana_brl";
      transaction_id = codes "tx_p_1";
      direction = debit_entry;
      amount = pos 3050;
      balance_before = pos 10000;
      balance_after = pos 6950;
      created_at = 9;
    }
    ∷ record {
      id = codes "led_tx_opening_wal_ana_brl";
      wallet_id = codes "wal_ana_brl";
      transaction_id = codes "tx_opening_wal_ana_brl";
      direction = credit_entry;
      amount = pos 10000;
      balance_before = pos 0;
      balance_after = pos 10000;
      created_at = 7;
    }
    ∷ []

-- the database after the story, with the transaction of the bet alone
abbrev pub stored : TransactionRow → Db
stored r = record no_rows { wallets = ana_row ∷ []; transactions = r ∷ []; ledger = ana_ledger }
