-- ===== src/Store/Invariant.antt =====
-- Programs that keep an invariant of the wallets and the ledger whenever they succeed, alone
-- and under the transaction manager.
use jungle_gaming_challenge.Base.{
  ◌≡◌, refl, sym, subst, Bool, true, false, List, Bool-cases, inl, inr,
}
use jungle_gaming_challenge.Errors.{Result, ok, err}
use jungle_gaming_challenge.Store.{
  WalletRow, LedgerRow, Env, Session, Tx, ◌>>=◌, Db, execute_in_transaction, finish,
}
use jungle_gaming_challenge.Store.Rules.{Quiet, SameMoney, Yields}

abbrev pub Money2 : Type 1
Money2 = List WalletRow → List LedgerRow → Type 0

abbrev pub Holds : Money2 → Session → Type 0
Holds P s = P s.db.wallets s.db.ledger

Holds-of_SameMoney : (P : Money2) (s u : Session) → SameMoney s u → Holds P s → Holds P u
Holds-of_SameMoney P s u h k =
    subst (λ l. P u.db.wallets l) (sym h.1) (subst (λ w. P w s.db.ledger) (sym h.0) k)

abbrev pub Good : {A : Type 0} → Money2 → Result A × Session → Type 0
Good I (ok a, u) = Holds I u
Good I (err e, u) = Unit

-- From `P`, `m` either fails or ends in `I`.
pub record Safe {A : Type 0} (I P : Money2) (m : Tx A) : Type 0 where
  pub runs : (env : Env) (s : Session) → Holds P s → Good I (m env s)

module _ {A : Type 0} {I P : Money2} where
  quiet_at :
      (P→I : (ws : List WalletRow) (ls : List LedgerRow) → P ws ls → I ws ls)
      → (s : Session) (p : Result A × Session) → SameMoney s p.1
      → Holds P s
      → Good I p
  quiet_at P→I s (ok a, u) h k = P→I _ _ (Holds-of_SameMoney P s u h k)
  quiet_at P→I s (err e, u) h k = tt

  pub Quiet-Safe :
      {R : A → Type 0} {m : Tx A}
      → Quiet R m
      → ((ws : List WalletRow) (ls : List LedgerRow) → P ws ls → I ws ls)
      → Safe I P m
  Quiet-Safe {m = m} q P→I = record {
    runs = λ env s k. quiet_at P→I s (m env s) (q.runs env s).0 k;
  }

module _ {A B : Type 0} where
  then_at :
      (I : Money2) (R : B → Type 0) (f : A → Tx B)
      → ((a : A) → Quiet R (f a))
      → (env : Env) (s : Session) (p : Result A × Session) → Good I p
      → Good I (◌>>=◌ (λ e u. p) f env s)
  then_at I R f next env s (ok a, u) g = done (f a env u) ((next a).runs env u).0
    where
      done : (q : Result B × Session) → SameMoney u q.1 → Good I q
      done (ok b, v) h = Holds-of_SameMoney I u v h g
      done (err e, v) h = tt
  then_at I R f next env s (err e, u) g = tt

  seq_at :
      (I Mid : Money2) (f : A → Tx B)
      → ((a : A) → Safe I Mid (f a))
      → (env : Env) (s : Session) (p : Result A × Session) → Good Mid p
      → Good I (◌>>=◌ (λ e u. p) f env s)
  seq_at I Mid f next env s (ok a, u) g = (next a).runs env u g
  seq_at I Mid f next env s (err e, u) g = tt

  pub seq-Safe :
      {I Mid P : Money2} {m : Tx A} {f : A → Tx B}
      → Safe Mid P m
      → ((a : A) → Safe I Mid (f a))
      → Safe I P (m >>= f)
  seq-Safe {I} {Mid} {m = m} {f} q next = record {
    runs = λ env s k. seq_at I Mid f next env s (m env s) (q.runs env s k);
  }

module _ {A B : Type 0} {I P : Money2} where
  bind_at :
      (R : A → Type 0) (f : A → Tx B)
      → ((a : A) → R a → Safe I P (f a))
      → (env : Env) (s : Session) (p : Result A × Session) → SameMoney s p.1
      → Yields R p.0
      → Holds P s
      → Good I (◌>>=◌ (λ e u. p) f env s)
  bind_at R f next env s (ok a, u) h y k = (next a y).runs env u (Holds-of_SameMoney P s u h k)
  bind_at R f next env s (err e, u) h y k = tt

  pub bind-Safe :
      {R : A → Type 0} {m : Tx A} {f : A → Tx B}
      → Quiet R m
      → ((a : A) → R a → Safe I P (f a))
      → Safe I P (m >>= f)
  bind-Safe {R} {m} {f} q next = record {
    runs = λ env s k. bind_at R f next env s (m env s) (q.runs env s).0 (q.runs env s).1 k;
  }

  pub then-Safe :
      {R : B → Type 0} {m : Tx A} {f : A → Tx B}
      → Safe I P m
      → ((a : A) → Quiet R (f a))
      → Safe I P (m >>= f)
  then-Safe {R} {m} {f} q next = record {
    runs = λ env s k. then_at I R f next env s (m env s) (q.runs env s k);
  }

module _ {A : Type 0} where
  committed_at :
      (I : Money2) (env : Env) (before : Db) (p : Result A × Session) (c : Bool) (b : Bool)
      → p.1.is_aborted ≡ b
      → env.fails p.1.exchanges ≡ c
      → I before.wallets before.ledger
      → Good I p
      → Holds I (finish before env p).1
  committed_at I env before (ok a, u) c true hb hc k g = rw hb k
  committed_at I env before (ok a, u) true false hb hc k g =
      elim (Bool-cases (env.reaches u.exchanges)) [
        | inl r ↦ rw (hb, hc, r) g
        | inr r ↦ rw (hb, hc, r) k
      ]
  committed_at I env before (ok a, u) false false hb hc k g = rw (hb, hc) g
  committed_at I env before (err e, u) c b hb hc k g = k

  -- A body that keeps the invariant when it succeeds keeps it under the transaction manager, whatever
  -- fails: BEGIN, a statement, the body or COMMIT.
  pub execute_in_transaction-keeps :
      (I P : Money2) (body : Tx A) (env : Env) (s : Session)
      → Safe I P body
      → Holds I s
      → Holds P s
      → Holds I (execute_in_transaction body env s).1
  unfolding execute_in_transaction
  execute_in_transaction-keeps I P body env s safe before k = begun (env.fails s.exchanges) refl
    where
      begun : (b : Bool) → env.fails s.exchanges ≡ b → Holds I (execute_in_transaction body env s).1
      begun true e = rw e before
      begun false e =
          rw e (committed_at I env s.db (body env _) _ _ refl refl before (safe.runs env _ k))

-- `m` keeps the invariant whether it succeeds or fails.
pub record Keeps {A : Type 0} (I : Money2) (m : Tx A) : Type 0 where
  pub runs : (env : Env) (s : Session) → Holds I s → Holds I (m env s).1

pub Quiet-Keeps : {A : Type 0} {I : Money2} {R : A → Type 0} {m : Tx A} → Quiet R m → Keeps I m
Quiet-Keeps {I = I} {m = m} q = record {
  runs = λ env s k. Holds-of_SameMoney I s (m env s).1 (q.runs env s).0 k;
}

pub transaction-Keeps :
    {A : Type 0} {I : Money2} {m : Tx A} → Safe I I m → Keeps I (execute_in_transaction m)
transaction-Keeps {I = I} {m} safe = record {
  runs = λ env s k. execute_in_transaction-keeps I I m env s safe k k;
}

module _ {A B : Type 0} where
  keep_at :
      (I : Money2) (f : A → Tx B)
      → ((a : A) → Keeps I (f a))
      → (env : Env) (s : Session) (p : Result A × Session) → Holds I p.1
      → Holds I (◌>>=◌ (λ e u. p) f env s).1
  keep_at I f next env s (ok a, u) k = (next a).runs env u k
  keep_at I f next env s (err e, u) k = k

  pub bind-Keeps :
      {I : Money2} {m : Tx A} {f : A → Tx B}
      → Keeps I m
      → ((a : A) → Keeps I (f a))
      → Keeps I (m >>= f)
  bind-Keeps {I} {m} {f} q next = record {
    runs = λ env s k. keep_at I f next env s (m env s) (q.runs env s k);
  }
