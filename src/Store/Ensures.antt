-- ===== src/Store/Ensures.antt =====
-- What the database satisfies when a program has succeeded.
use jungle_gaming_challenge.Base.{◌≡◌, refl, Bool, true, false}
use jungle_gaming_challenge.Errors.{Result, ok, err}
use jungle_gaming_challenge.Store.{Db, Env, Session, Tx, ◌>>=◌, execute_in_transaction, finish}
use jungle_gaming_challenge.Store.Always.{Always}
use jungle_gaming_challenge.Store.Reads.{begun}

abbrev pub WhenOk : {A : Type 0} → (Db → Type 0) → Result A × Session → Type 0
WhenOk Q (ok a, u) = Q u.db
WhenOk Q (err e, u) = Unit

pub record Ensures {A : Type 0} (Q : Db → Type 0) (m : Tx A) : Type 0 where
  pub runs : (env : Env) (s : Session) → WhenOk Q (m env s)

-- What holds before a program that keeps it holds when it has succeeded.
pub WhenOk-of_Always :
    {A : Type 0} {Q : Db → Type 0} (m : Tx A)
    → Always (λ db o. Q db) m
    → (env : Env) (s : Session) → Q s.db
    → WhenOk Q (m env s)
WhenOk-of_Always {A} {Q} m q env s h = at (m env s) (q.runs env s h)
  where
    at : (p : Result A × Session) → Q p.1.db → WhenOk Q p
    at (ok a, u) h = h
    at (err e, u) h = tt

module _ {A B : Type 0} {Q : Db → Type 0} where
  last_at :
      (f : A → Tx B)
      → ((a : A) → Ensures Q (f a))
      → (env : Env) (s : Session) (p : Result A × Session) → WhenOk Q (◌>>=◌ (λ _ _. p) f env s)
  last_at f k env s (ok a, u) = (k a).runs env u
  last_at f k env s (err e, u) = tt

  -- the second part establishes it
  pub last-Ensures : (m : Tx A) {f : A → Tx B} → ((a : A) → Ensures Q (f a)) → Ensures Q (m >>= f)
  last-Ensures m {f} k = record { runs = λ env s. last_at f k env s (m env s) }

  kept_at :
      (f : A → Tx B)
      → ((a : A) → Always (λ db o. Q db) (f a))
      → (env : Env) (s : Session) (p : Result A × Session) → WhenOk Q p
      → WhenOk Q (◌>>=◌ (λ _ _. p) f env s)
  kept_at f k env s (ok a, u) h = WhenOk-of_Always (f a) (k a) env u h
  kept_at f k env s (err e, u) h = tt

  -- the first part establishes it
  pub first-Ensures :
      {m : Tx A} {f : A → Tx B}
      → Ensures Q m
      → ((a : A) → Always (λ db o. Q db) (f a))
      → Ensures Q (m >>= f)
  first-Ensures {m} {f} q k = record { runs = λ env s. kept_at f k env s (m env s) (q.runs env s) }

module _ {A : Type 0} (Q : Db → Type 0) where
  committed_at :
      (before : Db) (env : Env) (p : Result A × Session) (b c : Bool)
      → p.1.is_aborted ≡ b
      → env.fails p.1.exchanges ≡ c
      → WhenOk Q p
      → WhenOk Q (finish before env p)
  committed_at before env (ok a, u) true c hb hc h = rw hb tt
  committed_at before env (ok a, u) false true hb hc h = rw (hb, hc) tt
  committed_at before env (ok a, u) false false hb hc h = rw (hb, hc) h
  committed_at before env (err e, u) b c hb hc h = tt

module _ {A : Type 0} {Q : Db → Type 0} where
  -- What the body has established is committed.
  pub execute-Ensures : {fn : Tx A} → Ensures Q fn → Ensures Q (execute_in_transaction fn)
  unfolding execute_in_transaction
  execute-Ensures {fn} q = record { runs = λ env s. started env s (env.fails s.exchanges) refl }
    where
      started :
          (env : Env) (s : Session) (b : Bool)
          → env.fails s.exchanges ≡ b
          → WhenOk Q (execute_in_transaction fn env s)
      started env s true e = rw e tt
      started env s false e =
          rw e (committed_at Q s.db env (fn env (begun s)) _ _ refl refl (q.runs env (begun s)))
