-- ===== src/Store/Reads.antt =====
-- Programs that leave the database alone, and BEGIN.
use jungle_gaming_challenge.Base.{◌≡◌, refl, ◌∙◌, Bool, true, false, inl, inr, suc, Bool-cases}
use jungle_gaming_challenge.Errors.{Result, ok, err}
use jungle_gaming_challenge.Store.{
  Env, Session, Tx, ◌>>=◌, lift, time_now, execute_in_transaction, finish,
}

-- `m` leaves the database alone.
pub record Reads {A : Type 0} (m : Tx A) : Type 0 where
  pub runs : (env : Env) (s : Session) → (m env s).1.db ≡ s.db

pub lift-Reads : {A : Type 0} (r : Result A) → Reads (lift r)
lift-Reads r = record { runs = λ env s. refl }

pub time_now-Reads : Reads time_now
unfolding time_now
time_now-Reads = record { runs = λ env s. refl }

module _ {A B : Type 0} (f : A → Tx B) where
  bind-Reads_at :
      ((a : A) → Reads (f a))
      → (env : Env) (s : Session) (p : Result A × Session) → p.1.db ≡ s.db
      → (◌>>=◌ (λ _ _. p) f env s).1.db ≡ s.db
  bind-Reads_at k env s (ok a, u) h = (k a).runs env u ∙ h
  bind-Reads_at k env s (err e, u) h = h

module _ {A B : Type 0} (m : Tx A) (f : A → Tx B) where
  pub bind-Reads : Reads m → ((a : A) → Reads (f a)) → Reads (m >>= f)
  bind-Reads q k = record { runs = λ env s. bind-Reads_at f k env s (m env s) (q.runs env s) }

-- BEGIN, as the function sees it
abbrev pub begun : Session → Session
begun s = record s { is_aborted = false; exchanges = suc s.exchanges }

module _ {A : Type 0} where
  finished :
      (env : Env) (s : Session) (p : Result A × Session) (b c : Bool)
      → p.1.is_aborted ≡ b
      → env.fails p.1.exchanges ≡ c
      → p.1.db ≡ s.db
      → (finish s.db env p).1.db ≡ s.db
  finished env s (ok a, u) true c hb hc same = rw hb refl
  finished env s (ok a, u) false true hb hc same = elim (Bool-cases (env.reaches u.exchanges)) [
    | inl r ↦ rw (hb, hc, r) same
    | inr r ↦ rw (hb, hc, r) refl
  ]
  finished env s (ok a, u) false false hb hc same = rw (hb, hc) same
  finished env s (err e, u) b c hb hc same = refl

  -- A transaction that writes nothing leaves the database alone, however it ends.
  pub transaction_same :
      (fn : Tx A) (env : Env) (s : Session)
      → (fn env (begun s)).1.db ≡ s.db
      → (execute_in_transaction fn env s).1.db ≡ s.db
  unfolding execute_in_transaction
  transaction_same fn env s same = started (env.fails s.exchanges) refl
    where
      started :
          (b : Bool) → env.fails s.exchanges ≡ b → (execute_in_transaction fn env s).1.db ≡ s.db
      started true e = rw e refl
      started false e = rw e (finished env s (fn env (begun s)) _ _ refl refl same)
