-- ===== src/Store/Always.antt =====
-- Properties of the database, and of what lies outside of it, that a program keeps whether it succeeds
-- or fails: one rule for each way to build a program.
use jungle_gaming_challenge.Base.{
  ◌≡◌, refl, subst, Bool, true, false, if◌then◌else◌, Bool-cases, inl, inr,
}
use jungle_gaming_challenge.Errors.{Result, ok, err, Error}
use jungle_gaming_challenge.Store.{
  Db, Outside, Counters, Env, Session, Tx, ◌>>=◌, lift, pure, raise, attempt, map_error, time_now,
  Answer, done, refused, statement, pool_query, queue_call, tally, execute_in_transaction, finish,
}
use jungle_gaming_challenge.Store.Reads.{begun}

abbrev pub World : Type 1
World = Db → Outside → Type 0

abbrev pub At : World → Session → Type 0
At P s = P s.db s.outside

-- From a session with `P`, `m` ends in one with `P`.
pub record Always {A : Type 0} (P : World) (m : Tx A) : Type 0 where
  pub runs : (env : Env) (s : Session) → P s.db s.outside → P (m env s).1.db (m env s).1.outside

module _ {A : Type 0} {P : World} where
  pub lift-Always : (r : Result A) → Always P (lift r)
  lift-Always r = record { runs = λ env s h. h }

  pub pure-Always : (a : A) → Always P (pure a)
  pure-Always a = record { runs = λ env s h. h }

  pub raise-Always : (e : Error) → Always P (raise {A = A} e)
  raise-Always e = record { runs = λ env s h. h }

  pub attempt-Always : {m : Tx A} → Always P m → Always P (attempt m)
  attempt-Always q = record { runs = λ env s h. q.runs env s h }

  pub map_error-Always : {m : Tx A} (f : Error → Error) → Always P m → Always P (map_error f m)
  map_error-Always f q = record { runs = λ env s h. q.runs env s h }

  pub if-Always : {m n : Tx A} (b : Bool) → Always P m → Always P n → Always P (if b then m else n)
  if-Always true q r = q
  if-Always false q r = r

pub time_now-Always : {P : World} → Always P time_now
unfolding time_now
time_now-Always = record { runs = λ env s h. h }

module _ {A B : Type 0} {P : World} where
  bind_step :
      (f : A → Tx B)
      → ((a : A) → Always P (f a))
      → (env : Env) (s : Session) (p : Result A × Session) → At P p.1
      → At P (◌>>=◌ (λ _ _. p) f env s).1
  bind_step f k env s (ok a, u) h = (k a).runs env u h
  bind_step f k env s (err e, u) h = h

  pub bind-Always :
      {m : Tx A} {f : A → Tx B} → Always P m → ((a : A) → Always P (f a)) → Always P (m >>= f)
  bind-Always {m} {f} q k = record {
    runs = λ env s h. bind_step f k env s (m env s) (q.runs env s h);
  }

module _ {A : Type 0} {P : World} where
  module _ (f : Db → Answer A)
      (keep : (db db' : Db) (o : Outside) (v : A) → f db ≡ done v db' → P db o → P db' o) where
    statement_step :
        (env : Env) (s : Session) (b c : Bool) (a : Answer A)
        → s.is_aborted ≡ b
        → env.fails s.exchanges ≡ c
        → f s.db ≡ a
        → At P s
        → At P (statement f env s).1
    unfolding statement
    statement_step env s true c a hb hc ha h = rw hb h
    statement_step env s false true a hb hc ha h = rw (hb, hc) h
    statement_step env s false false (done v db) hb hc ha h =
        rw (hb, hc, ha) (keep s.db db s.outside v ha h)
    statement_step env s false false (refused e) hb hc ha h = rw (hb, hc, ha) h

    -- A statement keeps what its effect on the tables keeps.
    pub statement-Always : Always P (statement f)
    statement-Always = record {
      runs = λ env s h.
          statement_step env s s.is_aborted (env.fails s.exchanges) (f s.db) refl refl refl h;
    }

  -- A statement that only reads keeps everything.
  pub query-Always : (g : Db → A) → Always P (statement (λ db. done (g db) db))
  query-Always g =
      statement-Always (λ db. done (g db) db) (λ db db' o v e h. subst (λ d. P d o) (same e) h)
    where
      same : {v w : A} {db db' : Db} → ◌≡◌ {A = Answer A} (done v db) (done w db') → db ≡ db'
      same e = cc e

  -- A query of the pool touches nothing.
  pub pool_query-Always : (g : Db → A) → Always P (pool_query g)
  unfolding pool_query
  pool_query-Always g = record { runs = λ env s h. asked env s (env.fails s.exchanges) refl h }
    where
      asked :
          (env : Env) (s : Session) (b : Bool)
          → env.fails s.exchanges ≡ b
          → At P s
          → At P (pool_query g env s).1
      asked env s true e h = rw e h
      asked env s false e h = rw e h

-- A call of SQS that fails changes nothing.
pub queue_call-Always :
    {P : World} (f : Outside → Outside)
    → ((db : Db) (o : Outside) → P db o → P db (f o))
    → Always P (queue_call f)
unfolding queue_call
queue_call-Always {P} f keep = record {
  runs = λ env s h. asked env s (env.fails s.exchanges) refl h;
}
  where
    asked :
        (env : Env) (s : Session) (b : Bool)
        → env.fails s.exchanges ≡ b
        → At P s
        → At P (queue_call f env s).1
    asked env s true e h = rw e h
    asked env s false e h = rw e (keep s.db s.outside h)

pub tally-Always :
    {P : World} (f : Counters → Counters)
    → ((db : Db) (o : Outside) → P db o → P db (record o { counters = f o.counters }))
    → Always P (tally f)
unfolding tally
tally-Always f keep = record { runs = λ env s h. keep s.db s.outside h }

module _ {A : Type 0} (P : World) where
  -- What the body keeps beside the tables as they were before it, the transaction manager keeps: it
  -- leaves the one or the other.
  finish_step :
      (before : Db) (env : Env) (p : Result A × Session) (b c : Bool)
      → p.1.is_aborted ≡ b
      → env.fails p.1.exchanges ≡ c
      → At P p.1
      → P before p.1.outside
      → At P (finish before env p).1
  finish_step before env (ok a, u) true c hb hc h k = rw hb k
  finish_step before env (ok a, u) false true hb hc h k =
      elim (Bool-cases (env.reaches u.exchanges)) [
        | inl r ↦ rw (hb, hc, r) h
        | inr r ↦ rw (hb, hc, r) k
      ]
  finish_step before env (ok a, u) false false hb hc h k = rw (hb, hc) h
  finish_step before env (err e, u) b c hb hc h k = k

pub execute-Always :
    {A : Type 0} {P : World} (fn : Tx A)
    → ((before : Db) → Always (λ db o. P db o × P before o) fn)
    → Always P (execute_in_transaction fn)
unfolding execute_in_transaction
execute-Always {P} fn body = record {
  runs = λ env s h. started env s (env.fails s.exchanges) refl h;
}
  where
    started :
        (env : Env) (s : Session) (b : Bool)
        → env.fails s.exchanges ≡ b
        → At P s
        → At P (execute_in_transaction fn env s).1
    started env s true e h = rw e h
    started env s false e h =
        let kept = (body s.db).runs env (begun s) (h, h) in
        rw e (finish_step P s.db env (fn env (begun s)) _ _ refl refl kept.0 kept.1)
