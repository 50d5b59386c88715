-- ===== src/Store/Then.antt =====
-- Where a program goes on from what a query has found, and from whether a call of SQS has failed.
use jungle_gaming_challenge.Base.{ℕ, ◌≡◌, refl, sym, subst, Bool, true, false}
use jungle_gaming_challenge.Errors.{Result, ok, err, queue_fault}
use jungle_gaming_challenge.Store.{
  Db, Outside, Env, Session, Tx, ◌>>=◌, attempt, time_now, done, statement, queue_call,
}
use jungle_gaming_challenge.Store.Always.{World, At, Always}
use jungle_gaming_challenge.Store.Rules.{Quiet, Yields}

abbrev SameWorld : Session → Session → Type 0
SameWorld s u = (u.db ≡ s.db) × (u.outside ≡ s.outside)

carry : (P : World) (s u : Session) → SameWorld s u → At P s → At P u
carry P s u (d, o) h = subst (P u.db) (sym o) (subst (λ d. P d s.outside) (sym d) h)

module _ {A : Type 0} (g : Db → A) where
  abbrev Found : Session → Result A × Session → Type 0
  Found s (ok a, u) = (a ≡ g s.db) × SameWorld s u
  Found s (err e, u) = SameWorld s u

  query-Found : (env : Env) (s : Session) → Found s (statement (λ db. done (g db) db) env s)
  unfolding statement
  query-Found env s = asked s.is_aborted (env.fails s.exchanges) refl refl
    where
      asked :
          (b c : Bool)
          → s.is_aborted ≡ b
          → env.fails s.exchanges ≡ c
          → Found s (statement (λ db. done (g db) db) env s)
      asked true c hb hc = rw hb (refl, refl)
      asked false true hb hc = rw (hb, hc) (refl, refl)
      asked false false hb hc = rw (hb, hc) (refl, (refl, refl))

module _ {B : Type 0} {P : World} where
  pub query_then-Always :
      {A : Type 0} (Q : A → World) (g : Db → A) (k : A → Tx B)
      → ((db : Db) (o : Outside) → P db o → Q (g db) db o)
      → ((a : A) → Always (Q a) (k a))
      → ((a : A) (db : Db) (o : Outside) → Q a db o → P db o)
      → Always P (statement (λ db. done (g db) db) >>= k)
  query_then-Always {A} Q g k found next back = record {
    runs = λ env s h. after env s (statement (λ db. done (g db) db) env s) (query-Found g env s) h;
  }
    where
      after :
          (env : Env) (s : Session) (p : Result A × Session)
          → Found g s p
          → At P s
          → At P (◌>>=◌ (λ _ _. p) k env s).1
      after env s (ok a, u) (value, same) h =
          let given = subst (λ a. Q a s.db s.outside) (sym value) (found s.db s.outside h) in
          back a _ _ ((next a).runs env u (carry (Q a) s u same given))
      after env s (err e, u) same h = carry P s u same h

-- Where a program goes on from a result that leaves the money alone and has `R`.
module _ {A B : Type 0} {P : World} {R : A → Type 0} where
  yielded :
      (f : A → Tx B)
      → ((a : A) → R a → Always P (f a))
      → (env : Env) (s : Session) (p : Result A × Session) → Yields R p.0
      → At P p.1
      → At P (◌>>=◌ (λ _ _. p) f env s).1
  yielded f k env s (ok a, u) y h = (k a y).runs env u h
  yielded f k env s (err e, u) y h = h

  pub yields_then-Always :
      {m : Tx A} {f : A → Tx B}
      → Quiet R m
      → Always P m
      → ((a : A) → R a → Always P (f a))
      → Always P (m >>= f)
  yields_then-Always {m} {f} quiet q k = record {
    runs = λ env s h. yielded f k env s (m env s) (quiet.runs env s).1 (q.runs env s h);
  }

-- `time.Now()` at the start of the first of two parts
pub time_now_then-Always :
    {A B : Type 0} {P : World} (f : ℕ → Tx A) (k : A → Tx B)
    → ((now : ℕ) → Always P (f now >>= k))
    → Always P ((time_now >>= f) >>= k)
unfolding time_now
time_now_then-Always f k next = record {
  runs = λ env s h. (next (env.clock s.readings)).runs env _ h;
}

abbrev pub Asked : (Outside → Outside) → Session → Result (Unit {0}) × Session → Type 0
Asked f s (ok a, u) = (u.db ≡ s.db) × (u.outside ≡ f s.outside)
Asked f s (err e, u) = (e ≡ queue_fault) × SameWorld s u

pub queue_call-Asked :
    (f : Outside → Outside) (env : Env) (s : Session) → Asked f s (queue_call f env s)
unfolding queue_call
queue_call-Asked f env s = asked (env.fails s.exchanges) refl
  where
    asked : (b : Bool) → env.fails s.exchanges ≡ b → Asked f s (queue_call f env s)
    asked true e = rw e (refl, (refl, refl))
    asked false e = rw e (refl, refl)

module _ {B : Type 0} {P : World} where
  pub queue_then-Always :
      (Q : World) (f : Outside → Outside) (k : Result (Unit {0}) → Tx B)
      → ((db : Db) (o : Outside) → P db o → Q db (f o))
      → Always Q (k (ok tt))
      → ((db : Db) (o : Outside) → Q db o → P db o)
      → Always P (k (err queue_fault))
      → Always P (attempt (queue_call f) >>= k)
  queue_then-Always Q f k taken next back failed = record {
    runs = λ env s h. after env s (queue_call f env s) (queue_call-Asked f env s) h;
  }
    where
      after :
          (env : Env) (s : Session) (p : Result (Unit {0}) × Session)
          → Asked f s p
          → At P s
          → At P (◌>>=◌ (attempt (λ _ _. p)) k env s).1
      after env s (ok a, u) (d, o) h =
          let given =
            subst (Q u.db) (sym o)
              (subst (λ d. Q d (f s.outside)) (sym d) (taken s.db s.outside h)) in
          back _ _ (next.runs env u given)
      after env s (err e, u) (fault, same) h =
          subst (λ e. At P (k (err e) env u).1) (sym fault) (failed.runs env u (carry P s u same h))
