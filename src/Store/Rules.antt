-- ===== src/Store/Rules.antt =====
-- Rules for programs over a session: what leaves the wallets and the ledger alone, and what keeps an
-- invariant of the two tables when it succeeds.
use jungle_gaming_challenge.Base.{◌≡◌, refl, ap, subst, ◌∙◌, Bool, true, false, if◌then◌else◌}
use jungle_gaming_challenge.Errors.{Result, ok, err, Error}
use jungle_gaming_challenge.Store.{
  Db, Env, Session, Tx, ◌>>=◌, lift, pure, raise, attempt, map_error, time_now, Answer, done,
  refused, statement,
}

abbrev pub Yields : {A : Type 0} → (A → Type 0) → Result A → Type 0
Yields R (ok a) = R a
Yields R (err e) = Unit

abbrev pub Any : {A : Type 0} → A → Type 0
Any a = Unit

-- Two sessions see the same wallets and the same ledger.
abbrev pub SameMoney : Session → Session → Type 0
SameMoney s u = (u.db.wallets ≡ s.db.wallets) × (u.db.ledger ≡ s.db.ledger)

-- `m` changes neither wallets nor ledger, also where it fails, and a result of it has `R`.
pub record Quiet {A : Type 0} (R : A → Type 0) (m : Tx A) : Type 0 where
  pub runs : (env : Env) (s : Session) → SameMoney s (m env s).1 × Yields R (m env s).0

module _ {A B : Type 0} where
  bind_at :
      (R : A → Type 0) (Q : B → Type 0) (f : A → Tx B)
      → ((a : A) → R a → Quiet Q (f a))
      → (env : Env) (s : Session) (p : Result A × Session) → SameMoney s p.1
      → Yields R p.0
      → let q = ◌>>=◌ (λ e u. p) f env s in SameMoney s q.1 × Yields Q q.0
  bind_at R Q f k env s (ok a, u) h y =
      let (same, yields) = (k a y).runs env u in ((same.0 ∙ h.0, same.1 ∙ h.1), yields)
  bind_at R Q f k env s (err e, u) h y = (h, tt)

  pub bind-Quiet :
      {R : A → Type 0} {Q : B → Type 0} {m : Tx A} {f : A → Tx B}
      → Quiet R m
      → ((a : A) → R a → Quiet Q (f a))
      → Quiet Q (m >>= f)
  bind-Quiet {R} {Q} {m} {f} q k = record {
    runs = λ env s. bind_at R Q f k env s (m env s) (q.runs env s).0 (q.runs env s).1;
  }

module _ {A : Type 0} where
  pub lift-Quiet : {R : A → Type 0} (r : Result A) → Yields R r → Quiet R (lift r)
  lift-Quiet r h = record { runs = λ env s. ((refl, refl), h) }

  pub pure-Quiet : {R : A → Type 0} (a : A) → R a → Quiet R (pure a)
  pure-Quiet a h = record { runs = λ env s. ((refl, refl), h) }

  pub raise-Quiet : {R : A → Type 0} (e : Error) → Quiet R (raise e)
  raise-Quiet e = record { runs = λ env s. ((refl, refl), tt) }

  pub attempt-Quiet : {R : A → Type 0} {m : Tx A} → Quiet R m → Quiet (Yields R) (attempt m)
  attempt-Quiet {m = m} q = record { runs = λ env s. q.runs env s }

  Yields-map :
      (f : Error → Error) (R : A → Type 0) (r : Result A)
      → Yields R r
      → Yields R (elim r as (λ x. Result A) [ ok a ↦ ok a | err e ↦ err (f e) ])
  Yields-map f R (ok a) h = h
  Yields-map f R (err e) h = tt

  pub map_error-Quiet :
      {R : A → Type 0} {m : Tx A} (f : Error → Error) → Quiet R m → Quiet R (map_error f m)
  map_error-Quiet {R} {m = m} f q = record {
    runs = λ env s. ((q.runs env s).0, Yields-map f R (m env s).0 (q.runs env s).1);
  }

  pub if-Quiet :
      {R : A → Type 0} {m n : Tx A} (b : Bool)
      → Quiet R m
      → Quiet R n
      → Quiet R (if b then m else n)
  if-Quiet true q r = q
  if-Quiet false q r = r

pub time_now-Quiet : Quiet Any time_now
unfolding time_now
time_now-Quiet = record { runs = λ env s. ((refl, refl), tt) }

module _ {A : Type 0} (f : Db → Answer A) (env : Env) (s : Session)
    (P : Result A × Session → Type 0) where
  statement_at :
      (b c : Bool) (a : Answer A)
      → s.is_aborted ≡ b
      → env.fails s.exchanges ≡ c
      → f s.db ≡ a
      → ((e : Error) (u : Session) → u.db ≡ s.db → P (err e, u))
      → ((v : A) (u : Session) → f s.db ≡ done v u.db → P (ok v, u))
      → P (statement f env s)
  unfolding statement
  statement_at true c a hb hc ha bad good = rw hb (bad _ _ refl)
  statement_at false true a hb hc ha bad good = rw (hb, hc) (bad _ _ refl)
  statement_at false false (done v db) hb hc ha bad good = rw (hb, hc, ha) (good v _ ha)
  statement_at false false (refused e) hb hc ha bad good = rw (hb, hc, ha) (bad _ _ refl)

  -- A statement fails and leaves the tables alone, or does what it says.
  pub statement_cases :
      ((e : Error) (u : Session) → u.db ≡ s.db → P (err e, u))
      → ((v : A) (u : Session) → f s.db ≡ done v u.db → P (ok v, u))
      → P (statement f env s)
  statement_cases = statement_at s.is_aborted (env.fails s.exchanges) (f s.db) refl refl refl

abbrev pub SparesAt : {A : Type 0} → (A → Type 0) → Db → Answer A → Type 0
SparesAt R db (done a db') = (db'.wallets ≡ db.wallets) × (db'.ledger ≡ db.ledger) × R a
SparesAt R db (refused e) = Unit

-- A statement that writes to other tables, or to none.
pub statement-Quiet :
    {A : Type 0} {R : A → Type 0} (f : Db → Answer A)
    → ((db : Db) → SparesAt R db (f db))
    → Quiet R (statement f)
statement-Quiet {A} {R} f h = record {
  runs = λ env s.
      statement_cases f env s (λ q. SameMoney s q.1 × Yields R q.0)
        (λ e u same. ((ap (λ db. db.wallets) same, ap (λ db. db.ledger) same), tt))
        (λ v u e. let k = subst (SparesAt R s.db) e (h s.db) in ((k.0, k.1), k.2));
}
