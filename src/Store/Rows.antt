-- ===== src/Store/Rows.antt =====
-- Rows that an UPDATE rewrites, and the ids of the outbox.
use jungle_gaming_challenge.Base.{
  ℕ, ◌≡◌, refl, ◌∙◌, arith, Bool, true, false, List, [], ◌∷◌, inl, inr, All, Bool-cases,
}
use jungle_gaming_challenge.Base.Text.{Text, text_eq}
use jungle_gaming_challenge.Base.Int.{ℤ}
use jungle_gaming_challenge.Store.{OutboxRow, Db, done}
use jungle_gaming_challenge.Store.Insert.{any}
use jungle_gaming_challenge.Store.Update.{update_where, mark_retry, retried_row}

-- no two events have one id
abbrev pub UniqueIds : List OutboxRow → Type 0
UniqueIds [] = Unit
UniqueIds (e ∷ es) = (any (λ r. text_eq r.id e.id) es ≡ false) × UniqueIds es

module _ {A : Type 0} where
  pub any-false : (p : A → Bool) (xs : List A) → any p xs ≡ false → All (λ x. p x ≡ false) xs
  any-false p [] h = tt
  any-false p (x ∷ xs) h = elim (Bool-cases (p x)) [
    | inl e ↦ absurd (ground arith)
    | inr e ↦ (e, any-false p xs (ground arith))
  ]

  pub any-update_where :
      (p q : A → Bool) (f : A → A) (xs : List A)
      → ((x : A) → q (f x) ≡ q x)
      → any q (update_where p f xs) ≡ any q xs
  any-update_where p q f [] h = refl
  any-update_where p q f (x ∷ xs) h = elim (Bool-cases (p x)) [
    | inl e ↦ rw (e, h x, any-update_where p q f xs h) refl
    | inr e ↦ rw (e, any-update_where p q f xs h) refl
  ]

  pub All-update_where :
      {P Q : A → Type 0} (p : A → Bool) (f : A → A)
      → ((x : A) → p x ≡ true → P x → Q (f x))
      → ((x : A) → p x ≡ false → P x → Q x)
      → (xs : List A) → All P xs
      → All Q (update_where p f xs)
  All-update_where p f new old [] h = tt
  All-update_where p f new old (x ∷ xs) h = elim (Bool-cases (p x)) [
    | inl e ↦ rw e (new x e h.0, All-update_where p f new old xs h.1)
    | inr e ↦ rw e (old x e h.0, All-update_where p f new old xs h.1)
  ]

pub UniqueIds-update_where :
    (p : OutboxRow → Bool) (f : OutboxRow → OutboxRow) (rows : List OutboxRow)
    → ((e : OutboxRow) → (f e).id ≡ e.id)
    → UniqueIds rows
    → UniqueIds (update_where p f rows)
UniqueIds-update_where p f [] same h = tt
UniqueIds-update_where p f (e ∷ es) same (alone, rest) =
    let others = UniqueIds-update_where p f es same rest in
    let kept : any (λ r. text_eq r.id e.id) (update_where p f es) ≡ false =
      any-update_where p (λ r. text_eq r.id e.id) f es (λ r. rw (same r) refl) ∙ alone in
    elim (Bool-cases (p e)) [ inl c ↦ rw (c, same e) (kept, others) | inr c ↦ rw c (kept, others) ]

-- What the retry of an event did, if it went through.
pub mark_retry_done :
    (next : ℕ) (max : ℤ) (id : Text) (db : Db) {db' : Db} {v : Unit {0}}
    → mark_retry next max id db ≡ done v db'
    → db'
      ≡ record db { outbox = update_where (λ e. text_eq e.id id) (retried_row next max) db.outbox }
unfolding mark_retry
mark_retry_done next max id db h = ground arith
