-- ===== src/Store/Found.antt =====
-- What a SELECT by a condition finds behind the statements that write.
use jungle_gaming_challenge.Base.{
  ◌≡◌, refl, sym, ap, subst, ◌∙◌, arith, Bool, true, false, List, [], ◌∷◌, some, inl, inr, leb,
  Bool-cases, if◌then◌else◌,
}
use jungle_gaming_challenge.Base.Text.{Text, text_eq}
use jungle_gaming_challenge.Store.{WalletRow}
use jungle_gaming_challenge.Store.Insert.{any}
use jungle_gaming_challenge.Store.Update.{find, update_where, count_where}

-- What a SELECT by an id finds behind an UPDATE, and behind an INSERT that met no duplicate.
module _ (id : Text) where
  pub find-update_where :
      (p : WalletRow → Bool) (f : WalletRow → WalletRow)
      → ((w : WalletRow) → (f w).id ≡ w.id)
      → (ws : List WalletRow) {r : WalletRow} → find (λ x. text_eq x.id id) ws ≡ some r
      → find (λ x. text_eq x.id id) (update_where p f ws) ≡ some (if p r then f r else r)
  find-update_where p f same [] found = absurd (cc found)
  find-update_where p f same (w ∷ ws) {r} found = elim (Bool-cases (text_eq w.id id)) [
    | inl e ↦
        let here : r ≡ w = cc (rw e at found) in
        let kept : text_eq (if p w then f w else w).id id ≡ true = rw (rewritten w (p w)) e in
        rw (kept, here) refl
    | inr e ↦
        let kept : text_eq (if p w then f w else w).id id ≡ false = rw (rewritten w (p w)) e in
        rw kept (find-update_where p f same ws (rw e at found))
  ]
    where
      rewritten : (w : WalletRow) (b : Bool) → (if b then f w else w).id ≡ w.id
      rewritten w true = same w
      rewritten w false = refl

module _ (p : WalletRow → Bool) where
  -- A row that a SELECT finds has what no row lacks, and is counted.
  pub find_of_none :
      (q : WalletRow → Bool) (ws : List WalletRow) {r : WalletRow}
      → any q ws ≡ false
      → find p ws ≡ some r
      → q r ≡ false
  find_of_none q [] lacks found = absurd (cc found)
  find_of_none q (w ∷ ws) {r} lacks found = elim (Bool-cases (p w)) [
    | inl e ↦ let here : w ≡ r = cc (rw e at found) in subst (λ x. q x ≡ false) here (ground arith)
    | inr e ↦ find_of_none q ws (ground arith) (rw e at found)
  ]

  pub find_is_counted :
      (q : WalletRow → Bool) (ws : List WalletRow) {r : WalletRow}
      → find p ws ≡ some r
      → q r ≡ true
      → leb 1 (count_where q ws) ≡ true
  find_is_counted q [] found hit = absurd (cc found)
  find_is_counted q (w ∷ ws) {r} found hit = elim (Bool-cases (q w)) [
    | inl c ↦ ground arith
    | inr c ↦ elim (Bool-cases (p w)) [
      | inl e ↦
          let here : w ≡ r = cc (rw e at found) in absurd (cc (sym hit ∙ (sym (ap q here) ∙ c)))
      | inr e ↦ rw c (find_is_counted q ws (rw e at found) hit)
    ]
  ]

-- An UPDATE of the rows of one id leaves what a SELECT by another id finds.
pub find_other-update_where :
    (id : Text) (p : WalletRow → Bool) (f : WalletRow → WalletRow)
    → ((w : WalletRow) → (f w).id ≡ w.id)
    → ((w : WalletRow) → p w ≡ true → text_eq w.id id ≡ false)
    → (ws : List WalletRow)
    → find (λ x. text_eq x.id id) (update_where p f ws) ≡ find (λ x. text_eq x.id id) ws
find_other-update_where id p f same other [] = refl
find_other-update_where id p f same other (w ∷ ws) = elim (Bool-cases (p w)) [
  | inl c ↦ rw (c, same w, other w c) (find_other-update_where id p f same other ws)
  | inr c ↦ elim (Bool-cases (text_eq w.id id)) [
    | inl e ↦ rw (c, e) refl
    | inr e ↦ rw (c, e) (find_other-update_where id p f same other ws)
  ]
]
