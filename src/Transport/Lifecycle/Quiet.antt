-- ===== src/Transport/Lifecycle/Quiet.antt =====
-- What a worker does once its `Stop` has answered nil.
use jungle_gaming_challenge.Base.{
  ℕ, suc, ◌≡◌, ◌≢◌, ◌⊎◌, inl, inr, refl, sym, ap, ◌∙◌, arith, Bool, true, false,
}
use jungle_gaming_challenge.Transport.Lifecycle.{
  Phase, launched, looping, returned, not_called, stopped, Worker, Move, Moves, entered, turned,
  left, closed, waited, expired, at_rest, move, new_worker,
}

-- the wait group counts the goroutine of a loop that runs
abbrev Counts : Phase → ℕ → Type 0
Counts launched n = n ≡ 0
Counts looping n = n ≡ 1
Counts returned n = n ≡ 0

-- `Stop` closes the channel first.
abbrev ClosesFirst : Worker → Type 0
ClosesFirst w = w.is_closed ≡ false → w.stop ≡ not_called

-- The channel stays closed, and a loop that looks at it first has no more turns.
abbrev PromptlyClosed : ℕ → Worker → Type 0
PromptlyClosed n w = (w.is_closed ≡ true) × (w.turns ≡ n)

-- A loop that has begun is behind its end when `Stop` answers nil.
abbrev EndsFirst : Worker → Type 0
EndsFirst w =
    Counts w.phase w.wait_group × (w.phase ≢ launched) × (w.stop ≡ stopped → w.phase ≡ returned)

-- A goroutine that has ended does nothing more.
abbrev Ended : ℕ → Worker → Type 0
Ended n w = (w.phase ≡ returned) × (w.turns ≡ n)

module _ {prompt : Bool} where
  moves_keep :
      (P : Worker → Type 0)
      → ((u v : Worker) → Move prompt u v → P u → P v)
      → {w u : Worker} → Moves prompt w u
      → P w
      → P u
  moves_keep P keep at_rest h = h
  moves_keep P keep (move path step) h = keep _ _ step (moves_keep P keep path h)

  step-Counts :
      {u v : Worker} → Move prompt u v → Counts u.phase u.wait_group → Counts v.phase v.wait_group
  step-Counts (entered w p) h = let one : w.wait_group ≡ 0 = rw p at h in ap suc one
  step-Counts (turned w p q) h = h
  step-Counts (left w p c) h = let one : w.wait_group ≡ 1 = rw p at h in omega (arith, one)
  step-Counts (closed w c p) h = h
  step-Counts (waited w p z) h = h
  step-Counts (expired w p) h = h

  step-ClosesFirst : {u v : Worker} → Move prompt u v → ClosesFirst u → ClosesFirst v
  step-ClosesFirst (entered w p) h = h
  step-ClosesFirst (turned w p q) h = h
  step-ClosesFirst (left w p c) h = h
  step-ClosesFirst (closed w c p) h = λ o. absurd (cc o)
  step-ClosesFirst (waited w p z) h = λ o. absurd (cc (sym p ∙ h o))
  step-ClosesFirst (expired w p) h = λ o. absurd (cc (sym p ∙ h o))

  step-PromptlyClosed :
      {u v : Worker} (n : ℕ)
      → prompt ≡ true
      → Move prompt u v
      → PromptlyClosed n u
      → PromptlyClosed n v
  step-PromptlyClosed n first (entered w p) h = h
  step-PromptlyClosed n first (turned w p q) h = absurd (cc (sym (rw (first, h.0) at q)))
  step-PromptlyClosed n first (left w p c) h = h
  step-PromptlyClosed n first (closed w c p) h = (refl, h.1)
  step-PromptlyClosed n first (waited w p z) h = h
  step-PromptlyClosed n first (expired w p) h = h

  step-EndsFirst : {u v : Worker} → Move prompt u v → EndsFirst u → EndsFirst v
  step-EndsFirst (entered w p) (c, begun, ends) = absurd (begun p)
  step-EndsFirst (turned w p q) (c, begun, ends) = (c, begun, ends)
  step-EndsFirst (left w p cl) (c, begun, ends) =
      let one : w.wait_group ≡ 1 = rw p at c in (omega (arith, one), (λ e. cc e), λ s. refl)
  step-EndsFirst (closed w cl p) (c, begun, ends) = (c, begun, λ s. absurd (cc s))
  step-EndsFirst (waited w p z) (c, begun, ends) = (c, begun, λ s. ended w.phase refl)
    where
      ended : (phase : Phase) → w.phase ≡ phase → w.phase ≡ returned
      ended launched e = absurd (begun e)
      ended looping e = let one : w.wait_group ≡ 1 = rw e at c in absurd (omega (arith, one, z))
      ended returned e = e
  step-EndsFirst (expired w p) (c, begun, ends) = (c, begun, λ s. absurd (cc s))

  step-Ended : {u v : Worker} (n : ℕ) → Move prompt u v → Ended n u → Ended n v
  step-Ended n (entered w p) h = absurd (cc (sym p ∙ h.0))
  step-Ended n (turned w p q) h = absurd (cc (sym p ∙ h.0))
  step-Ended n (left w p c) h = absurd (cc (sym p ∙ h.0))
  step-Ended n (closed w c p) h = h
  step-Ended n (waited w p z) h = h
  step-Ended n (expired w p) h = h

-- A worker whose `Stop` has answered nil has no further turn: always when its loop looks at the stop
-- channel first, as that of the worker of SQS does, and for each of the three when the goroutine of
-- `Start` had reached its loop before `Stop` was called.
pub stopped-Quiet :
    (prompt : Bool) (w u v : Worker)
    → Moves prompt new_worker w
    → w.stop ≡ not_called
    → (prompt ≡ true) ⊎ (w.phase ≢ launched)
    → Moves prompt w u
    → u.stop ≡ stopped
    → Moves prompt u v
    → v.turns ≡ u.turns
stopped-Quiet prompt w u v born before (inl first) path answered later =
    let closes = moves_keep ClosesFirst (λ a b. step-ClosesFirst) path (λ o. before) in
    (moves_keep (PromptlyClosed u.turns) (λ a b. step-PromptlyClosed u.turns first) later
      (shut u.is_closed refl closes, refl)).1
  where
    shut : (b : Bool) → u.is_closed ≡ b → ClosesFirst u → u.is_closed ≡ true
    shut true e closes = e
    shut false e closes = absurd (cc (sym answered ∙ closes e))
stopped-Quiet prompt w u v born before (inr begun) path answered later =
    let counts = moves_keep (λ x. Counts x.phase x.wait_group) (λ a b. step-Counts) born refl in
    let (_, _, ends) =
      moves_keep EndsFirst (λ a b. step-EndsFirst) path
        (counts, begun, λ s. absurd (cc (sym before ∙ s))) in
    (moves_keep (Ended u.turns) (λ a b. step-Ended u.turns) later (ends answered, refl)).1
