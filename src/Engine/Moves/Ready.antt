-- ===== src/Engine/Moves/Ready.antt =====
-- The rows of a batch stand for distinct slots that owe their callers nothing.
use llm_worker.Base.{
  ℕ, zero, suc, ◌+◌, ◌≤◌, ◌<◌, ◌≡◌, ◌≢◌, refl, ◌∙◌, ap, List, [], ◌∷◌, ◌++◌, Option, none, some,
  inl, inr, set, Text, arith,
}
use llm_worker.Engine.Types.{Stop, end_of_generation}
use llm_worker.Engine.Host.{Host}
use llm_worker.Engine.Slot.{Slot}
use llm_worker.Engine.Pool.{State, slot_at, retire, fail}
use llm_worker.Engine.Pool.Occupied.{entry, slot_at-cases}
use llm_worker.Engine.Pool.Release.{retire-none, retire-some, fail-none, fail-some}
use llm_worker.Engine.Step.Cases.{emit_cases, extend_cases, stop_of}
use llm_worker.Engine.Step.{Rows, emit, write_slot}

module _ ⦃h : Host⦄ where
  pub record IsReady (st : State) (i : ℕ) : Type 0 where
    pub slot : Slot
    pub held : slot_at st i ≡ some slot
    pub free : slot.pending ≡ none

  -- Rows in ascending order of slots, from `lo` and below `hi`.
  abbrev pub ReadyBetween : State → ℕ → ℕ → Rows → Type 0
  ReadyBetween st lo hi [] = lo ≤ hi
  ReadyBetween st lo hi ((i, row) ∷ rest) =
      (lo ≤ i) × IsReady st i × ReadyBetween st (i + 1) hi rest

  pub ReadyBetween-le :
      (st : State) (lo hi : ℕ) (rows : Rows) → ReadyBetween st lo hi rows → lo ≤ hi
  ReadyBetween-le st lo hi [] r = r
  ReadyBetween-le st lo hi ((i, row) ∷ rest) r =
      omega (arith, ReadyBetween-le st (i + 1) hi rest r.2)

  pub ReadyBetween-append :
      (st : State) (lo hi i row : ℕ) (rows : Rows)
      → ReadyBetween st lo hi rows
      → hi ≤ i
      → IsReady st i
      → ReadyBetween st lo (i + 1) (rows ++ (i, row) ∷ [])
  ReadyBetween-append st lo hi i row [] r le ready = (omega arith, ready, omega arith)
  ReadyBetween-append st lo hi i row ((j, _) ∷ rest) r le ready =
      (r.0, r.1, ReadyBetween-append st (j + 1) hi i row rest r.2 le ready)

  pub ReadyBetween-widen :
      (st : State) (lo hi hi' : ℕ) (rows : Rows)
      → ReadyBetween st lo hi rows
      → hi ≤ hi'
      → ReadyBetween st lo hi' rows
  ReadyBetween-widen st lo hi hi' [] r le = omega arith
  ReadyBetween-widen st lo hi hi' ((j, _) ∷ rest) r le =
      (r.0, r.1, ReadyBetween-widen st (j + 1) hi hi' rest r.2 le)

  -- Two states with the same slots within the bounds.
  pub ReadyBetween-agree :
      (st st' : State) (lo hi : ℕ) (rows : Rows)
      → ((j : ℕ) → lo ≤ j → j < hi → slot_at st' j ≡ slot_at st j)
      → ReadyBetween st lo hi rows
      → ReadyBetween st' lo hi rows
  ReadyBetween-agree st st' lo hi [] same r = r
  ReadyBetween-agree st st' lo hi ((i, row) ∷ rest) same r = (
    r.0,
    record {
      slot = r.1.slot;
      held = same i r.0 (omega (arith, ReadyBetween-le st (i + 1) hi rest r.2)) ∙ r.1.held;
      free = r.1.free;
    },
    ReadyBetween-agree st st' (i + 1) hi rest (λ j a b. same j (omega arith) b) r.2,
  )

  -- A write at `i` leaves the slots elsewhere as they are, and so do the ways to end a slot.
  pub entry-set_ne :
      (slots : List (Option Slot)) (i j : ℕ) (v : Option Slot)
      → j ≢ i
      → entry (set slots i v) j ≡ entry slots j
  entry-set_ne [] i j v ne = refl
  entry-set_ne (x ∷ xs) zero zero v ne = absurd (ne refl)
  entry-set_ne (x ∷ xs) zero (suc j) v ne = refl
  entry-set_ne (x ∷ xs) (suc i) zero v ne = refl
  entry-set_ne (x ∷ xs) (suc i) (suc j) v ne = entry-set_ne xs i j v (λ e. ne (ap suc e))

  pub slot_at-retire_ne :
      (st : State) (i j : ℕ) (stop : Stop) → j ≢ i → slot_at (retire st i stop) j ≡ slot_at st j
  slot_at-retire_ne st i j stop ne = elim (slot_at-cases st i) [
    | inl e ↦ rw (retire-none st i stop e)
    | inr (slot, e) ↦ rw (retire-some st i stop slot e) (entry-set_ne st.slots i j none ne)
  ]

  pub slot_at-fail_ne :
      (st : State) (i j : ℕ) (error : Text) → j ≢ i → slot_at (fail st i error) j ≡ slot_at st j
  slot_at-fail_ne st i j error ne = elim (slot_at-cases st i) [
    | inl e ↦ rw (fail-none st i error e)
    | inr (slot, e) ↦ rw (fail-some st i error slot e) (entry-set_ne st.slots i j none ne)
  ]

  slot_at-write_ne :
      (st : State) (i j : ℕ) (slot : Slot) → j ≢ i → slot_at (write_slot st i slot) j ≡ slot_at st j
  slot_at-write_ne st i j slot ne = entry-set_ne st.slots i j (some slot) ne

  pub slot_at-emit_ne :
      (st : State) (i j : ℕ) (slot : Slot) (t : h.Token)
      → j ≢ i
      → slot_at (emit st i slot t) j ≡ slot_at st j
  slot_at-emit_ne st i j slot t ne =
      emit_cases (λ s. slot_at s j ≡ slot_at st j) st i slot t
        (slot_at-retire_ne _ i j end_of_generation ne ∙ slot_at-write_ne st i j slot ne)
        (λ error. slot_at-fail_ne _ i j error ne ∙ slot_at-write_ne st i j slot ne)
        λ d text.
          extend_cases (λ s. slot_at s j ≡ slot_at st j) st i slot t d text
            (λ _. slot_at-retire_ne _ i j (stop_of slot) ne ∙ slot_at-write_ne st i j _ ne)
            (λ _. slot_at-write_ne st i j _ ne)
