-- ===== src/Engine/Pool/Release.antt =====
-- What `retire` and `fail` do: one slot, its count and its sequence are given back.
use llm_worker.Base.{
  ℕ, ◌+◌, ◌^◌, ◌<◌, ◌≡◌, refl, ap, ◌∙◌, ◌⊎◌, decrement, inl, inr, [], ◌∷◌, ◌++◌, none, some, Text,
  arith,
}
use llm_worker.Engine.Types.{Stop, failed}
use llm_worker.Engine.Host.{Host}
use llm_worker.Engine.Slot.{Slot, elapsed_ms}
use llm_worker.Engine.Pool.{
  State, active, slot_at, retire, fail, last_piece, release, push_outbox, farewell,
}
use llm_worker.Engine.Pool.Occupied.{slot_at-cases, occupied-set-none}

module _ ⦃h : Host⦄ where
  -- The meter counts the requests that wait in the queue and those that have a slot.
  pub record Balanced (queued : ℕ) (st : State) : Type 0 where
    pub counted : st.inflight ≡ queued + active st
    pub in_range : queued + active st < 2 ^ 64

  -- The requests that wait and those that have a slot stay as many, and the meter too, or they are one
  -- less, and one is taken from the meter.
  abbrev pub Counts : ℕ → State → ℕ → State → Type 0
  Counts queued st queued' st' =
      ((queued' + active st' ≡ queued + active st) × (st'.inflight ≡ st.inflight))
      ⊎ ((queued' + active st' + 1 ≡ queued + active st) × (st'.inflight ≡ decrement st.inflight))

  -- A change before that is none for the meter.
  pub Counts-after :
      (queued queued' : ℕ) (st s s' : State)
      → active s ≡ active st
      → s.inflight ≡ st.inflight
      → Counts queued s queued' s'
      → Counts queued st queued' s'
  Counts-after queued queued' st s s' same level (inl (count, kept)) =
      inl (omega (arith, same, count), kept ∙ level)
  Counts-after queued queued' st s s' same level (inr (count, taken)) =
      inr (omega (arith, same, count), taken ∙ ap decrement level)

  pub Counts-Balanced :
      {queued queued' : ℕ} {st st' : State}
      → Counts queued st queued' st'
      → Balanced queued st
      → Balanced queued' st'
  Counts-Balanced (inl (count, kept)) b = omega (arith, b, count, kept)
  Counts-Balanced (inr (count, taken)) b = omega (arith, b, count, taken)

  -- A free slot is left as it is.
  pub retire-none : (st : State) (i : ℕ) (stop : Stop) → slot_at st i ≡ none → retire st i stop ≡ st
  unfolding retire
  retire-none st i stop e = rw e

  pub retire-some :
      (st : State) (i : ℕ) (stop : Stop) (slot : Slot)
      → slot_at st i ≡ some slot
      → retire st i stop ≡ (
          let (ms, w) = elapsed_ms slot st.world in
          push_outbox (release st i slot w) (last_piece slot ++ farewell slot stop ms))
  unfolding retire
  retire-some st i stop slot e = rw e

  pub fail-none : (st : State) (i : ℕ) (error : Text) → slot_at st i ≡ none → fail st i error ≡ st
  unfolding fail
  fail-none st i error e = rw e

  pub fail-some :
      (st : State) (i : ℕ) (error : Text) (slot : Slot)
      → slot_at st i ≡ some slot
      → fail st i error
        ≡ push_outbox (release st i slot st.world) ((slot.job.events, failed error) ∷ [])
  unfolding fail
  fail-some st i error slot e = rw e

  pub retire-Counts :
      (queued : ℕ) (st : State) (i : ℕ) (stop : Stop) → Counts queued st queued (retire st i stop)
  retire-Counts queued st i stop = elim (slot_at-cases st i) [
    | inl e ↦ rw (retire-none st i stop e) (inl (refl, refl))
    | inr (slot, e) ↦
        rw (retire-some st i stop slot e)
          (inr (omega (arith, occupied-set-none st.slots i slot e), refl))
  ]

  pub fail-Counts :
      (queued : ℕ) (st : State) (i : ℕ) (error : Text) → Counts queued st queued (fail st i error)
  fail-Counts queued st i error = elim (slot_at-cases st i) [
    | inl e ↦ rw (fail-none st i error e) (inl (refl, refl))
    | inr (slot, e) ↦
        rw (fail-some st i error slot e)
          (inr (omega (arith, occupied-set-none st.slots i slot e), refl))
  ]
