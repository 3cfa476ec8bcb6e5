-- ===== src/Engine/Step/Cases.antt =====
-- The ways in which `emit` ends, as rules: a property of each outcome is a property of the call.
use llm_worker.Base.{
  ℕ, ◌+◌, ◌≡◌, u32, leb, true, false, Bool-cases, Text, some, if◌then◌else◌, inl, inr,
}
use llm_worker.Engine.Types.{Stop, token, end_of_generation, limit, context_full}
use llm_worker.Engine.Host.{Host, Outcome-cases}
use llm_worker.Engine.Slot.{Slot}
use llm_worker.Engine.Pool.{State, retire, fail}
use llm_worker.Engine.Step.{emit, extend, write_slot}

module _ ⦃h : Host⦄ where
  -- The slot after a token that goes on.
  abbrev pub extended : Slot → h.Token → h.Decoder → Text → Slot
  extended slot t d text = record slot {
    next_input = t;
    decoder = d;
    n_decoded = u32 (slot.n_decoded + 1);
    pending = some (token text);
  }

  abbrev pub stop_of : Slot → Stop
  stop_of slot = if slot.context_bound then context_full else limit

  pub extend_cases {κ} :
      (P : State → Type κ) (st : State) (i : ℕ) (slot : Slot) (t : h.Token) (d : h.Decoder)
      (text : Text)
      → (leb slot.budget (u32 (slot.n_decoded + 1)) ≡ true
          → P (retire (write_slot st i (extended slot t d text)) i (stop_of slot)))
      → (leb slot.budget (u32 (slot.n_decoded + 1)) ≡ false
          → P (write_slot st i (extended slot t d text)))
      → P (extend st i slot t d text)
  unfolding extend
  extend_cases P st i slot t d text spent goes_on =
      elim (Bool-cases (leb slot.budget (u32 (slot.n_decoded + 1)))) [
        | inl e ↦ rw e (spent e)
        | inr e ↦ rw e (goes_on e)
      ]

  pub emit_cases {κ} :
      (P : State → Type κ) (st : State) (i : ℕ) (slot : Slot) (t : h.Token)
      → P (retire (write_slot st i slot) i end_of_generation)
      → ((error : Text) → P (fail (write_slot st i slot) i error))
      → ((d : h.Decoder) (text : Text) → P (extend st i slot t d text))
      → P (emit st i slot t)
  unfolding emit
  emit_cases P st i slot t ends breaks extends = elim (Bool-cases (h.is_eog_token t)) [
    | inl e ↦ rw e ends
    | inr e ↦ rw e (elim (Outcome-cases (h.token_to_piece t slot.decoder).0) [
      | inl (text, p) ↦ rw p (extends _ text)
      | inr (error, p) ↦ rw p (breaks error)
    ])
  ]
