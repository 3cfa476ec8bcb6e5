-- ===== src/Engine/Slot/Cases.antt =====
-- The ways in which `flush` ends, as a rule: a property of each outcome is a property of the call.
use llm_worker.Base.{
  ℕ, ◌≡◌, refl, ◌⊎◌, inl, inr, Bool, true, false, Option, none, some, if◌then◌else◌,
}
use llm_worker.Engine.Types.{Event}
use llm_worker.Engine.Host.{Host, sent, full, closed, Sent-cases, Quiet, same, instant}
use llm_worker.Engine.Slot.{
  Slot, Flush, ready, stalled, abandoned, flush, flush_event, stall, stall_start,
}

module _ ⦃h : Host⦄ where
  -- The slot whose piece is accepted, stays, or has nobody to read it.
  abbrev pub handed : Slot → Slot
  handed slot = record slot { pending = none; stalled_since = none }

  abbrev pub kept : Slot → Event → ℕ → Slot
  kept slot event since = record slot { pending = some event; stalled_since = some since }

  abbrev pub unread : Slot → Slot
  unread slot = record slot { pending = none }

  stall_start-Quiet : (o : Option ℕ) (w : h.World) → Quiet w (stall_start o w).1
  unfolding stall_start
  stall_start-Quiet none w = instant same
  stall_start-Quiet (some since) w = same

  Flush-late :
      (late : Bool) → let f = if late then abandoned else stalled in (f ≡ stalled) ⊎ (f ≡ abandoned)
  Flush-late true = inr refl
  Flush-late false = inl refl

  flush_event_cases {κ} :
      (P : Flush × Slot × h.World → Type κ) (o : Option Event) (slot : Slot) (w : h.World)
      → (o ≡ none → P (ready, slot, w))
      → ((e : Event)
          → o ≡ some e
          → (h.try_send w slot.job.events e).0 ≡ sent
          → P (ready, handed slot, (h.try_send w slot.job.events e).1))
      → ((e : Event) (f : Flush) (since : ℕ) (v : h.World)
          → o ≡ some e
          → (h.try_send w slot.job.events e).0 ≡ full
          → Quiet (h.try_send w slot.job.events e).1 v
          → (f ≡ stalled) ⊎ (f ≡ abandoned)
          → P (f, kept slot e since, v))
      → ((e : Event)
          → o ≡ some e
          → (h.try_send w slot.job.events e).0 ≡ closed
          → P (abandoned, unread slot, (h.try_send w slot.job.events e).1))
      → P (flush_event o slot w)
  unfolding flush_event stall
  flush_event_cases P none slot w nothing accepted stays gone = nothing refl
  flush_event_cases P (some event) slot w nothing accepted stays gone =
      let outcome = (h.try_send w slot.job.events event).0 in
      let w' = (h.try_send w slot.job.events event).1 in
      elim (Sent-cases outcome) [
        | inl p ↦ rw (p, flush_event) (accepted event refl p)
        | inr (inl p) ↦
            rw (p, flush_event)
              (stays event _ _ _ refl p (instant (stall_start-Quiet slot.stalled_since w'))
                (Flush-late _))
        | inr (inr p) ↦ rw (p, flush_event) (gone event refl p)
      ]

  pub flush_cases {κ} :
      (P : Flush × Slot × h.World → Type κ) (slot : Slot) (w : h.World)
      → (slot.pending ≡ none → P (ready, slot, w))
      → ((e : Event)
          → slot.pending ≡ some e
          → (h.try_send w slot.job.events e).0 ≡ sent
          → P (ready, handed slot, (h.try_send w slot.job.events e).1))
      → ((e : Event) (f : Flush) (since : ℕ) (v : h.World)
          → slot.pending ≡ some e
          → (h.try_send w slot.job.events e).0 ≡ full
          → Quiet (h.try_send w slot.job.events e).1 v
          → (f ≡ stalled) ⊎ (f ≡ abandoned)
          → P (f, kept slot e since, v))
      → ((e : Event)
          → slot.pending ≡ some e
          → (h.try_send w slot.job.events e).0 ≡ closed
          → P (abandoned, unread slot, (h.try_send w slot.job.events e).1))
      → P (flush slot w)
  unfolding flush
  flush_cases P slot w = flush_event_cases P slot.pending slot w
