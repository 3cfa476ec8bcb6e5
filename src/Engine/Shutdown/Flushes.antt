-- ===== src/Engine/Shutdown/Flushes.antt =====
-- Where every caller reads, no slot waits behind the flush of all slots.
use llm_worker.Base.{
  ℕ, zero, suc, ◌+◌, ◌≤◌, ◌<◌, ◌≡◌, ◌≢◌, refl, ap, sym, ◌∙◌, subst, ◌⊎◌, inl, inr, List, [], ◌∷◌,
  Option, none, some, set, length, length-set, for_range_ind, arith,
}
use native.Mathlib.Decide.{ℕ_discrete}
use llm_worker.Engine.Types.{Event}
use llm_worker.Engine.Host.{Host}
use llm_worker.Engine.Slot.{Slot}
use llm_worker.Engine.Pool.{State, slot_at}
use llm_worker.Engine.Pool.Occupied.{entry, slot_at-cases, entry-set-some, entry-set_self}
use llm_worker.Engine.Prefill.{Runtime}
use llm_worker.Engine.Serve.{flush_slot, flush_occupied, flush_all, deliver}
use llm_worker.Engine.Shutdown.{AllRead}
use llm_worker.Engine.Shutdown.Hands.{flush_slot-Handed, retain-empty}
use llm_worker.Engine.Shutdown.Gathers.{AllClear}

module _ ⦃h : Host⦄ (rt : Runtime) (reads : AllRead) where
  -- The slots below `i` are clear.
  record Cleared (outbox : List (ℕ × Event)) (places i : ℕ) (st : State) : Type 0 where
    clear : (j : ℕ) (slot : Slot) → j < i → slot_at st j ≡ some slot → slot.pending ≡ none
    same_outbox : st.outbox ≡ outbox
    same_places : length st.slots ≡ places

  beyond : (slots : List (Option Slot)) (j : ℕ) → length slots ≤ j → entry slots j ≡ none
  beyond [] j le = refl
  beyond (x ∷ rest) zero le = absurd (omega (arith, le))
  beyond (x ∷ rest) (suc j) le = beyond rest j (omega (arith, le))

  some_same : {s t : Slot} → some s ≡ some t → t.pending ≡ none → s.pending ≡ none
  some_same e free = cc

  handed-clear :
      (outbox : List (ℕ × Event)) (places i : ℕ) (st : State) (old now : Slot) (w : h.World)
      → slot_at st i ≡ some old
      → now.pending ≡ none
      → Cleared outbox places i st
      → Cleared outbox places (i + 1) (record st { slots = set st.slots i (some now); world = w })
  handed-clear outbox places i st old now w at free c = record {
    clear = λ j slot lt e. elim (ℕ_discrete j i) [
      | yes here ↦
          some_same
            (sym e
              ∙ ap (λ k. entry (set st.slots i (some now)) k) here
              ∙ entry-set_self st.slots i old now at)
            free
      | no apart ↦ elim (entry-set-some st.slots i j now slot e) [
        | inl (same, _) ↦ absurd (apart same)
        | inr before ↦ c.clear j slot (below i j lt apart) before
      ]
    ];
    same_outbox = c.same_outbox;
    same_places = length-set st.slots i (some now) ∙ c.same_places;
  }
    where
      below : (i j : ℕ) → j < i + 1 → j ≢ i → j < i
      below i j lt ne = ground arith

  flush_slot-Cleared :
      (outbox : List (ℕ × Event)) (places i : ℕ) (st : State)
      → Cleared outbox places i st
      → Cleared outbox places (i + 1) (flush_slot i st)
  unfolding flush_slot flush_occupied
  flush_slot-Cleared outbox places i st c = elim (slot_at-cases st i) [
    | inl none_at ↦ rw none_at (record {
      clear = λ j slot lt e. elim (ℕ_discrete j i) [
        | yes here ↦ absurd (never (sym e ∙ ap (slot_at st) here ∙ none_at))
        | no apart ↦ c.clear j slot (below i j lt apart) e
      ];
      same_outbox = c.same_outbox;
      same_places = c.same_places;
    })
    | inr (slot, at) ↦
        let f = flush_slot-Handed rt st i slot reads at in
        subst (Cleared outbox places (i + 1)) (sym f.shape)
          (handed-clear outbox places i st slot f.now f.world at f.clear c)
  ]
    where
      below : (i j : ℕ) → j < i + 1 → j ≢ i → j < i
      below i j lt ne = ground arith

      never : {s : Slot} → some s ≢ none
      never = λ e. cc

  flush_all-Cleared :
      (st : State) → Cleared st.outbox (length st.slots) (0 + length st.slots) (flush_all st)
  unfolding flush_all
  flush_all-Cleared st =
      for_range_ind (Cleared st.outbox (length st.slots)) flush_slot
        (flush_slot-Cleared st.outbox (length st.slots)) (length st.slots) 0 st
        (record {
          clear = λ j slot lt e. absurd (omega (arith, lt));
          same_outbox = refl;
          same_places = refl;
        })

  pub flush_all-AllClear : (st : State) → AllClear (flush_all st)
  flush_all-AllClear st j slot e =
      let c = flush_all-Cleared st in
      elim (side j (length st.slots)) [
        | inl inside ↦ c.clear j slot (omega (arith, inside)) e
        | inr outside ↦
            absurd (
              never (sym e ∙ beyond (flush_all st).slots j (omega (arith, outside, c.same_places))))
      ]
    where
      side : (j n : ℕ) → (j < n) ⊎ (n ≤ j)
      side j n = ground arith

      never : {s : Slot} → some s ≢ none
      never = λ e. cc

  -- Behind the delivery and the flush, nothing is owed and no slot waits.
  pub nothing_owed : (st : State) → (flush_all (deliver st)).outbox ≡ []
  unfolding deliver
  nothing_owed st =
      (flush_all-Cleared (deliver st)).same_outbox ∙ retain-empty rt st.outbox st.world reads

  pub same_places : (st : State) → length (flush_all (deliver st)).slots ≡ length st.slots
  unfolding deliver
  same_places st = (flush_all-Cleared (deliver st)).same_places
