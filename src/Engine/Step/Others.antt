-- ===== src/Engine/Step/Others.antt =====
-- What a step does not change of one slot while it treats the others, as a rule.
use llm_worker.Base.{
  ◌∙◌, false, ℕ, ◌≡◌, ◌≢◌, ap, inl, inr, Bool-cases, List, [], ◌∷◌, ◌++◌, true, Option, none, some,
  set, get_elem?-set_ne, for_each, Text,
}
use llm_worker.Engine.Types.{Event, Stop, cancelled}
use llm_worker.Engine.Host.{Host, Outcome-cases}
use llm_worker.Engine.Slot.{Slot, is_cancelled}
use llm_worker.Engine.Pool.{State, slot_at, retire, fail}
use llm_worker.Engine.Pool.Occupied.{entry, slot_at-cases}
use llm_worker.Engine.Pool.Release.{retire-none, retire-some, fail-none, fail-some}
use llm_worker.Engine.Step.{
  Rows, Progress, gather_slot, gather_row, decode_rows, sample_rows, advance, advance_slot, emit,
  fail_row, write_slot,
}
use llm_worker.Engine.Step.Cases.{emit_cases, extend_cases}

module _ ⦃h : Host⦄ (j : ℕ) where
  -- No row is for slot `j`.
  abbrev pub Absent : Rows → Type 0
  Absent [] = Unit {0}
  Absent ((i, row) ∷ rest) = (i ≢ j) × Absent rest

  Absent-append : (xs ys : Rows) → Absent xs → Absent ys → Absent (xs ++ ys)
  Absent-append [] ys a b = b
  Absent-append ((i, row) ∷ xs) ys (ne, a) b = (ne, Absent-append xs ys a b)

  pub entry-set_ne :
      (slots : List (Option Slot)) (i : ℕ) (v : Option Slot)
      → i ≢ j
      → entry (set slots i v) j ≡ entry slots j
  entry-set_ne slots i v ne =
      ap (λ o. elim o [ none ↦ none | some e ↦ e ]) (get_elem?-set_ne slots i j v ne)

  -- What is done to another slot keeps `P`, and so does what the device and the clock do.
  pub record Keeps (P : State → Type 0) : Type 0 where
    pub retires : (st : State) (i : ℕ) (stop : Stop) → i ≢ j → P st → P (retire st i stop)
    pub fails : (st : State) (i : ℕ) (error : Text) → i ≢ j → P st → P (fail st i error)
    pub writes : (st : State) (i : ℕ) (s : Slot) → i ≢ j → P st → P (write_slot st i s)
    pub device :
        (st : State) (b : h.Batch) (w : h.World) (us : h.Float)
        → P st
        → P (record st { batch = b; world = w; step_us = us })

  abbrev pub Gathered : (State → Type 0) → State × Rows → Type 0
  Gathered P (st, rows) = P st × Absent rows

  module _ (P : State → Type 0) (keeps : Keeps P) where
    gather_row-Gathered :
        (i : ℕ) (st : State) (rows : Rows) (s : Slot)
        → i ≢ j
        → Gathered P (st, rows)
        → Gathered P (gather_row i st rows s)
    unfolding gather_row
    gather_row-Gathered i st rows s ne (p, absent) =
        elim (Outcome-cases (h.add st.batch s.next_input s.n_cur s.seq_id true)) [
          | inl (batch, e) ↦
              rw (e, gather_row)
                (
                  keeps.device st batch st.world st.step_us p,
                  Absent-append rows ((i, h.n_tokens st.batch) ∷ []) absent (ne, tt),
                )
          | inr (error, e) ↦ rw (e, gather_row) (keeps.fails st i error ne p, absent)
        ]

    held-Gathered :
        (i : ℕ) (st : State) (rows : Rows) (s : Slot) (held : Option Event)
        → i ≢ j
        → Gathered P (st, rows)
        → Gathered P (elim held [ none ↦ gather_row i st rows s | some _ ↦ (st, rows) ])
    held-Gathered i st rows s none ne g = gather_row-Gathered i st rows s ne g
    held-Gathered i st rows s (some event) ne g = g

    pub gather_slot-Gathered :
        (i : ℕ) (st : State) (rows : Rows) (o : Option Slot)
        → i ≢ j
        → Gathered P (st, rows)
        → Gathered P (gather_slot i st rows o)
    unfolding gather_slot
    gather_slot-Gathered i st rows none ne g = g
    gather_slot-Gathered i st rows (some s) ne (p, absent) =
        let w = (is_cancelled s st.world).1 in
        let st' : State = record st { world = w } in
        let p' = keeps.device st st.batch w st.step_us p in
        elim (Bool-cases (is_cancelled s st.world).0) [
          | inl e ↦ rw (e, gather_slot) (keeps.retires st' i cancelled ne p', absent)
          | inr e ↦ rw (e, gather_slot) (held-Gathered i st' rows s s.pending ne (p', absent))
        ]

    emit-Keeps : (st : State) (i : ℕ) (s : Slot) (t : h.Token) → i ≢ j → P st → P (emit st i s t)
    emit-Keeps st i s t ne p =
        let wrote = λ (s' : Slot). keeps.writes st i s' ne p in
        emit_cases P st i s t (keeps.retires (write_slot st i s) i _ ne (wrote s))
          (λ error. keeps.fails (write_slot st i s) i error ne (wrote s))
          (λ d text.
            extend_cases P st i s t d text
              (λ spent. keeps.retires (write_slot st i _) i _ ne (wrote _)) (λ goes. wrote _))

    advance_slot-Keeps :
        (i row : ℕ) (p : Progress) (o : Option Slot)
        → i ≢ j
        → P p.state
        → P (advance_slot i row p o).state
    unfolding advance_slot
    advance_slot-Keeps i row p none ne v = v
    advance_slot-Keeps i row p (some s) ne v =
        emit-Keeps _ i _ _ ne (keeps.device p.state p.state.batch _ p.state.step_us v)

    advances-Keeps :
        (rows : Rows) (p : Progress) → Absent rows → P p.state → P (for_each rows advance p).state
    unfolding for_each advance
    advances-Keeps [] p absent v = v
    advances-Keeps ((i, row) ∷ rows) p (ne, absent) v =
        advances-Keeps rows (advance (i, row) p) absent
          (advance_slot-Keeps i row p (slot_at p.state i) ne v)

    fails-Keeps :
        (rows : Rows) (message : Text) (st : State)
        → Absent rows
        → P st
        → P (for_each rows (fail_row message) st)
    unfolding for_each fail_row
    fails-Keeps [] message st absent v = v
    fails-Keeps ((i, row) ∷ rows) message st (ne, absent) v =
        fails-Keeps rows message (fail_row message (i, row) st) absent
          (keeps.fails st i message ne v)

    pub decode_rows-Keeps :
        (st : State) (rows : Rows) → Absent rows → P st → P (decode_rows st rows).1
    unfolding decode_rows sample_rows
    decode_rows-Keeps st [] absent v = v
    decode_rows-Keeps st (r ∷ rows) absent v =
        let w₁ = (h.ggml_time_us st.world).1 in
        let w₂ = (h.ggml_time_us (h.decode w₁ st.batch).1).1 in
        let v' = keeps.device st st.batch w₂ st.step_us v in
        elim (Outcome-cases (h.decode w₁ st.batch).0) [
          | inl (u, e) ↦
              rw (e, decode_rows)
                (keeps.device _ _ _ _ (
                  advances-Keeps (r ∷ rows)
                    (record { state = record st { world = w₂ }; gpu_us = _; sampled = 0 }) absent
                    v'))
          | inr (error, e) ↦ rw (e, decode_rows) (fails-Keeps (r ∷ rows) _ _ absent v')
        ]

module _ ⦃h : Host⦄ (j : ℕ) (slot : Slot) where
  -- Slot `j` holds `slot`.
  abbrev pub Stays : State → Type 0
  Stays st = slot_at st j ≡ some slot

  pub Stays-Keeps : Keeps j Stays
  Stays-Keeps = record {
    retires = λ st i stop ne stays. elim (slot_at-cases st i) [
      | inl e ↦ rw (retire-none st i stop e) stays
      | inr (s, e) ↦ rw (retire-some st i stop s e) (entry-set_ne j st.slots i none ne ∙ stays)
    ];
    fails = λ st i error ne stays. elim (slot_at-cases st i) [
      | inl e ↦ rw (fail-none st i error e) stays
      | inr (s, e) ↦ rw (fail-some st i error s e) (entry-set_ne j st.slots i none ne ∙ stays)
    ];
    writes = λ st i s ne stays. entry-set_ne j st.slots i (some s) ne ∙ stays;
    device = λ st b w us stays. stays;
  }

module _ ⦃h : Host⦄ (slot : Slot) where
  -- The generation of the slot is never cancelled.
  abbrev pub Live : Type 0
  Live = (w : h.World) → (h.load_flag w slot.job.cancel).0 ≡ false
