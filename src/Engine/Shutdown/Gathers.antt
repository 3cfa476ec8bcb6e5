-- ===== src/Engine/Shutdown/Gathers.antt =====
-- The slots that a step finds ready: there is one, or the gathering took some work away.
use llm_worker.Base.{
  ℕ, suc, ◌+◌, ◌^◌, ◌≤◌, ◌<◌, ◌≡◌, ◌≢◌, refl, ap, sym, ◌∙◌, ◌⊎◌, Bool-cases, Option-cases, true,
  false, inl, inr, List, [], ◌∷◌, ◌++◌, Option, none, some, length, arith,
}
use llm_worker.Engine.Types.{Job, cancelled}
use llm_worker.Engine.Host.{Host, Outcome-cases}
use llm_worker.Engine.Slot.{Slot, is_cancelled}
use llm_worker.Engine.Pool.{State, slot_at, occupied}
use llm_worker.Engine.Pool.Occupied.{entry, slot_at-cases}
use llm_worker.Engine.Prefill.{Runtime}
use llm_worker.Engine.Prefill.Fits.{Fits}
use llm_worker.Engine.Admit.{is_empty}
use llm_worker.Engine.Step.{Rows, gather, gather_slot, gather_row}
use llm_worker.Engine.Window.{AllFit}
use llm_worker.Engine.Moves.{Moves, here}
use llm_worker.Engine.Moves.Steps.{Gathered, gather-Gathered}
use llm_worker.Engine.Shutdown.{AllRead, work}
use llm_worker.Engine.Shutdown.Spends.{retire-less, fail-less}
use llm_worker.Engine.Shutdown.Runs.{Moves-Lasts}

module _ ⦃h : Host⦄ where
  -- No slot waits for its caller.
  abbrev pub AllClear : State → Type 0
  AllClear st = (i : ℕ) (slot : Slot) → slot_at st i ≡ some slot → slot.pending ≡ none

  pub none-occupied :
      (slots : List (Option Slot))
      → ((j : ℕ) → j < length slots → entry slots j ≡ none)
      → occupied slots ≡ 0
  none-occupied [] free = refl
  none-occupied (none ∷ rest) free = none-occupied rest (λ j lt. free (suc j) (omega (arith, lt)))
  none-occupied (some s ∷ rest) free = absurd (taken (free 0 (omega arith)))
    where
      taken : {s : Slot} → some s ≢ none
      taken = λ e. cc

module _ ⦃h : Host⦄ (rt : Runtime) (small : rt.n_ctx < 2 ^ 32) (reads : AllRead)
    (q : List Job) where
  -- A run that begins and ends with the queue adds nothing.
  pub run-less : {s s' : State} → AllFit rt s → Moves rt q s q s' → work q s' ≤ work q s
  run-less fit moves = (Moves-Lasts rt small reads moves fit).less

  -- An occupied slot that waits for nobody is ended, or gets a row.
  met :
      (i : ℕ) (st : State) (rows : Rows) (slot : Slot)
      → slot_at st i ≡ some slot
      → slot.pending ≡ none
      → Fits rt i slot
      → (work q (gather_slot i st rows (some slot)).0 < work q st)
        ⊎ (is_empty (gather_slot i st rows (some slot)).1 ≡ false)
  unfolding gather_slot gather_row is_cancelled
  met i st rows slot at free f =
      let st' : State = record st { world = (is_cancelled slot st.world).1 } in
      elim (Bool-cases (is_cancelled slot st.world).0) [
        | inl gone ↦ inl (rw gone (retire-less rt q st' i cancelled slot at f))
        | inr stays ↦
            elim (Outcome-cases (h.add st.batch slot.next_input slot.n_cur slot.seq_id true)) [
              | inl (batch, p) ↦
                  inr (rw (stays, free, p, gather_row) (grown rows (i, h.n_tokens st.batch)))
              | inr (error, p) ↦
                  inl (rw (stays, free, p, gather_row) (fail-less rt q st' i error slot at f))
            ]
      ]
    where
      grown : (rows : Rows) (x : ℕ × ℕ) → is_empty (rows ++ x ∷ []) ≡ false
      grown [] x = refl
      grown (y ∷ rows) x = refl

  -- A row that is there stays.
  gather-row_stays :
      (i : ℕ) (st : State) (rows : Rows)
      → is_empty rows ≡ false
      → is_empty (gather i (st, rows)).1 ≡ false
  unfolding gather gather_slot gather_row is_cancelled
  gather-row_stays i st [] e = cc
  gather-row_stays i st (x ∷ rows) e = elim (slot_at-cases st i) [
    | inl none_at ↦ rw none_at refl
    | inr (slot, at) ↦ elim (Bool-cases (is_cancelled slot st.world).0) [
      | inl gone ↦ rw (at, gone) refl
      | inr stays ↦ elim (Option-cases slot.pending) [
        | inr (event, waits) ↦ rw (at, stays, waits) refl
        | inl free ↦
            elim (Outcome-cases (h.add st.batch slot.next_input slot.n_cur slot.seq_id true)) [
              | inl (batch, p) ↦ rw (at, stays, free, p, gather_row) refl
              | inr (error, p) ↦ rw (at, stays, free, p, gather_row) refl
            ]
      ]
    ]
  ]

  module _ (origin : State) (fit : AllFit rt origin) (clear : AllClear origin) where
    -- When the gathering loop comes to `i`: some work is gone, or there is a row, or no slot so far was
    -- occupied.
    pub record Seen (i : ℕ) (p : State × Rows) : Type 0 where
      pub gathered : Gathered rt q q origin i p
      pub found :
          (work q p.0 < work q origin)
          ⊎ ((is_empty p.1 ≡ false)
              ⊎ ((p.0.slots ≡ origin.slots) × ((j : ℕ) → j < i → slot_at origin j ≡ none)))

    gather-found :
        (i : ℕ) (p : State × Rows)
        → Seen i p
        → let p' = gather i p in
          (work q p'.0 < work q origin)
          ⊎ ((is_empty p'.1 ≡ false)
              ⊎ ((p'.0.slots ≡ origin.slots) × ((j : ℕ) → j < i + 1 → slot_at origin j ≡ none)))
    unfolding gather
    gather-found i (st, rows) s =
        let so_far = Moves-Lasts rt small reads s.gathered.moves fit in
        let further =
          gather-Gathered rt q q st i (st, rows)
            (record { moves = here; ready = s.gathered.ready }) in
        elim s.found [
          | inl less ↦ inl (omega (arith, less, run-less so_far.fit further.moves))
          | inr (inl some_row) ↦ inr (inl (gather-row_stays i st rows some_row))
          | inr (inr (same, free)) ↦ elim (slot_at-cases st i) [
            | inl none_at ↦ rw none_at (
                inr (
                  inr (
                    same,
                    λ j lt. elim (below i j lt) [
                      | inl before ↦ free j before
                      | inr at_i ↦
                          ap (slot_at origin) at_i
                          ∙ ap (λ slots. entry slots i) (sym same)
                          ∙ none_at
                    ],
                  )))
            | inr (slot, at) ↦
                let at_origin : slot_at origin i ≡ some slot =
                  ap (λ slots. entry slots i) (sym same) ∙ at in
                rw at
                  (elim (met i st rows slot at (clear i slot at_origin) (fit i slot at_origin)) [
                    | inl less ↦ inl (omega (arith, less, so_far.less))
                    | inr some_row ↦ inr (inl some_row)
                  ])
          ]
        ]
      where
        below : (i j : ℕ) → j < i + 1 → (j < i) ⊎ (j ≡ i)
        below i j lt = ground arith

    pub gather-Seen : (i : ℕ) (p : State × Rows) → Seen i p → Seen (i + 1) (gather i p)
    gather-Seen i p s = record {
      gathered = gather-Gathered rt q q origin i p s.gathered;
      found = gather-found i p s;
    }
