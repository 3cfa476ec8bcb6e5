-- ===== src/Engine/Moves/Steps.antt =====
-- A step of the engine is a sequence of moves.
use llm_worker.Base.{
  ℕ, ◌+◌, ◌≤◌, ◌<◌, ◌≡◌, ◌≢◌, refl, Bool, true, false, Bool-cases, Option-cases, length, u32, Text,
  codes, List, [], ◌∷◌, none, some, inl, inr, for_range_ind, for_each, ◌==◌, if◌then◌else◌, arith,
}
use llm_worker.Engine.Types.{Job, cancelled}
use llm_worker.Engine.Host.{Host, Outcome-cases, Quiet, same, flag, time, sampled, decodes}
use llm_worker.Engine.Slot.{Slot, is_cancelled}
use llm_worker.Engine.Pool.{State, slot_at}
use llm_worker.Engine.Pool.Occupied.{slot_at-cases}
use llm_worker.Engine.Prefill.{Runtime}
use llm_worker.Engine.Moves.{Moves, next, outside, retires, fails, emits}
use llm_worker.Engine.Moves.Ready.{
  IsReady, ReadyBetween, ReadyBetween-append, ReadyBetween-widen, ReadyBetween-agree,
  slot_at-retire_ne, slot_at-fail_ne, slot_at-emit_ne,
}
use llm_worker.Engine.Step.{
  Rows, Progress, emit, gather, gather_slot, gather_row, gather_all, advance, fail_row, sample_rows,
  decode_rows, step,
}

module _ ⦃h : Host⦄ (rt : Runtime) (q₀ q : List Job) (origin : State) where
  -- What holds when the gathering loop comes to index `i`.
  pub record Gathered (i : ℕ) (p : State × Rows) : Type 0 where
    pub moves : Moves rt q₀ origin q p.0
    pub ready : ReadyBetween p.0 0 i p.1

  away : (i j : ℕ) → j < i → j ≢ i
  away i j lt = omega arith

  gather_row-Gathered :
      (i : ℕ) (st : State) (rows : Rows) (slot : Slot)
      → slot_at st i ≡ some slot
      → slot.pending ≡ none
      → Gathered i (st, rows)
      → Gathered (i + 1) (gather_row i st rows slot)
  unfolding gather_row
  gather_row-Gathered i st rows slot e free g =
      elim (Outcome-cases (h.add st.batch slot.next_input slot.n_cur slot.seq_id true)) [
        | inl (batch, p) ↦
            rw (p, gather_row)
              (record {
                moves = next g.moves (outside batch st.step_us st.world st.decoding same);
                ready =
                    ReadyBetween-append _ 0 i i _ rows
                      (ReadyBetween-agree st _ 0 i rows (λ j _ _. refl) g.ready) (omega arith)
                      (record { slot = slot; held = e; free = free });
              })
        | inr (error, p) ↦
            rw (p, gather_row)
              (record {
                moves = next g.moves (fails i error slot e free);
                ready =
                    ReadyBetween-widen _ 0 i (i + 1) rows
                      (ReadyBetween-agree st _ 0 i rows
                        (λ j _ lt. slot_at-fail_ne st i j error (away i j lt)) g.ready)
                      (omega arith);
              })
      ]

  gather_waits-Gathered :
      (i : ℕ) (st : State) (rows : Rows) (slot : Slot)
      → slot_at st i ≡ some slot
      → Gathered i (st, rows)
      → Gathered
          (i + 1)
          (elim slot.pending [ none ↦ gather_row i st rows slot | some _ ↦ (st, rows) ])
  gather_waits-Gathered i st rows slot e g = elim (Option-cases slot.pending) [
    | inl free ↦ rw free (gather_row-Gathered i st rows slot e free g)
    | inr (event, held) ↦ rw held (record {
      moves = g.moves;
      ready = ReadyBetween-widen st 0 i (i + 1) rows g.ready (omega arith);
    })
  ]

  gather_slot-Gathered :
      (i : ℕ) (st : State) (rows : Rows) (slot : Slot)
      → slot_at st i ≡ some slot
      → Gathered i (st, rows)
      → Gathered (i + 1) (gather_slot i st rows (some slot))
  unfolding gather_slot is_cancelled
  gather_slot-Gathered i st rows slot e g =
      let w = (is_cancelled slot st.world).1 in
      let st' : State = record st { world = w } in
      let g' : Gathered i (st', rows) = record {
        moves = next g.moves (outside st.batch st.step_us w st.decoding (flag _ same));
        ready = ReadyBetween-agree st st' 0 i rows (λ j _ _. refl) g.ready;
      } in
      elim (Bool-cases (is_cancelled slot st.world).0) [
        | inl gone ↦ rw gone (record {
          moves = next g'.moves (retires i cancelled);
          ready =
              ReadyBetween-widen _ 0 i (i + 1) rows
                (ReadyBetween-agree st' _ 0 i rows
                  (λ j _ lt. slot_at-retire_ne st' i j cancelled (away i j lt)) g'.ready)
                (omega arith);
        })
        | inr stays ↦ rw stays (gather_waits-Gathered i st' rows slot e g')
      ]

  pub gather-Gathered : (i : ℕ) (p : State × Rows) → Gathered i p → Gathered (i + 1) (gather i p)
  unfolding gather
  gather-Gathered i (st, rows) g = elim (slot_at-cases st i) [
    | inl e ↦ rw e (record {
      moves = g.moves;
      ready = ReadyBetween-widen st 0 i (i + 1) rows g.ready (omega arith);
    })
    | inr (slot, e) ↦ rw e (gather_slot-Gathered i st rows slot e g)
  ]

  away_above : (i j : ℕ) → i + 1 ≤ j → j ≢ i
  away_above i j le = omega arith

  -- A row is sampled: its slot gets a token, and the slots above it stay as they are.
  pub record Advanced (i : ℕ) (before after : State) : Type 0 where
    pub moves : Moves rt q₀ origin q before → Moves rt q₀ origin q after
    pub above : (j : ℕ) → i + 1 ≤ j → slot_at after j ≡ slot_at before j

  emit-Advanced :
      (i : ℕ) (st : State) (w : h.World) (slot : Slot) (s : h.Sampler) (t : h.Token)
      → slot_at st i ≡ some slot
      → slot.pending ≡ none
      → Quiet st.world w
      → Advanced i st (
          emit
            (record st { world = w })
            i
            (record slot { n_cur = u32 (slot.n_cur + 1); sampler = s })
            t)
  emit-Advanced i st w slot s t e free quiet = record {
    moves = λ m.
        next (next m (outside st.batch st.step_us w st.decoding quiet)) (emits i slot s t e free);
    above = λ j le. slot_at-emit_ne _ i j _ t (away_above i j le);
  }

  sample-Quiet :
      (first : Bool) (w : h.World) (s : h.Sampler) (row : ℕ)
      → let w₂ = (h.sample s (h.ggml_time_us w).1 row).2 in
        Quiet w (if first then (h.ggml_time_us w₂).1 else w₂)
  sample-Quiet true w s row = time (sampled s row (time same))
  sample-Quiet false w s row = sampled s row (time same)

  pub advance-Advanced :
      (i row : ℕ) (p : Progress) → IsReady p.state i → Advanced i p.state (advance (i, row) p).state
  unfolding advance
  advance-Advanced i row p ready = rw ready.held (
      emit-Advanced i p.state _ ready.slot _ _ ready.held ready.free
        (sample-Quiet (p.sampled == 0) p.state.world ready.slot.sampler row))

  pub fail_row-Advanced :
      (message : Text) (i row : ℕ) (st : State)
      → IsReady st i
      → Advanced i st (fail_row message (i, row) st)
  unfolding fail_row
  fail_row-Advanced message i row st ready = record {
    moves = λ m. next m (fails i message ready.slot ready.held ready.free);
    above = λ j le. slot_at-fail_ne st i j message (away_above i j le);
  }

  pub sample_loop :
      (rows : Rows) (lo hi : ℕ) (p : Progress)
      → ReadyBetween p.state lo hi rows
      → Moves rt q₀ origin q p.state
      → Moves rt q₀ origin q (for_each rows advance p).state
  unfolding for_each
  sample_loop [] lo hi p r m = m
  sample_loop ((i, row) ∷ rows) lo hi p r m =
      let a = advance-Advanced i row p r.1 in
      sample_loop rows (i + 1) hi (advance (i, row) p)
        (ReadyBetween-agree p.state _ (i + 1) hi rows (λ j le _. a.above j le) r.2) (a.moves m)

  pub fail_loop :
      (message : Text) (rows : Rows) (lo hi : ℕ) (st : State)
      → ReadyBetween st lo hi rows
      → Moves rt q₀ origin q st
      → Moves rt q₀ origin q (for_each rows (fail_row message) st)
  unfolding for_each
  fail_loop message [] lo hi st r m = m
  fail_loop message ((i, row) ∷ rows) lo hi st r m =
      let a = fail_row-Advanced message i row st r.1 in
      fail_loop message rows (i + 1) hi (fail_row message (i, row) st)
        (ReadyBetween-agree st _ (i + 1) hi rows (λ j le _. a.above j le) r.2) (a.moves m)

  pub decode_rows-Moves :
      (st : State) (rows : Rows) (hi : ℕ)
      → ReadyBetween st 0 hi rows
      → Moves rt q₀ origin q st
      → Moves rt q₀ origin q (decode_rows st rows).1
  unfolding decode_rows sample_rows
  decode_rows-Moves st [] hi r m = m
  decode_rows-Moves st (x ∷ rows) hi r m =
      let w₁ = (h.ggml_time_us st.world).1 in
      let w₃ = (h.ggml_time_us (h.decode w₁ st.batch).1).1 in
      let st' : State = record st { world = w₃ } in
      let r' = ReadyBetween-agree st st' 0 hi (x ∷ rows) (λ j _ _. refl) r in
      let m' = next m (outside st.batch st.step_us w₃ st.decoding (time (decodes _ (time same)))) in
      elim (Outcome-cases (h.decode w₁ st.batch).0) [
        | inl (u, e) ↦
            rw (e, decode_rows) (next (sample_loop (x ∷ rows) 0 hi _ r' m') (outside _ _ _ _ same))
        | inr (message, e) ↦
            rw (e, decode_rows) (fail_loop (codes "decode failed") (x ∷ rows) 0 hi st' r' m')
      ]

  gather_all-Gathered :
      (st : State) → Moves rt q₀ origin q st → Gathered (0 + length st.slots) (gather_all st)
  unfolding gather_all
  gather_all-Gathered st m =
      for_range_ind Gathered gather gather-Gathered (length st.slots) 0 _ (record {
        moves = next m (outside (h.clear st.batch) st.step_us st.world st.decoding same);
        ready = omega arith;
      })

  -- A step is a sequence of moves.
  pub step-Moves : (st : State) → Moves rt q₀ origin q st → Moves rt q₀ origin q (step st).1
  unfolding step
  step-Moves st m =
      let g = gather_all-Gathered st m in
      decode_rows-Moves _ _ (0 + length st.slots) g.ready g.moves
