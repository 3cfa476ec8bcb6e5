-- ===== src/Engine/Shutdown/Steps.antt =====
-- A step with an occupied slot, all of them clear, takes some of the work away.
use llm_worker.Base.{
  ℕ, ◌+◌, ◌^◌, ◌≤◌, ◌<◌, ◌≡◌, refl, false, inl, inr, Text, codes, pos, List, [], ◌∷◌, length,
  for_range_ind, for_each, arith,
}
use llm_worker.Engine.Types.{Job}
use llm_worker.Engine.Host.{Host, Outcome-cases}
use llm_worker.Engine.Pool.{State, active}
use llm_worker.Engine.Prefill.{Runtime}
use llm_worker.Engine.Admit.{is_empty}
use llm_worker.Engine.Step.{
  Rows, Progress, gather, gather_all, advance, advance_slot, fail_row, sample_rows, decode_rows,
  step,
}
use llm_worker.Engine.Window.{AllFit}
use llm_worker.Engine.Moves.{here}
use llm_worker.Engine.Moves.Ready.{IsReady, ReadyBetween, ReadyBetween-agree}
use llm_worker.Engine.Moves.Steps.{
  advance-Advanced, fail_row-Advanced, sample_loop, fail_loop, decode_rows-Moves,
}
use llm_worker.Engine.Shutdown.{AllRead, work}
use llm_worker.Engine.Shutdown.Spends.{emit-less, fail-less}
use llm_worker.Engine.Shutdown.Runs.{Moves-Lasts}
use llm_worker.Engine.Shutdown.Gathers.{AllClear, none-occupied, run-less, Seen, gather-Seen}

module _ ⦃h : Host⦄ (rt : Runtime) (small : rt.n_ctx < 2 ^ 32) (reads : AllRead)
    (q : List Job) where
  advance-less :
      (i row : ℕ) (p : Progress)
      → IsReady p.state i
      → AllFit rt p.state
      → work q (advance (i, row) p).state < work q p.state
  unfolding advance advance_slot
  advance-less i row p ready fit = rw ready.held (
      emit-less rt q (record p.state { world = _ }) i ready.slot _ _ small ready.held ready.free
        (fit i ready.slot ready.held))

  fail_row-less :
      (message : Text) (i row : ℕ) (st : State)
      → IsReady st i
      → AllFit rt st
      → work q (fail_row message (i, row) st) < work q st
  unfolding fail_row
  fail_row-less message i row st ready fit =
      fail-less rt q st i message ready.slot ready.held (fit i ready.slot ready.held)

  -- The first row is sampled or failed, the others add nothing.
  sampled-less :
      (i row : ℕ) (rows : Rows) (hi : ℕ) (p : Progress)
      → ReadyBetween p.state 0 hi ((i, row) ∷ rows)
      → AllFit rt p.state
      → work q (for_each ((i, row) ∷ rows) advance p).state < work q p.state
  unfolding for_each
  sampled-less i row rows hi p r fit =
      let a = advance-Advanced rt q q p.state i row p r.1 in
      let first = advance (i, row) p in
      let others =
        sample_loop rt q q first.state rows (i + 1) hi first
          (ReadyBetween-agree p.state first.state (i + 1) hi rows (λ j le _. a.above j le) r.2)
          here in
      let so_far = Moves-Lasts rt small reads (a.moves here) fit in
      omega (arith, advance-less i row p r.1 fit, run-less rt small reads q so_far.fit others)

  failed-less :
      (message : Text) (i row : ℕ) (rows : Rows) (hi : ℕ) (st : State)
      → ReadyBetween st 0 hi ((i, row) ∷ rows)
      → AllFit rt st
      → work q (for_each ((i, row) ∷ rows) (fail_row message) st) < work q st
  unfolding for_each
  failed-less message i row rows hi st r fit =
      let a = fail_row-Advanced rt q q st message i row st r.1 in
      let first = fail_row message (i, row) st in
      let others =
        fail_loop rt q q first message rows (i + 1) hi first
          (ReadyBetween-agree st first (i + 1) hi rows (λ j le _. a.above j le) r.2) here in
      let so_far = Moves-Lasts rt small reads (a.moves here) fit in
      omega
        (arith, fail_row-less message i row st r.1 fit, run-less rt small reads q so_far.fit others)

  decode_rows-less :
      (st : State) (rows : Rows) (hi : ℕ)
      → is_empty rows ≡ false
      → ReadyBetween st 0 hi rows
      → AllFit rt st
      → work q (decode_rows st rows).1 < work q st
  unfolding decode_rows sample_rows
  decode_rows-less st [] hi e r fit = cc
  decode_rows-less st ((i, row) ∷ rows) hi e r fit =
      let w₁ = (h.ggml_time_us st.world).1 in
      let w₃ = (h.ggml_time_us (h.decode w₁ st.batch).1).1 in
      let st' : State = record st { world = w₃ } in
      let r' = ReadyBetween-agree st st' 0 hi ((i, row) ∷ rows) (λ j _ _. refl) r in
      elim (Outcome-cases (h.decode w₁ st.batch).0) [
        | inl (u, p) ↦
            rw (p, decode_rows)
              (sampled-less i row rows hi (record { state = st'; gpu_us = pos 0; sampled = 0 }) r'
                fit)
        | inr (message, p) ↦
            rw (p, decode_rows) (failed-less (codes "decode failed") i row rows hi st' r' fit)
      ]

  pub step-less :
      (st : State) → 1 ≤ active st → AllClear st → AllFit rt st → work q (step st).1 < work q st
  unfolding step gather_all
  step-less st some_slot clear fit =
      let origin : State = record st { batch = h.clear st.batch } in
      let s =
        for_range_ind (Seen rt small reads q origin fit clear) gather
          (gather-Seen rt small reads q origin fit clear) (length st.slots) 0 (origin, [])
          (record {
            gathered = record { moves = here; ready = omega arith };
            found = inr (inr (refl, λ j lt. absurd (omega (arith, lt))));
          }) in
      let p = gather_all st in
      let so_far = Moves-Lasts rt small reads s.gathered.moves fit in
      let hi = 0 + length st.slots in
      elim s.found [
        | inl less ↦ omega (
          arith,
          less,
          run-less rt small reads q so_far.fit
              (decode_rows-Moves rt q q p.0 p.0 p.1 hi s.gathered.ready here),
        )
        | inr (inl some_row) ↦
            omega
              (arith, so_far.less, decode_rows-less p.0 p.1 hi some_row s.gathered.ready so_far.fit)
        | inr (inr (same, free)) ↦
            absurd (
              omega (arith, some_slot, none-occupied st.slots (λ j lt. free j (omega (arith, lt)))))
      ]
