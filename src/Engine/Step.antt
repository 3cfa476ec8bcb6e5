-- ===== src/Engine/Step.antt =====
-- llm-engine/src/lib.rs: `Runtime::step`, one decode across the ready slots and one token each.
pub mod Cases
pub mod Others
pub mod Ready
use llm_worker.Base.{
  ℕ, ◌+◌, leb, ◌==◌, u32, ℤ, pos, sub_ℕ, ◌+ℤ◌, Text, codes, true, List, [], ◌∷◌, ◌++◌, Option, none,
  some, length, set, for_range, for_each, if◌then◌else◌,
}
use llm_worker.Engine.Types.{token, cancelled, end_of_generation, context_full, limit}
use llm_worker.Engine.Host.{Host, ok, err}
use llm_worker.Engine.Slot.{Slot, is_cancelled}
use llm_worker.Engine.Pool.{State, slot_at, retire, fail}

pub data Step : Type 0 where
  decoded idle : Step

module _ ⦃h : Host⦄ where
  open h use {
    Float, clear, add, n_tokens, decode, sample, accept, is_eog_token, token_to_piece, ggml_time_us,
    f64_zero, f64_eq, f64_of, f64_mul, mul_add, seven_tenths, three_tenths,
  }

  -- Slots in the batch, each with its row.
  abbrev pub Rows : Type 0
  Rows = List (ℕ × ℕ)

  unfoldable pub gather_row : ℕ → State → Rows → Slot → State × Rows
  gather_row index st rows slot = elim (add st.batch slot.next_input slot.n_cur slot.seq_id true) [
    | ok batch ↦ (record st { batch = batch }, rows ++ (index, n_tokens st.batch) ∷ [])
    | err error ↦ (fail st index error, rows)
  ]

  -- The first loop's body: a cancelled slot is given back, one that waits on its caller is left out.
  unfoldable pub gather_slot : ℕ → State → Rows → Option Slot → State × Rows
  unfolding gather_row
  gather_slot index st rows none = (st, rows)
  gather_slot index st rows (some slot) =
      let (gone, w) = is_cancelled slot st.world in
      let st' = record st { world = w } in
      let waits : State × Rows = elim slot.pending [
        | none ↦ gather_row index st' rows slot
        | some _ ↦ (st', rows)
      ] in
      if gone then (retire st' index cancelled, rows) else waits

  unfoldable pub gather : ℕ → State × Rows → State × Rows
  unfolding gather_slot
  gather index (st, rows) = gather_slot index st rows (slot_at st index)

  -- The second loop's state: the wait for the first logits, and how many slots were sampled.
  pub record Progress : Type 0 where
    pub state : State
    pub gpu_us : ℤ
    pub sampled : ℕ

  abbrev pub write_slot : State → ℕ → Slot → State
  write_slot st index slot = record st { slots = set st.slots index (some slot) }

  -- A token that goes on: it is the next input and the next piece; at the budget the slot is done.
  unfoldable pub extend : State → ℕ → Slot → h.Token → h.Decoder → Text → State
  extend st index slot next decoder text =
      let slot' = record slot {
        next_input = next;
        decoder = decoder;
        n_decoded = u32 (slot.n_decoded + 1);
        pending = some (token text);
      } in
      let st' = write_slot st index slot' in
      let stop = if slot.context_bound then context_full else limit in
      if leb slot.budget (u32 (slot.n_decoded + 1)) then retire st' index stop else st'

  -- What follows a sampled token.
  unfoldable pub emit : State → ℕ → Slot → h.Token → State
  unfolding extend
  emit st index slot next =
      let (piece, decoder) = token_to_piece next slot.decoder in
      let go_on : State = elim piece [
        | err error ↦ fail (write_slot st index slot) index error
        | ok text ↦ extend st index slot next decoder text
      ] in
      if is_eog_token next then retire (write_slot st index slot) index end_of_generation else go_on

  unfoldable pub advance_slot : ℕ → ℕ → Progress → Option Slot → Progress
  unfolding emit
  advance_slot index row p none = p
  advance_slot index row p (some slot) =
      let st = p.state in
      let (started, w₁) = ggml_time_us st.world in
      let (next, sampler, w₂) = sample slot.sampler w₁ row in
      let (now, w₃) = ggml_time_us w₂ in
      let first = p.sampled == 0 in
      let slot' = record slot { n_cur = u32 (slot.n_cur + 1); sampler = accept sampler next } in
      record {
        state = emit (record st { world = if first then w₃ else w₂ }) index slot' next;
        gpu_us = if first then sub_ℕ now started else p.gpu_us;
        sampled = p.sampled + 1;
      }

  unfoldable pub advance : ℕ × ℕ → Progress → Progress
  unfolding advance_slot
  advance (index, row) p = advance_slot index row p (slot_at p.state index)

  unfoldable pub smooth : Float → ℤ → Float
  smooth step_us cost =
      if f64_eq step_us f64_zero
      then f64_of cost
      else mul_add step_us seven_tenths (f64_mul (f64_of cost) three_tenths)

  unfoldable pub fail_row : Text → ℕ × ℕ → State → State
  fail_row message (index, row) st = fail st index message

  unfoldable pub sample_rows : State → Rows → ℤ → State
  unfolding advance smooth for_each
  sample_rows st rows enqueue_us =
      let p = for_each rows advance (record { state = st; gpu_us = pos 0; sampled = 0 }) in
      let st' = p.state in record st' { step_us = smooth st'.step_us (enqueue_us +ℤ p.gpu_us) }

  unfoldable pub decode_rows : State → Rows → Step × State
  unfolding fail_row for_each
  decode_rows st [] = (idle, st)
  decode_rows st (r ∷ rows) =
      let (enqueued, w₁) = ggml_time_us st.world in
      let (outcome, w₂) = decode w₁ st.batch in
      let (now, w₃) = ggml_time_us w₂ in
      let st' = record st { world = w₃ } in
      elim outcome [
        | err _ ↦ (decoded, for_each (r ∷ rows) (fail_row (codes "decode failed")) st')
        | ok _ ↦ (decoded, sample_rows st' (r ∷ rows) (sub_ℕ now enqueued))
      ]

  unfoldable pub gather_all : State → State × Rows
  unfolding gather for_range
  gather_all st = for_range (length st.slots) 0 gather (record st { batch = clear st.batch }, [])

  unfoldable pub step : State → Step × State
  unfolding gather_all
  step st = let (st', rows) = gather_all st in decode_rows st' rows
