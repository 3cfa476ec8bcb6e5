-- ===== src/Engine/Slot.antt =====
-- llm-engine/src/lib.rs: a slot, and the attempt to hand its caller the last piece.
pub mod Cases
use llm_worker.Base.{ℕ, ◌/◌, ltb, pos_part, sub_ℕ, Bool, Option, none, some, if◌then◌else◌}
use llm_worker.Engine.Types.{Event, Job}
use llm_worker.Engine.Host.{Host, sent, full, closed}

-- 30 s, in nanoseconds.
abbrev pub stall_timeout : ℕ
stall_timeout = 30_000_000_000

pub data Flush : Type 0 where
  ready stalled abandoned : Flush

module _ ⦃h : Host⦄ where
  open h use {World, Token, Sampler, Decoder, try_send, load_flag, ggml_time_us, instant_now}

  -- `n_cur` is an `i32`, held as its bit pattern; `started_us` is a reading of `ggml_time_us`.
  pub record Slot : Type 0 where
    pub job : Job
    pub sampler : Sampler
    pub decoder : Decoder
    pub seq_id : ℕ
    pub n_cur : ℕ
    pub next_input : Token
    pub prompt_tokens : ℕ
    pub n_decoded : ℕ
    pub budget : ℕ
    pub context_bound : Bool
    pub started_us : ℕ
    pub pending : Option Event
    pub stalled_since : Option ℕ

  -- The instant at which the stall began, which is now if the slot was not stalled.
  unfoldable pub stall_start : Option ℕ → World → ℕ × World
  stall_start (some since) w = (since, w)
  stall_start none w = instant_now w

  -- The channel is full: the piece goes back, and the wait is measured.
  unfoldable pub stall : Slot → Event → World → Flush × Slot × World
  unfolding stall_start
  stall slot event w =
      let (since, w₁) = stall_start slot.stalled_since w in
      let (now, w₂) = instant_now w₁ in
      let late = ltb stall_timeout (pos_part (sub_ℕ now since)) in
      let slot' = record slot { pending = some event; stalled_since = some since } in
      (if late then abandoned else stalled, slot', w₂)

  unfoldable pub flush_event : Option Event → Slot → World → Flush × Slot × World
  unfolding stall
  flush_event none slot w = (ready, slot, w)
  flush_event (some event) slot w =
      let (outcome, w') = try_send w slot.job.events event in
      elim outcome [
        | sent ↦ (ready, record slot { pending = none; stalled_since = none }, w')
        | full ↦ stall slot event w'
        | closed ↦ (abandoned, record slot { pending = none }, w')
      ]

  unfoldable pub flush : Slot → World → Flush × Slot × World
  unfolding flush_event
  flush slot w = flush_event slot.pending slot w

  unfoldable pub is_cancelled : Slot → World → Bool × World
  is_cancelled slot w = load_flag w slot.job.cancel

  unfoldable pub elapsed_ms : Slot → World → ℕ × World
  elapsed_ms slot w =
      let (now, w') = ggml_time_us w in (pos_part (sub_ℕ now slot.started_us) / 1000, w')
