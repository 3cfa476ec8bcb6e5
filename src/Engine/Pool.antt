-- ===== src/Engine/Pool.antt =====
-- llm-engine/src/lib.rs: what the engine loop carries between steps, and how a slot is given back.
pub mod Occupied
pub mod Release
use llm_worker.Base.{
  ℕ, ◌+◌, Text, decrement, List, [], ◌∷◌, ◌++◌, Option, none, some, get_elem?, set,
}
use llm_worker.Engine.Types.{Event, Stop, done, failed}
use llm_worker.Engine.Host.{Host}
use llm_worker.Engine.Slot.{Slot, elapsed_ms}

module _ ⦃h : Host⦄ where
  open h use {World, Batch, Float, clear_kv_cache_seq}

  -- The `Pool`, with the world and the two meters that the engine shares with its callers.
  pub record State : Type 0 where
    pub slots : List (Option Slot)
    pub outbox : List (ℕ × Event)
    pub batch : Batch
    pub step_us : Float
    pub world : World
    pub inflight : ℕ
    pub decoding : ℕ

  -- Occupied slots.
  abbrev pub occupied : List (Option Slot) → ℕ
  occupied [] = 0
  occupied (none ∷ rest) = occupied rest
  occupied (some slot ∷ rest) = occupied rest + 1

  abbrev pub active : State → ℕ
  active st = occupied st.slots

  -- `slots[index].as_ref()`, where an index out of range does not occur.
  abbrev pub slot_at : State → ℕ → Option Slot
  slot_at st index = elim (get_elem? st.slots index) [ none ↦ none | some entry ↦ entry ]

  abbrev pub push_outbox : State → List (ℕ × Event) → State
  push_outbox st events = record st { outbox = st.outbox ++ events }

  -- The slot is taken, its sequence is cleared and the count falls.
  abbrev pub release : State → ℕ → Slot → World → State
  release st index slot w = record st {
    slots = set st.slots index none;
    world = clear_kv_cache_seq w slot.seq_id;
    inflight = decrement st.inflight;
  }

  -- The piece that the slot still holds, if any.
  abbrev pub last_piece : Slot → List (ℕ × Event)
  last_piece slot = elim slot.pending [ none ↦ [] | some event ↦ (slot.job.events, event) ∷ [] ]

  abbrev pub farewell : Slot → Stop → ℕ → List (ℕ × Event)
  farewell slot stop ms = (slot.job.events, done stop slot.prompt_tokens slot.n_decoded ms) ∷ []

  unfoldable pub retire_slot : State → ℕ → Stop → Option Slot → State
  retire_slot st index stop none = st
  retire_slot st index stop (some slot) =
      let (ms, w) = elapsed_ms slot st.world in
      push_outbox (release st index slot w) (last_piece slot ++ farewell slot stop ms)

  unfoldable pub retire : State → ℕ → Stop → State
  unfolding retire_slot elapsed_ms
  retire st index stop = retire_slot st index stop (slot_at st index)

  unfoldable pub fail_slot : State → ℕ → Text → Option Slot → State
  fail_slot st index error none = st
  fail_slot st index error (some slot) =
      push_outbox (release st index slot st.world) ((slot.job.events, failed error) ∷ [])

  unfoldable pub fail : State → ℕ → Text → State
  unfolding fail_slot
  fail st index error = fail_slot st index error (slot_at st index)
