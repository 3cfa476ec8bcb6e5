-- ===== src/Engine/Stream.antt =====
-- The events of one caller over a run of the loop: what a channel whose caller reads in time has been
-- given, with what waits for it in the outbox.
pub mod Same
pub mod Leaves
pub mod Emits
pub mod Flushes
pub mod Takes
pub mod Goes
pub mod Runs
use llm_worker.Base.{ℕ, ◌+◌, ◌≤◌, ◌≡◌, max, Text, List, [], ◌∷◌, ◌++◌, map, length, some}
use llm_worker.Engine.Types.{Event, Job, token, done, failed}
use llm_worker.Engine.Host.{Host, ChannelLaws}
use llm_worker.Engine.Slot.{Slot}
use llm_worker.Engine.Pool.{State, slot_at}
use llm_worker.Engine.Prefill.Fits.{asked}
use llm_worker.Engine.Ledger.{tally, holding, ledger}
use llm_worker.Engine.Ordered.{events_for, held_events}

-- The event ends a generation that gave these texts. A `Done` counts them: two at most, or `limit`.
abbrev pub Counts : ℕ → Event → List Text → Type 0
Counts limit (token text) texts = ⊥
Counts limit (done stop prompt_tokens tokens ms) texts =
    (tokens ≡ length texts) × (length texts ≤ max 2 limit)
Counts limit (failed error) texts = Unit {0}

-- Tokens, and then one event that ends them.
pub record Ended (limit : ℕ) (trace : List Event) : Type 0 where
  pub texts : List Text
  pub last : Event
  pub shape : trace ≡ map token texts ++ last ∷ []
  pub counted : Counts limit last texts

module _ ⦃h : Host⦄ where
  -- Tokens only, the slot's piece with them, and the slot counts them.
  pub record Running (limit : ℕ) (slot : Slot) (trace : List Event) : Type 0 where
    pub texts : List Text
    pub shape : trace ++ held_events slot.pending ≡ map token texts
    pub counted : slot.n_decoded ≡ length texts
    pub short : length texts ≤ max 2 limit
    pub asks : asked slot.job ≤ limit

  module _ (laws : ChannelLaws h) (c : ℕ) where
    abbrev pub trace : State → List Event
    trace st = laws.received st.world c ++ events_for c st.outbox

    -- At most one request uses the channel. Before it has a slot nothing is sent; while it has one,
    -- its tokens are sent one after another; then one event ends them.
    pub record Streams (limit : ℕ) (q : List Job) (st : State) : Type 0 where
      pub one : ledger laws c q st ≤ 1
      pub silent : holding c st.slots ≡ 0 → tally (trace st) ≡ 0 → trace st ≡ []
      pub runs :
          (i : ℕ) (slot : Slot)
          → slot_at st i ≡ some slot
          → slot.job.events ≡ c
          → Running limit slot (trace st) × (events_for c st.outbox ≡ [])
      pub over : tally (trace st) ≡ 1 → Ended limit (trace st)
