-- ===== src/Engine/Cancelled.antt =====
-- A generation whose cancel flag is set, when a step comes to its slot.
use llm_worker.Base.{ℕ, ◌<◌, ◌≤◌, ◌≡◌, true, List, ◌++◌, ◌⊎◌, none}
use llm_worker.Engine.Types.{Event, cancelled}
use llm_worker.Engine.Host.{Host}
use llm_worker.Engine.Slot.{Slot, is_cancelled}
use llm_worker.Engine.Pool.{State, slot_at, last_piece, farewell}
use llm_worker.Engine.Step.{Rows}
use llm_worker.Engine.Step.Others.{Stays, Gathered}

module _ ⦃h : Host⦄ (j : ℕ) (slot : Slot) where
  -- What the caller of a cancelled generation is owed.
  abbrev pub last_words : ℕ → List (ℕ × Event)
  last_words ms = last_piece slot ++ farewell slot cancelled ms

  -- Slot `j` is free, and its caller is owed the piece that waited and the end of a cancelled generation.
  pub record GivenUp (st : State) : Type 0 where
    pub free : slot_at st j ≡ none
    pub ms : ℕ
    pub before : List (ℕ × Event)
    pub later : List (ℕ × Event)
    pub owed : st.outbox ≡ before ++ last_words ms ++ later

  -- The slot's cancel flag is set.
  abbrev pub Flagged : Type 0
  Flagged = (w : h.World) → (h.load_flag w slot.job.cancel).0 ≡ true

  module _ (flagged : Flagged) where
    abbrev looked : State → State
    looked st = record st { world = (is_cancelled slot st.world).1 }

    -- Before the step comes to the slot, and behind it.
    abbrev Passed : ℕ → State × Rows → Type 0
    Passed i p = ((i ≤ j) × Gathered j (Stays j slot) p) ⊎ ((j < i) × Gathered j GivenUp p)
