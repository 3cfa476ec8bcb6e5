-- ===== src/Engine/Isolation.antt =====
-- A slot that waits on its caller while the others go on.
use llm_worker.Base.{ℕ, ◌≡◌, some}
use llm_worker.Engine.Types.{Event}
use llm_worker.Engine.Host.{Host}
use llm_worker.Engine.Slot.{Slot, is_cancelled}
use llm_worker.Engine.Pool.{State}
use llm_worker.Engine.Step.Others.{Live}

module _ ⦃h : Host⦄ (j : ℕ) (slot : Slot) where
  module _ (event : Event) (waits : slot.pending ≡ some event) (live : Live slot) where
    abbrev pub looked : State → State
    looked st = record st { world = (is_cancelled slot st.world).1 }
