-- ===== src/Engine/Ledger.antt =====
-- The terminal events of one channel: owed for a queued request and for a slot, in the outbox, and
-- accepted by the channel.
pub mod Sums
pub mod Ends
pub mod Kept
use llm_worker.Base.{ℕ, ◌+◌, ◌≡◌, ◌≢◌, ◌==◌, List, [], ◌∷◌, Option, none, some, if◌then◌else◌}
use llm_worker.Engine.Types.{Event, Job, token, done, failed}
use llm_worker.Engine.Host.{Host, ChannelLaws, closed}
use llm_worker.Engine.Slot.{Slot}
use llm_worker.Engine.Pool.{State}

-- 1 for the event that ends a generation, 0 for a piece of text.
abbrev pub terminal : Event → ℕ
terminal (token text) = 0
terminal (done stop prompt_tokens tokens ms) = 1
terminal (failed error) = 1

abbrev pub tally : List Event → ℕ
tally [] = 0
tally (e ∷ es) = terminal e + tally es

abbrev pub pending_tally : Option Event → ℕ
pending_tally none = 0
pending_tally (some e) = terminal e

-- `n` if the channel is `c`.
abbrev pub on : ℕ → ℕ → ℕ → ℕ
on c d n = if d == c then n else 0

abbrev pub waiting_for : ℕ → List Job → ℕ
waiting_for c [] = 0
waiting_for c (job ∷ jobs) = on c job.events 1 + waiting_for c jobs

abbrev pub owed : ℕ → List (ℕ × Event) → ℕ
owed c [] = 0
owed c ((d, e) ∷ rest) = on c d (terminal e) + owed c rest

module _ ⦃h : Host⦄ where
  -- A slot owes its caller one terminal event, behind the piece that it holds.
  abbrev pub due : ℕ → Slot → ℕ
  due c slot = on c slot.job.events (1 + pending_tally slot.pending)

  abbrev pub holding : ℕ → List (Option Slot) → ℕ
  holding c [] = 0
  holding c (none ∷ rest) = holding c rest
  holding c (some slot ∷ rest) = due c slot + holding c rest

  -- The terminal events of channel `c`, still to come and accepted.
  abbrev pub ledger : ChannelLaws h → ℕ → List Job → State → ℕ
  ledger laws c jobs st =
      waiting_for c jobs + holding c st.slots + owed c st.outbox + tally (laws.received st.world c)

  -- The caller never drops its end.
  abbrev pub IsOpen : ℕ → Type 0
  IsOpen c = (w : h.World) (e : Event) → (h.try_send w c e).0 ≢ closed
