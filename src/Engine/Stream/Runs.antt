-- ===== src/Engine/Stream/Runs.antt =====
-- A whole run of the loop, for one caller.
use llm_worker.Base.{
  ◌<◌, ◌^◌, ℕ, ◌+◌, ◌≤◌, ◌≡◌, ap, ◌∙◌, subst, inl, inr, Bool, true, List, [], ◌∷◌, ◌++◌, append-nil,
  arith,
}
use llm_worker.Engine.Types.{Job}
use llm_worker.Engine.Host.{Host, ChannelLaws}
use llm_worker.Engine.Pool.{State}
use llm_worker.Engine.Prefill.{Runtime}
use llm_worker.Engine.Window.{AllFit}
use llm_worker.Engine.Serve.{serve}
use llm_worker.Engine.Exit.{Emptied, round-left, round-closed}
use llm_worker.Engine.Ledger.{tally, holding, waiting_for, ledger}
use llm_worker.Engine.Ordered.{events_for, Accepting}
use llm_worker.Engine.Stream.{Streams, Ended, trace}
use llm_worker.Engine.Stream.Same.{due_pos, due-le-holding, owed_lem}
use llm_worker.Engine.Terminals.{Ends, arrivals, serve-next, serve-ledger, Emptied-append}
use llm_worker.Engine.Stream.Goes.{Asks, AllAsk, Accepting-IsOpen, serve-Going}

module _ ⦃h : Host⦄ (rt : Runtime) (laws : ChannelLaws h) (c : ℕ) (reads : Accepting laws c) where
  -- When the loop is left, the outbox is empty.
  serve-delivered :
      (later : List (List Job × Bool)) (gone was_closed : Bool) (jobs : List Job) (st : State)
      → Ends gone later
      → (was_closed ≡ true → Emptied gone jobs)
      → (serve rt later was_closed jobs st).0 ≡ true
      → (serve rt later was_closed jobs st).2.outbox ≡ []
  unfolding serve
  serve-delivered [] gone was_closed jobs st ends before e = cc
  serve-delivered ((new, no_senders) ∷ later) gone was_closed jobs st ends before e =
      let before' : was_closed ≡ true → Emptied no_senders (jobs ++ new) = λ shut.
        Emptied-append rt laws c (Accepting-IsOpen rt laws c reads) gone no_senders jobs new ends.0
          (before shut) in
      elim (serve-next rt new no_senders later was_closed jobs st) [
        | inl (at_end, same) ↦
            rw same (round-left rt was_closed no_senders (jobs ++ new) _ before' at_end).1.no_events
        | inr same ↦ rw same (
            serve-delivered later no_senders _ _ _ ends.1
              (round-closed rt was_closed no_senders (jobs ++ new) _ before') (rw same at e))
      ]

  -- The channel has nothing at work, and has been given nothing.
  pub record Unused (jobs : List Job) (st : State) : Type 0 where
    pub no_slot_of : holding c st.slots ≡ 0
    pub none_owed : events_for c st.outbox ≡ []
    pub none_got : laws.received st.world c ≡ []

  Unused-ledger :
      (jobs : List Job) (st : State) → Unused jobs st → ledger laws c jobs st ≡ waiting_for c jobs
  Unused-ledger jobs st u =
      omega (arith, u.no_slot_of, owed_lem c st.outbox, ap tally u.none_owed, ap tally u.none_got)

  Unused-Streams :
      {limit : ℕ} (jobs : List Job) (st : State)
      → Unused jobs st
      → ledger laws c jobs st ≤ 1
      → Streams laws c limit jobs st
  Unused-Streams {limit} jobs st u fits =
      let nothing : trace laws c st ≡ [] = rw (u.none_got) u.none_owed in
      record {
        one = fits;
        silent = λ _ _. nothing;
        runs = λ i slot at own.
            absurd (
              omega (arith, u.no_slot_of, due_pos c slot own, due-le-holding c st.slots i slot at));
        over = λ ended. absurd (omega (arith, ended, ap tally nothing));
      }

  -- The caller of the channel reads in time, and one request for it, which asks for `limit` tokens at
  -- most, is in the queue or arrives; the channel is not in use at the start, the slots that are taken fit the
  -- context, which has under 2^32 tokens, nothing arrives after the last sender is gone, and a queue that
  -- was found closed before is empty and without senders. When the loop is left, the channel has
  -- accepted some texts, one after another, and behind them one event and no more: `Failed`, or a `Done`
  -- whose `tokens` is the number of the texts, which is `limit` at most, or two.
  pub serve-answer :
      (limit : ℕ) (later : List (List Job × Bool)) (gone was_closed : Bool) (jobs : List Job)
      (st : State)
      → rt.n_ctx < 2 ^ 32
      → AllFit rt st
      → Ends gone later
      → (was_closed ≡ true → Emptied gone jobs)
      → Unused jobs st
      → Asks c limit jobs
      → AllAsk c limit later
      → waiting_for c jobs + arrivals c later ≡ 1
      → (serve rt later was_closed jobs st).0 ≡ true
      → Ended limit (laws.received (serve rt later was_closed jobs st).2.world c)
  serve-answer limit later gone was_closed jobs st small fit ends before unused asks all_ask once
        e =
      let count = Unused-ledger jobs st unused in
      let r = serve rt later was_closed jobs st in
      let after =
        serve-Going rt laws c reads small later was_closed jobs st (omega (arith, count, once))
          all_ask
          (record {
            streams = Unused-Streams jobs st unused (omega (arith, count, once));
            fit = fit;
            asks = asks;
          }) in
      let all_got : trace laws c r.2 ≡ laws.received r.2.world c =
        ap (λ o. laws.received r.2.world c ++ events_for c o)
          (serve-delivered later gone was_closed jobs st ends before e)
        ∙ append-nil (laws.received r.2.world c) in
      subst (Ended limit) all_got (
        after.streams.over (
          ap tally all_got
          ∙ serve-ledger rt laws c (Accepting-IsOpen rt laws c reads) later gone was_closed jobs st
              ends before e
          ∙ omega (arith, count, once)))
