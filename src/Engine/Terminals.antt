-- ===== src/Engine/Terminals.antt =====
-- Every request is answered by one terminal event.
use llm_worker.Base.{
  ℕ, zero, suc, ◌+◌, ◌≡◌, refl, ap, subst, ◌∙◌, increment, Bool, true, List, [], ◌∷◌, ◌++◌, length,
  Option, none, some, inl, inr, ◌⊎◌, arith,
}
use llm_worker.Engine.Types.{Job}
use llm_worker.Engine.Host.{Host, ChannelLaws}
use llm_worker.Engine.Slot.{Slot}
use llm_worker.Engine.Pool.{State, occupied}
use llm_worker.Engine.Prefill.{Runtime}
use llm_worker.Engine.Serve.{Round, left, stepped, slept, blocked, round, serve, arrive}
use llm_worker.Engine.Exit.{Ended, Emptied, round-left, round-closed}
use llm_worker.Engine.Ledger.{tally, owed, holding, waiting_for, ledger, IsOpen}
use llm_worker.Engine.Ledger.Kept.{Move-ledger}
use llm_worker.Engine.Moves.{Moves_keep}
use llm_worker.Engine.Moves.Rounds.{round-Moves}

pub waiting_for-append :
    (c : ℕ) (xs ys : List Job) → waiting_for c (xs ++ ys) ≡ waiting_for c xs + waiting_for c ys
waiting_for-append c [] ys = omega arith
waiting_for-append c (x ∷ xs) ys = omega (arith, waiting_for-append c xs ys)

-- What arrives: nothing after the last sender is gone.
abbrev pub Ends : Bool → List (List Job × Bool) → Type 0
Ends gone [] = Unit {0}
Ends gone ((new, no_senders) ∷ later) =
    (gone ≡ true → (new ≡ []) × (no_senders ≡ true)) × Ends no_senders later

abbrev pub arrivals : ℕ → List (List Job × Bool) → ℕ
arrivals c [] = 0
arrivals c ((new, no_senders) ∷ later) = waiting_for c new + arrivals c later

module _ ⦃h : Host⦄ (rt : Runtime) where
  pub round-ledger :
      (laws : ChannelLaws h) (c : ℕ)
      → IsOpen c
      → (was_closed no_senders : Bool) (jobs : List Job) (st : State)
      → let (_, _, rest, st') = round rt was_closed no_senders jobs st in
        ledger laws c rest st' ≡ ledger laws c jobs st
  round-ledger laws c listens was_closed no_senders jobs st =
      Moves_keep rt (λ q s. ledger laws c q s ≡ ledger laws c jobs st)
        (λ q q' s s' move kept. Move-ledger laws c rt listens q q' s s' move ∙ kept)
        (round-Moves rt was_closed no_senders jobs st) refl

  holding_free : (c : ℕ) (slots : List (Option Slot)) → occupied slots ≡ 0 → holding c slots ≡ 0
  holding_free c [] e = refl
  holding_free c (none ∷ rest) e = holding_free c rest e
  holding_free c (some s ∷ rest) e = absurd (omega arith)

  arrive-ledger :
      (laws : ChannelLaws h) (c : ℕ) (q : List Job) (n : ℕ) (st : State)
      → ledger laws c q (arrive n st) ≡ ledger laws c q st
  arrive-ledger laws c q zero st = refl
  arrive-ledger laws c q (suc n) st =
      arrive-ledger laws c q n (record st { inflight = increment st.inflight })

  Round-cases : (r : Round) → (r ≡ left) ⊎ ((r ≡ stepped) ⊎ ((r ≡ slept) ⊎ (r ≡ blocked)))
  Round-cases left = inl refl
  Round-cases stepped = inr (inl refl)
  Round-cases slept = inr (inr (inl refl))
  Round-cases blocked = inr (inr (inr refl))

  -- A loop that goes on does as the rest of it does from the state behind the first round.
  pub serve-next :
      (new : List Job) (no_senders : Bool) (later : List (List Job × Bool)) (was_closed : Bool)
      (jobs : List Job) (st : State)
      → let r = round rt was_closed no_senders (jobs ++ new) (arrive (length new) st) in
        ((r.0 ≡ left)
          × (serve rt ((new, no_senders) ∷ later) was_closed jobs st ≡ (true, r.2, r.3)))
        ⊎ (serve rt ((new, no_senders) ∷ later) was_closed jobs st ≡ serve rt later r.1 r.2 r.3)
  unfolding serve
  serve-next new no_senders later was_closed jobs st =
      elim (Round-cases (round rt was_closed no_senders (jobs ++ new) (arrive (length new) st)).0) [
        | inl e ↦ inl (e, rw (e, serve))
        | inr (inl e) ↦ inr (rw (e, serve))
        | inr (inr (inl e)) ↦ inr (rw (e, serve))
        | inr (inr (inr e)) ↦ inr (rw (e, serve))
      ]

  module _ (laws : ChannelLaws h) (c : ℕ) (listens : IsOpen c) where
    pub first-ledger :
        (was_closed no_senders : Bool) (jobs new : List Job) (st : State)
        → let r = round rt was_closed no_senders (jobs ++ new) (arrive (length new) st) in
          ledger laws c r.2 r.3 ≡ ledger laws c jobs st + waiting_for c new
    first-ledger was_closed no_senders jobs new st =
        round-ledger laws c listens was_closed no_senders (jobs ++ new) _
        ∙ (arrive-ledger laws c (jobs ++ new) (length new) st
            ∙ omega (arith, waiting_for-append c jobs new))

    Ended-ledger :
        (rest : List Job) (st : State)
        → Ended rest st
        → tally (laws.received st.world c) ≡ ledger laws c rest st
    Ended-ledger rest st end = omega (
      arith,
      ap (waiting_for c) end.no_requests,
      holding_free c st.slots end.no_slots,
      ap (owed c) end.no_events,
    )

    pub Emptied-append :
        (gone no_senders : Bool) (jobs new : List Job)
        → (gone ≡ true → (new ≡ []) × (no_senders ≡ true))
        → Emptied gone jobs
        → Emptied no_senders (jobs ++ new)
    Emptied-append gone no_senders jobs new ends (is_gone, none_left) =
        ((ends is_gone).1, rw (none_left, (ends is_gone).0))

    Ends-arrivals : (later : List (List Job × Bool)) → Ends true later → arrivals c later ≡ 0
    Ends-arrivals [] ends = refl
    Ends-arrivals ((new, no_senders) ∷ later) ends =
        let (none_new, gone) = ends.0 refl in
        omega (
          arith,
          ap (waiting_for c) none_new,
          Ends-arrivals later (subst (λ b. Ends b later) gone ends.1),
        )

    -- The caller of a channel never drops its end, nothing arrives after the last sender is gone, and
    -- a queue that was found closed before is empty and without senders. When the loop is left, the
    -- channel has accepted one terminal event (`Done` or `Failed`) for each request that arrived for
    -- it, beside those that it had accepted or was owed at the start.
    pub serve-ledger :
        (later : List (List Job × Bool)) (gone was_closed : Bool) (jobs : List Job) (st : State)
        → Ends gone later
        → (was_closed ≡ true → Emptied gone jobs)
        → (serve rt later was_closed jobs st).0 ≡ true
        → tally (laws.received (serve rt later was_closed jobs st).2.world c)
          ≡ ledger laws c jobs st + arrivals c later
    unfolding serve
    serve-ledger [] gone was_closed jobs st ends before e = cc
    serve-ledger ((new, no_senders) ∷ later) gone was_closed jobs st ends before e =
        let before' : was_closed ≡ true → Emptied no_senders (jobs ++ new) =
          λ c. Emptied-append gone no_senders jobs new ends.0 (before c) in
        elim (serve-next new no_senders later was_closed jobs st) [
          | inl (at_end, same) ↦
              let (senders, end) =
                round-left rt was_closed no_senders (jobs ++ new) _ before' at_end in
              rw same (
                omega (
                  arith,
                  Ended-ledger _ _ end,
                  first-ledger was_closed no_senders jobs new st,
                  Ends-arrivals later (subst (λ b. Ends b later) senders ends.1),
                ))
          | inr same ↦ rw same (
              serve-ledger later no_senders _ _ _ ends.1
                (round-closed rt was_closed no_senders (jobs ++ new) _ before') (rw same at e)
              ∙ omega (arith, first-ledger was_closed no_senders jobs new st))
        ]
