-- ===== src/Engine/Shutdown/Rounds.antt =====
-- Once the last sender is gone the loop comes to its end.
use llm_worker.Base.{
  ℕ, zero, suc, ◌+◌, ◌^◌, ◌≤◌, ◌<◌, ◌≡◌, ◌≢◌, refl, ap, ◌⊎◌, ◌==◌, ◌&&◌, not, if◌then◌else◌, Bool,
  true, false, Bool-cases, inl, inr, List, [], ◌∷◌, ◌++◌, append-nil, Option, none, some, length,
  replicate, arith,
}
use llm_worker.Engine.Types.{Event, Job}
use llm_worker.Engine.Host.{Host}
use llm_worker.Engine.Slot.{Slot}
use llm_worker.Engine.Pool.{State, active, occupied}
use llm_worker.Engine.Prefill.{Runtime}
use llm_worker.Engine.Admit.{
  Verdict, open_queue, closed_queue, no_slot, throttled, room, gate, gate_at, position_none,
  over_target, is_idle, is_empty, admit, take_job,
}
use llm_worker.Engine.Admit.Rooms.{Gate-cases, gate-free}
use llm_worker.Engine.Serve.{left, round, serve, conclude, finish_round, flush_all, deliver}
use llm_worker.Engine.Terminals.{serve-next}
use llm_worker.Engine.Window.{AllFit}
use llm_worker.Engine.Moves.{Moves, here, next, delivers, takes}
use llm_worker.Engine.Moves.Rounds.{flush_all-Moves, admit-Moves, conclude-Moves, round-Moves}
use llm_worker.Engine.Shutdown.{AllRead, work, queue_cost}
use llm_worker.Engine.Shutdown.Hands.{take_job-less}
use llm_worker.Engine.Shutdown.Runs.{Moves-Lasts}
use llm_worker.Engine.Shutdown.Gathers.{AllClear}
use llm_worker.Engine.Shutdown.Steps.{step-less}
use llm_worker.Engine.Shutdown.Flushes.{flush_all-AllClear, nothing_owed, same_places}

module _ ⦃h : Host⦄ where
  all_taken :
      (slots : List (Option Slot)) (k : ℕ)
      → position_none slots k ≡ none
      → occupied slots ≡ length slots
  unfolding position_none
  all_taken [] k e = refl
  all_taken (none ∷ rest) k e = cc
  all_taken (some s ∷ rest) k e = omega (arith, all_taken rest (k + 1) e)

  choose-no_slot :
      (over : Bool) (j : ℕ) (idle pace : Bool)
      → (if over then throttled else room j idle pace) ≢ no_slot
  choose-no_slot true j idle pace = λ e. cc
  choose-no_slot false j idle pace = λ e. cc

  choose-throttled :
      (over : Bool) (j : ℕ) (idle pace : Bool)
      → (if over then throttled else room j idle pace) ≡ throttled
      → over ≡ true
  choose-throttled true j idle pace e = refl
  choose-throttled false j idle pace e = cc

  busy_of : (idle more : Bool) → (not idle && more) ≡ true → idle ≡ false
  busy_of true more e = cc
  busy_of false more e = refl

  at_work : (n : ℕ) (b : Bool) → b ≡ true → (n == 0 && b) ≡ false → 1 ≤ n
  at_work zero b t e = ground arith
  at_work (suc n) b t e = omega arith

  -- No room, and nothing owed: something has a slot.
  gate_at-busy :
      (rt : Runtime) (st : State) (o : Option ℕ)
      → position_none st.slots 0 ≡ o
      → st.outbox ≡ []
      → 1 ≤ length st.slots
      → (gate_at rt st o ≡ no_slot) ⊎ (gate_at rt st o ≡ throttled)
      → 1 ≤ active st
  unfolding gate_at
  gate_at-busy rt st none e empty places g = omega (arith, places, all_taken st.slots 0 e)
  gate_at-busy rt st (some j) e empty places (inl g) =
      absurd (choose-no_slot (over_target rt st) j _ _ g)
  gate_at-busy rt st (some j) e empty places (inr g) =
      at_work (active st) (is_empty st.outbox) (ap is_empty empty)
        (busy_of (is_idle st) _ (choose-throttled (over_target rt st) j _ _ g))

  gate-busy :
      (rt : Runtime) (st : State)
      → st.outbox ≡ []
      → 1 ≤ length st.slots
      → (gate rt st ≡ no_slot) ⊎ (gate rt st ≡ throttled)
      → 1 ≤ active st
  unfolding gate
  gate-busy rt st empty places g = gate_at-busy rt st _ refl empty places g

  -- What `admit` comes to without senders: it takes a request, or it leaves all as it was, with
  -- something at work or with the queue closed.
  pub data Admitted (rt : Runtime) (jobs : List Job) (st : State)
      : Verdict × List Job × State → Type 0 where
    took : {r : Verdict × List Job × State} → work r.1 r.2 < work jobs st → Admitted rt jobs st r
    busy : 1 ≤ active st → Admitted rt jobs st (open_queue, jobs, st)
    over : jobs ≡ [] → Admitted rt jobs st (closed_queue, jobs, st)

module _ ⦃h : Host⦄ (rt : Runtime) (small : rt.n_ctx < 2 ^ 32) (reads : AllRead) where
  admit-Admitted :
      (jobs : List Job) (st : State)
      → AllFit rt st
      → st.outbox ≡ []
      → 1 ≤ length st.slots
      → Admitted rt jobs st (admit rt true jobs st)
  unfolding admit
  admit-Admitted [] st fit empty places = elim (Gate-cases (gate rt st)) [
    | inl (inl g) ↦ rw (g, admit) (busy (gate-busy rt st empty places (inl g)))
    | inl (inr g) ↦ rw (g, admit) (busy (gate-busy rt st empty places (inr g)))
    | inr (i, idle, pace, g) ↦ rw (g, admit) (over refl)
  ]
  admit-Admitted (job ∷ jobs) st fit empty places = elim (Gate-cases (gate rt st)) [
    | inl (inl g) ↦ rw (g, admit) (busy (gate-busy rt st empty places (inl g)))
    | inl (inr g) ↦ rw (g, admit) (busy (gate-busy rt st empty places (inr g)))
    | inr (i, idle, pace, g) ↦
        let taken = take_job-less rt jobs st job i (gate-free rt st g) in
        let taken_moves : Moves rt (job ∷ jobs) st jobs (take_job rt job i st).1 =
          next here (takes job i idle pace g) in
        let so_far = Moves-Lasts rt small reads taken_moves fit in
        let others =
          admit-Moves rt jobs (take_job rt job i st).1 true jobs (take_job rt job i st).1 here in
        let rest = Moves-Lasts rt small reads others so_far.fit in
        let r = admit rt true jobs (take_job rt job i st).1 in
        let less : work r.1 r.2 < work (job ∷ jobs) st = omega (arith, taken, rest.less) in
        elim (Bool-cases (pace && (take_job rt job i st).0)) [
          | inl paced ↦ rw (g, admit, paced) (took taken)
          | inr more ↦ rw (g, admit, more) (took less)
        ]
  ]

  finish_round-less :
      (q : List Job) (was_closed : Bool) (st : State)
      → 1 ≤ active st
      → AllClear st
      → AllFit rt st
      → work q (finish_round was_closed st).1 < work q st
  unfolding finish_round
  finish_round-less q was_closed st some_slot clear fit =
      let on : (was_closed && (active st == 0 && is_empty st.outbox)) ≡ false =
        not_yet was_closed (active st) (is_empty st.outbox) some_slot in
      rw on (step-less rt small reads q (record st { decoding = active st }) some_slot clear fit)
    where
      not_yet : (a : Bool) (n : ℕ) (b : Bool) → 1 ≤ n → (a && (n == 0 && b)) ≡ false
      not_yet a n b le = ground arith

  finish_round-left :
      (st : State) → active st ≡ 0 → st.outbox ≡ [] → (finish_round true st).0 ≡ left
  unfolding finish_round
  finish_round-left st none_active empty =
      let all_done : (active st == 0 && is_empty st.outbox) ≡ true =
        done (active st) st.outbox none_active empty in
      rw all_done refl
    where
      done : (n : ℕ) (o : List (ℕ × Event)) → n ≡ 0 → o ≡ [] → (n == 0 && is_empty o) ≡ true
      done n o e f = ground arith

  conclude-progress :
      (was_closed : Bool) (jobs : List Job) (st : State) (r : Verdict × List Job × State)
      → Admitted rt jobs st r
      → AllFit rt r.2
      → AllFit rt st
      → AllClear st
      → st.outbox ≡ []
      → let c = conclude was_closed r in (c.0 ≡ left) ⊎ (work c.2 c.3 < work jobs st)
  unfolding conclude
  conclude-progress was_closed jobs st r (took less) fit' fit clear empty =
      let others = conclude-Moves rt r.1 r.2 was_closed r.0 r.1 r.2 here in
      inr (omega (arith, less, (Moves-Lasts rt small reads others fit').less))
  conclude-progress was_closed jobs st r (busy some_slot) fit' fit clear empty =
      inr (finish_round-less jobs was_closed st some_slot clear fit)
  conclude-progress was_closed jobs st r (over none_left) fit' fit clear empty =
      elim (zero_or (active st)) [
        | inl none_active ↦ inl (finish_round-left st none_active empty)
        | inr some_slot ↦ inr (finish_round-less jobs true st some_slot clear fit)
      ]
    where
      zero_or : (n : ℕ) → (n ≡ 0) ⊎ (1 ≤ n)
      zero_or n = ground arith

  -- A round leaves the loop or takes some of the work away.
  round-progress :
      (was_closed : Bool) (jobs : List Job) (st : State)
      → AllFit rt st
      → 1 ≤ length st.slots
      → let r = round rt was_closed true jobs st in (r.0 ≡ left) ⊎ (work r.2 r.3 < work jobs st)
  unfolding round
  round-progress was_closed jobs st fit places =
      let ready = flush_all (deliver st) in
      let to_ready : Moves rt jobs st jobs ready =
        flush_all-Moves rt jobs st (deliver st) (next here delivers) in
      let before = Moves-Lasts rt small reads to_ready fit in
      let admitted =
        admit-Admitted jobs ready before.fit (nothing_owed rt reads st)
          (omega (arith, places, same_places rt reads st)) in
      let further =
        Moves-Lasts rt small reads (admit-Moves rt jobs ready true jobs ready here) before.fit in
      elim (conclude-progress was_closed jobs ready (admit rt true jobs ready) admitted further.fit
        before.fit (flush_all-AllClear rt reads (deliver st)) (nothing_owed rt reads st)) [
          | inl done ↦ inl done
          | inr less ↦ inr (omega (arith, less, before.less))
        ]

  -- The last sender is gone, every caller reads in time, the slots that are taken fit the context of under
  -- 2^32 tokens, and there is a place at least. Then the loop is left within one round more than the
  -- requests, slots and owed events are worth: 1 for an event and for a piece that waits, 4 for each
  -- token that a slot may still get, and for a request 4 for each token that it asks for, or 8.
  pub serve-ends :
      (n : ℕ) (was_closed : Bool) (jobs : List Job) (st : State)
      → AllFit rt st
      → 1 ≤ length st.slots
      → work jobs st < n
      → (serve rt (replicate n ([], true)) was_closed jobs st).0 ≡ true
  unfolding serve
  serve-ends zero was_closed jobs st fit places enough = absurd (omega (arith, enough))
  serve-ends (suc n) was_closed jobs st fit places enough =
      let moves = round-Moves rt was_closed true (jobs ++ []) st in
      let after = Moves-Lasts rt small reads moves fit in
      let same_cost = ap queue_cost (append-nil jobs) in
      elim (round-progress was_closed (jobs ++ []) st fit places) [
        | inl at_end ↦ rw (at_end, serve) refl
        | inr less ↦ elim (serve-next rt [] true (replicate n ([], true)) was_closed jobs st) [
          | inl (at_end, same) ↦ rw same refl
          | inr same ↦ rw same (
              serve-ends n _ _ _ after.fit (omega (arith, places, after.places))
                (omega (arith, enough, less, same_cost)))
        ]
      ]
