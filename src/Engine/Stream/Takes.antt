-- ===== src/Engine/Stream/Takes.antt =====
-- A request that leaves the queue begins the stream of its channel, or ends it at once.
use llm_worker.Base.{
  ℕ, ◌+◌, ◌≤◌, ◌≡◌, ◌≢◌, refl, sym, ap, ◌∙◌, subst, inl, inr, List, [], ◌∷◌, ◌++◌, append-nil, none,
  some, set, get_elem?, get_elem?-set_self, Bool-cases, Option, arith,
}
use native.Mathlib.Decide.{ℕ_discrete}
use llm_worker.Engine.Types.{Event, Job, done, failed, cancelled}
use llm_worker.Engine.Host.{Host, ChannelLaws, Quiet, same, flag, clears, received-Quiet}
use llm_worker.Engine.Slot.{Slot}
use llm_worker.Engine.Pool.{State}
use llm_worker.Engine.Pool.Occupied.{entry-set-some}
use llm_worker.Engine.Prefill.{Runtime, Prefilled, running, finished, broken}
use llm_worker.Engine.Prefill.Fits.{asked}
use llm_worker.Engine.Prefill.Quiet.{prefill-Quiet}
use llm_worker.Engine.Prefill.Serves.{Serves, Holds, prefill-Serves}
use llm_worker.Engine.Admit.{take_job, settle, drop_request}
use llm_worker.Engine.Ledger.{ledger, tally, waiting_for}
use llm_worker.Engine.Ledger.Sums.{holding-fill}
use llm_worker.Engine.Ordered.{events_for, events_for-append}
use llm_worker.Engine.Stream.{Streams, Ended, Counts, trace}
use llm_worker.Engine.Stream.Leaves.{Ended-tokens}
use llm_worker.Engine.Stream.Same.{
  Streams-same_queue, Streams-Running, Streams-Ended, due-away, ledger-trace, events_for-away,
}

only_left : {A : Type 0} (xs ys : List A) → xs ++ ys ≡ [] → (xs ≡ []) × (ys ≡ [])
only_left [] ys e = (refl, e)
only_left (x ∷ xs) ys e = cc

events_for-mine : (c d : ℕ) (e : Event) → d ≡ c → events_for c ((d, e) ∷ []) ≡ e ∷ []
events_for-mine c d e own = ground arith

module _ ⦃h : Host⦄ (laws : ChannelLaws h) (c : ℕ) (q : List Job) (job : Job) where
  waiting_own : job.events ≡ c → waiting_for c (job ∷ q) ≡ waiting_for c q + 1
  waiting_own own = ground arith

  waiting_away : job.events ≢ c → waiting_for c q ≡ waiting_for c (job ∷ q)
  waiting_away away = ground arith

  -- Nothing was sent while the request was in the queue.
  unsent :
      {limit : ℕ} (st : State)
      → job.events ≡ c
      → Streams laws c limit (job ∷ q) st
      → trace laws c st ≡ []
  unsent {limit} st own s =
      s.silent (omega (arith, s.one, ledger-trace c laws (job ∷ q) st, waiting_own own))
        (omega (arith, s.one, ledger-trace c laws (job ∷ q) st, waiting_own own))

  -- The request is over with one event.
  abbrev answered : State → h.Batch → h.World → Event → State
  answered st b w e = drop_request (record st { batch = b; world = w }) job e

  answered-Streams :
      {limit : ℕ} (st : State) (b : h.Batch) (w : h.World) (e : Event)
      → laws.received w c ≡ laws.received st.world c
      → Counts limit e []
      → ledger laws c q (answered st b w e) ≤ 1
      → Streams laws c limit (job ∷ q) st
      → Streams laws c limit q (answered st b w e)
  answered-Streams {limit} st b w e quiet counts fits s =
      let added = events_for-append c st.outbox ((job.events, e) ∷ []) in
      elim (ℕ_discrete job.events c) [
        | yes own ↦
            let (got, owed) =
              only_left (laws.received st.world c) (events_for c st.outbox) (unsent st own s) in
            let here : trace laws c (answered st b w e) ≡ e ∷ [] =
              rw (added, quiet, got, owed) (events_for-mine c job.events e own) in
            let (one_end, ended) = Ended-tokens [] e counts in
            Streams-Ended c laws q (answered st b w e) fits
              (subst (λ es. tally es ≡ 1) (sym here) one_end) (subst (Ended limit) (sym here) ended)
        | no away ↦
            let outbox =
              added
              ∙ ap (λ es. events_for c st.outbox ++ es) (events_for-away c job.events e [] away)
              ∙ append-nil (events_for c st.outbox) in
            Streams-same_queue c laws
              (record {
                same_trace = rw (quiet, outbox) refl;
                same_outbox = outbox;
                same_holding = refl;
                old_slot = λ i slot at own. at;
              })
              (waiting_away away) s
      ]

  -- The request has a slot, with its first piece to hand over.
  abbrev begun : State → h.Batch → h.World → ℕ → Slot → State
  begun st b w i slot = record st { batch = b; world = w; slots = set st.slots i (some slot) }

  begun-Streams :
      {limit : ℕ} (st : State) (b : h.Batch) (w : h.World) (i : ℕ) (slot : Slot)
      → get_elem? st.slots i ≡ some none
      → laws.received w c ≡ laws.received st.world c
      → Holds job slot
      → (job.events ≡ c → asked job ≤ limit)
      → ledger laws c q (begun st b w i slot) ≤ 1
      → Streams laws c limit (job ∷ q) st
      → Streams laws c limit q (begun st b w i slot)
  begun-Streams {limit} st b w i slot free quiet held asks fits s =
      let channel = ap (λ (j : Job). j.events) held.same_job in
      elim (ℕ_discrete job.events c) [
        | yes own ↦
            let (got, owed) =
              only_left (laws.received st.world c) (events_for c st.outbox) (unsent st own s) in
            let here : trace laws c (begun st b w i slot) ≡ [] = rw (quiet, got) owed in
            let at = ap filled (get_elem?-set_self st.slots i (some slot) none free) in
            Streams-Running c laws q (begun st b w i slot) i slot fits at (channel ∙ own)
              (record {
                texts = held.piece ∷ [];
                shape = rw (here, held.held) refl;
                counted = held.first;
                short = omega arith;
                asks = omega (arith, asks own, ap asked held.same_job);
              })
              owed
        | no away ↦
            let apart : slot.job.events ≢ c = λ e. away (sym channel ∙ e) in
            Streams-same_queue c laws
              (record {
                same_trace = rw quiet refl;
                same_outbox = refl;
                same_holding =
                    omega (arith, holding-fill c st.slots i slot free, due-away c slot apart);
                old_slot = λ j x e own. elim (entry-set-some st.slots i j slot x e) [
                  | inl (at, equal) ↦
                      absurd (apart (ap (λ (t : Slot). t.job.events) (sym equal) ∙ own))
                  | inr before ↦ before
                ];
              })
              (waiting_away away) s
      ]
    where
      filled : Option (Option Slot) → Option Slot
      filled none = none
      filled (some e) = e

  settle-Streams :
      {limit : ℕ} (st : State) (b : h.Batch) (w : h.World) (i : ℕ) (result : Prefilled)
      → get_elem? st.slots i ≡ some none
      → Quiet st.world w
      → Serves job result
      → (job.events ≡ c → asked job ≤ limit)
      → let st' = (settle (record st { batch = b; world = w }) job i result).1 in
        ledger laws c q st' ≤ 1 → Streams laws c limit (job ∷ q) st → Streams laws c limit q st'
  unfolding settle
  settle-Streams {limit} st b w i (running slot) free quiet serves asks =
      begun-Streams st b w i slot free (received-Quiet laws c st.world quiet) serves asks
  settle-Streams {limit} st b w i (finished stop prompt_tokens ms) free quiet serves asks =
      answered-Streams st b _ (done stop prompt_tokens 0 ms)
        (received-Quiet laws c st.world (clears i quiet)) (refl, omega arith)
  settle-Streams {limit} st b w i (broken error) free quiet serves asks =
      answered-Streams st b _ (failed error) (received-Quiet laws c st.world (clears i quiet)) tt

  pub take_job-Streams :
      {limit : ℕ} (rt : Runtime) (st : State) (i : ℕ)
      → get_elem? st.slots i ≡ some none
      → (job.events ≡ c → asked job ≤ limit)
      → ledger laws c q (take_job rt job i st).1 ≤ 1
      → Streams laws c limit (job ∷ q) st
      → Streams laws c limit q (take_job rt job i st).1
  unfolding take_job
  take_job-Streams {limit} rt st i free asks =
      let w = (h.load_flag st.world job.cancel).1 in
      elim (Bool-cases (h.load_flag st.world job.cancel).0) [
        | inl gone ↦
            rw (gone, take_job)
              (answered-Streams st st.batch w (done cancelled 0 0 0)
                (laws.received_flag st.world job.cancel c) (refl, omega arith))
        | inr stays ↦
            rw (stays, take_job)
              (settle-Streams st _ _ i _ free
                (prefill-Quiet rt job i st.world st.batch w (flag job.cancel same))
                (prefill-Serves job rt i st.batch w) asks)
      ]
