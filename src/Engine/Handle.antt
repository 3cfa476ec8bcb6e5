-- ===== src/Engine/Handle.antt =====
-- llm-engine/src/lib.rs: the handle that callers hold, `Engine` over `Inner`, and what `submit` and
-- `capacity` do with it.
use llm_worker.Base.{
  ℕ, ◌+◌, ◌-◌, ◌^◌, ◌<◌, ◌≡◌, ◌≢◌, refl, sym, ap, ◌∙◌, ◌⊎◌, inl, inr, max, increment, Text, codes,
  Option, none, some, arith, Bool, true, false, ◌==◌, List, [], ◌∷◌, if◌then◌else◌,
}
use llm_worker.Engine.Types.{GenerateRequest, Job, Capacity, ModelInfo, EngineConfig}
use llm_worker.Engine.Host.{Outcome, ok, err, Sent, sent, full, closed}

-- What `spawn` makes of the configured sizes.
unfoldable pub engine_width : EngineConfig → ℕ
engine_width config = max config.max_inflight 1

unfoldable pub queue_depth : EngineConfig → ℕ
unfolding engine_width
queue_depth config = max config.queue_depth (engine_width config)

-- The channel of events and the cancel flag that the caller keeps.
pub record Generation : Type 0 where
  pub events : ℕ
  pub cancel : ℕ

-- `Generation::cancel` and `is_cancelled`, over the flags that are set; dropping a generation cancels it.
abbrev pub cancel : Generation → List ℕ → List ℕ
cancel generation flags = generation.cancel ∷ flags

abbrev pub is_cancelled : Generation → List ℕ → Bool
is_cancelled generation [] = false
is_cancelled generation (flag ∷ flags) =
    let later = is_cancelled generation flags in if flag == generation.cancel then true else later

abbrev pub drop : Generation → List ℕ → List ℕ
drop generation flags = cancel generation flags

-- The queue is tokio's; `waiting` counts the jobs that the engine thread has not taken.
pub record JobQueue : Type 1 where
  pub Queue : Type 0
  pub try_send : Queue → Job → Sent × Queue
  pub waiting : Queue → ℕ
  pub waiting_sent :
      (q : Queue) (job : Job)
      → (try_send q job).0 ≡ sent
      → waiting (try_send q job).1 ≡ waiting q + 1
  pub waiting_refused :
      (q : Queue) (job : Job) → (try_send q job).0 ≢ sent → waiting (try_send q job).1 ≡ waiting q

ok-err : (generation : Generation) (error : Text) → ok generation ≢ err error
ok-err generation error e = cc

module _ (queues : JobQueue) where
  open queues use {Queue, try_send, waiting}

  -- `Inner` with the two meters. The handle of the thread is not held.
  pub record Inner : Type 0 where
    pub jobs : Option Queue
    pub inflight : ℕ
    pub decoding : ℕ
    pub max_inflight : ℕ
    pub info : ModelInfo

  unfoldable pub capacity : Inner → Capacity
  capacity inner = record {
    inflight = inner.inflight;
    decoding = inner.decoding;
    max_inflight = inner.max_inflight;
    available_slots = inner.max_inflight - inner.inflight;
  }

  unfoldable pub queued : Generation → Sent → Queue → Inner → Outcome Generation × Inner
  queued generation sent q inner =
      (ok generation, record inner { jobs = some q; inflight = increment inner.inflight })
  queued generation full q inner =
      (err (codes "engine queue is full"), record inner { jobs = some q })
  queued generation closed q inner =
      (err (codes "engine has shut down"), record inner { jobs = some q })

  -- `generation` is the fresh channel and flag, `mpsc::channel(256)` and `AtomicBool::new(false)`.
  unfoldable pub submit : GenerateRequest → Generation → Inner → Outcome Generation × Inner
  unfolding queued
  submit request generation inner =
      let job : Job = record {
        request = request;
        events = generation.events;
        cancel = generation.cancel;
      } in
      elim inner.jobs [
        | none ↦ (err (codes "engine has shut down"), inner)
        | some q ↦ queued generation (try_send q job).0 (try_send q job).1 inner
      ]

  -- `drop(self.jobs.take())`
  unfoldable pub shut_down : Inner → Inner
  shut_down inner = record inner { jobs = none }

  abbrev pub waiting_in : Option Queue → ℕ
  waiting_in none = 0
  waiting_in (some q) = waiting q

  -- The meter of the handle counts the jobs that wait and `active` requests with a slot.
  pub record Counted (active : ℕ) (inner : Inner) : Type 0 where
    pub counted : inner.inflight ≡ waiting_in inner.jobs + active
    pub in_range : waiting_in inner.jobs + active < 2 ^ 64

  queued-Counted :
      (active : ℕ) (inner : Inner) (q q' : Queue) (generation : Generation) (o : Sent)
      → inner.jobs ≡ some q
      → Counted active inner
      → inner.inflight + 1 < 2 ^ 64
      → (o ≡ sent → waiting q' ≡ waiting q + 1)
      → (o ≢ sent → waiting q' ≡ waiting q)
      → Counted active (queued generation o q' inner).1
  unfolding queued
  queued-Counted active inner q q' generation sent h c room taken refused =
      let now = taken refl in
      let before = ap waiting_in h in record { counted = omega arith; in_range = omega arith }
  queued-Counted active inner q q' generation full h c room taken refused =
      let now = refused (λ e. ground arith) in
      let before = ap waiting_in h in record { counted = omega arith; in_range = omega arith }
  queued-Counted active inner q q' generation closed h c room taken refused =
      let now = refused (λ e. ground arith) in
      let before = ap waiting_in h in record { counted = omega arith; in_range = omega arith }

  submit-Counted :
      (request : GenerateRequest) (generation : Generation) (active : ℕ) (inner : Inner)
      (jobs : Option Queue)
      → inner.jobs ≡ jobs
      → Counted active inner
      → inner.inflight + 1 < 2 ^ 64
      → Counted active (submit request generation inner).1
  unfolding submit capacity
  submit-Counted request generation active inner none h c room = rw (h, submit) c
  submit-Counted request generation active inner (some q) h c room =
      let job : Job = record {
        request = request;
        events = generation.events;
        cancel = generation.cancel;
      } in
      rw (h, submit)
        (queued-Counted active inner q (try_send q job).1 generation (try_send q job).0 h c room
          (queues.waiting_sent q job) (queues.waiting_refused q job))

  queued-capacity :
      (q : Queue) (inner : Inner) (generation : Generation) (o : Sent)
      → let r = queued generation o q inner in
        ((r.0 ≡ ok generation) × (r.1.inflight ≡ increment inner.inflight))
        ⊎ (((error : Text) × (r.0 ≡ err error)) × (capacity r.1 ≡ capacity inner))
  unfolding queued capacity
  queued-capacity q inner generation sent = inl (refl, refl)
  queued-capacity q inner generation full = inr ((_, refl), refl)
  queued-capacity q inner generation closed = inr ((_, refl), refl)

  submit-cases :
      (request : GenerateRequest) (generation : Generation) (inner : Inner) (jobs : Option Queue)
      → inner.jobs ≡ jobs
      → let r = submit request generation inner in
        ((r.0 ≡ ok generation) × (r.1.inflight ≡ increment inner.inflight))
        ⊎ (((error : Text) × (r.0 ≡ err error)) × (capacity r.1 ≡ capacity inner))
  unfolding submit capacity
  submit-cases request generation inner none h = rw (h, submit) (inr ((_, refl), refl))
  submit-cases request generation inner (some q) h =
      rw (h, submit) (queued-capacity _ inner generation _)

  pub submit-refused :
      (request : GenerateRequest) (generation : Generation) (inner : Inner) (error : Text)
      → (submit request generation inner).0 ≡ err error
      → capacity (submit request generation inner).1 ≡ capacity inner
  submit-refused request generation inner error refused =
      elim (submit-cases request generation inner inner.jobs refl) [
        | inl (accepted, more) ↦ absurd (ok-err generation error (sym accepted ∙ refused))
        | inr (failed, same) ↦ same
      ]

  -- The meter counts the jobs that wait and the `active` requests with a slot, and there is room for one
  -- more in its word. After `submit` it still does, so that `available_slots` is what the width leaves
  -- of the two together; the call gives the generation and counts one request more, or fails and
  -- leaves `capacity` as it was.
  pub submit-capacity :
      (request : GenerateRequest) (generation : Generation) (active : ℕ) (inner : Inner)
      → Counted active inner
      → inner.inflight + 1 < 2 ^ 64
      → let r = submit request generation inner in
        Counted active r.1
        × ((capacity r.1).available_slots ≡ r.1.max_inflight - (waiting_in r.1.jobs + active))
        × (((r.0 ≡ ok generation) × ((capacity r.1).inflight ≡ (capacity inner).inflight + 1))
            ⊎ (((error : Text) × (r.0 ≡ err error)) × (capacity r.1 ≡ capacity inner)))
  unfolding capacity
  submit-capacity request generation active inner c room =
      let r = submit request generation inner in
      let after = submit-Counted request generation active inner inner.jobs refl c room in
      (
        after,
        ap (λ n. r.1.max_inflight - n) after.counted,
        elim (submit-cases request generation inner inner.jobs refl) [
          | inl (accepted, more) ↦ inl (accepted, omega arith)
          | inr refused ↦ inr refused
        ],
      )
