-- ===== src/Engine/Prefill/Serves.antt =====
-- The slot that a prefill makes is the job's, with its first piece to hand over.
use llm_worker.Base.{
  ℕ, ◌-◌, ◌≡◌, refl, min, ◌||◌, ◌==◌, u32, pos_part, Bool-cases, Text, some, List, length, inl, inr,
}
use llm_worker.Engine.Types.{Job, token}
use llm_worker.Engine.Host.{Host, Outcome, ok, err, Outcome-cases}
use llm_worker.Engine.Slot.{Slot}
use llm_worker.Engine.Prefill.{
  Runtime, Prefilled, running, finished, broken, prepare, start_slot, first_token, ingest,
  ingest_prepared, prefill,
}

module _ ⦃h : Host⦄ (job : Job) where
  pub record Holds (slot : Slot) : Type 0 where
    pub same_job : slot.job ≡ job
    pub piece : Text
    pub held : slot.pending ≡ some (token piece)
    pub first : slot.n_decoded ≡ 1

  abbrev pub Serves : Prefilled → Type 0
  Serves (running slot) = Holds slot
  Serves (finished stop prompt_tokens ms) = Unit {0}
  Serves (broken error) = Unit {0}

  module _ (rt : Runtime) (i : ℕ) where
    start_slot-Serves :
        (count : ℕ) (t : h.Token) (s : h.Sampler) (w : h.World)
        → Serves (start_slot rt job i count t s w).0
    unfolding start_slot
    start_slot-Serves count t s w = elim (Outcome-cases (h.token_to_piece t h.new_decoder).0) [
      | inl (text, p) ↦
          rw (p, start_slot) (record { same_job = refl; piece = text; held = refl; first = refl })
      | inr (e, p) ↦ rw (p, start_slot) tt
    ]

    first_token-Serves :
        (count last started : ℕ) (s : h.Sampler) (w : h.World)
        → Serves (first_token rt job i count last started s w).0
    unfolding first_token
    first_token-Serves count last started s w =
        let budget = min (pos_part job.request.max_tokens) (rt.n_ctx - count) in
        let t = (h.sample s (h.ggml_time_us w).1 last).0 in
        elim (Bool-cases (h.is_eog_token t || (budget == 0))) [
          | inl over ↦ rw (over, first_token) tt
          | inr goes ↦ rw (goes, first_token) (start_slot-Serves count _ _ _)
        ]

    ingest-Serves :
        (started : ℕ) (tokens : List h.Token) (s : h.Sampler) (filled : Outcome (Unit {0}))
        (b : h.Batch) (w : h.World)
        → Serves (ingest rt job i started tokens s (filled, b) w).0
    unfolding ingest
    ingest-Serves started tokens s (err e) b w = tt
    ingest-Serves started tokens s (ok u) b w = elim (Outcome-cases (h.decode w b).0) [
      | inl (v, p) ↦ rw (p, ingest) (first_token-Serves (u32 (length tokens)) _ started s _)
      | inr (e, p) ↦ rw (p, ingest) tt
    ]

    pub prefill-Serves : (b : h.Batch) (w : h.World) → Serves (prefill rt job i b w).0
    unfolding prefill
    prefill-Serves b w = elim (Outcome-cases (prepare rt job.request)) [
      | inl ((tokens, s), p) ↦ rw (p, prefill, ingest_prepared) (ingest-Serves _ tokens s _ _ _)
      | inr (e, p) ↦ rw (p, prefill, ingest_prepared) tt
    ]
