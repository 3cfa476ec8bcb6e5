-- ===== src/Engine/Prefill/Quiet.antt =====
-- A prefill sends nothing.
use llm_worker.Base.{ℕ, ◌-◌, min, ◌||◌, ◌==◌, u32, pos_part, Bool-cases, List, length, inl, inr}
use llm_worker.Engine.Types.{Job}
use llm_worker.Engine.Host.{Host, Outcome, ok, err, Outcome-cases, Quiet, time, sampled, decodes}
use llm_worker.Engine.Prefill.{
  Runtime, prepare, start_slot, first_token, ingest, ingest_prepared, prefill,
}

module _ ⦃h : Host⦄ (rt : Runtime) (job : Job) (i : ℕ) (origin : h.World) where
  start_slot-Quiet :
      (count : ℕ) (t : h.Token) (s : h.Sampler) (w : h.World)
      → Quiet origin w
      → Quiet origin (start_slot rt job i count t s w).1
  unfolding start_slot
  start_slot-Quiet count t s w q = elim (Outcome-cases (h.token_to_piece t h.new_decoder).0) [
    | inl (text, p) ↦ rw (p, start_slot) (time q)
    | inr (e, p) ↦ rw (p, start_slot) q
  ]

  first_token-Quiet :
      (count last started : ℕ) (s : h.Sampler) (w : h.World)
      → Quiet origin w
      → Quiet origin (first_token rt job i count last started s w).1
  unfolding first_token
  first_token-Quiet count last started s w q =
      let budget = min (pos_part job.request.max_tokens) (rt.n_ctx - count) in
      let t = (h.sample s (h.ggml_time_us w).1 last).0 in
      elim (Bool-cases (h.is_eog_token t || (budget == 0))) [
        | inl over ↦ rw (over, first_token) (sampled s last (time q))
        | inr goes ↦ rw (goes, first_token) (start_slot-Quiet count _ _ _ (sampled s last (time q)))
      ]

  ingest-Quiet :
      (started : ℕ) (tokens : List h.Token) (s : h.Sampler) (filled : Outcome (Unit {0}))
      (b : h.Batch) (w : h.World)
      → Quiet origin w
      → Quiet origin (ingest rt job i started tokens s (filled, b) w).2
  unfolding ingest
  ingest-Quiet started tokens s (err e) b w q = q
  ingest-Quiet started tokens s (ok u) b w q = elim (Outcome-cases (h.decode w b).0) [
    | inl (v, p) ↦
        rw (p, ingest) (first_token-Quiet (u32 (length tokens)) _ started s _ (decodes b q))
    | inr (e, p) ↦ rw (p, ingest) (decodes b q)
  ]

  pub prefill-Quiet :
      (b : h.Batch) (w : h.World) → Quiet origin w → Quiet origin (prefill rt job i b w).2
  unfolding prefill
  prefill-Quiet b w q = elim (Outcome-cases (prepare rt job.request)) [
    | inl ((tokens, s), p) ↦
        rw (p, prefill, ingest_prepared) (ingest-Quiet _ tokens s _ _ _ (time q))
    | inr (e, p) ↦ rw (p, prefill, ingest_prepared) (time q)
  ]
