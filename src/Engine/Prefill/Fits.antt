-- ===== src/Engine/Prefill/Fits.antt =====
-- What a slot promises about its place in the context, and that a prefill makes such a slot.
use llm_worker.Base.{
  subst, ℕ, ◌+◌, ◌-◌, ◌≤◌, ◌<◌, ◌≡◌, min, ltb, ltb→lt, u32, pos_part, Bool, true, false, Bool-cases,
  ◌==◌, ◌||◌, List, length, inl, inr, ◌⊎◌, arith, refl,
}
use llm_worker.Engine.Types.{GenerateRequest, Job}
use llm_worker.Engine.Host.{Host, Outcome, ok, err, Outcome-cases}
use llm_worker.Engine.Slot.{Slot}
use llm_worker.Engine.Prefill.{
  Runtime, Prefilled, running, finished, broken, context, build_prompt, prepare, fits_context,
  >>=-inversion, start_slot, first_token, ingest, ingest_prepared, prefill,
}

module _ ⦃h : Host⦄ where
  -- The tokens that the request asks for.
  abbrev pub asked : Job → ℕ
  asked job = pos_part job.request.max_tokens

  -- `n_cur` is the position of the last token, the prompt's tokens before it and the decoded ones
  -- counted; the slot goes on within its budget, or has its first token only.
  pub record Fits (rt : Runtime) (i : ℕ) (slot : Slot) : Type 0 where
    pub seat : slot.seq_id ≡ i
    pub short : slot.prompt_tokens < rt.n_ctx
    pub started : 1 ≤ slot.n_decoded
    pub position : slot.n_cur + 1 ≡ slot.prompt_tokens + slot.n_decoded
    pub budgeted : slot.budget ≡ min (asked slot.job) (rt.n_ctx - slot.prompt_tokens)
    pub funded : 1 ≤ slot.budget
    pub bounded : slot.context_bound ≡ ltb (rt.n_ctx - slot.prompt_tokens) (asked slot.job)
    pub going : (slot.n_decoded < slot.budget) ⊎ (slot.n_decoded ≡ 1)

  abbrev pub PrefillFits : Runtime → ℕ → Prefilled → Type 0
  PrefillFits rt i (running slot) = Fits rt i slot
  PrefillFits rt i (finished stop prompt_tokens ms) = Unit {0}
  PrefillFits rt i (broken error) = Unit {0}

  start_slot-Fits :
      (rt : Runtime) (job : Job) (i count : ℕ) (t : h.Token) (s : h.Sampler) (w : h.World)
      → count < rt.n_ctx
      → 1 ≤ min (asked job) (rt.n_ctx - count)
      → PrefillFits rt i (start_slot rt job i count t s w).0
  unfolding start_slot
  start_slot-Fits rt job i count t s w short funded =
      elim (Outcome-cases (h.token_to_piece t h.new_decoder).0) [
        | inl (text, p) ↦
            rw (p, start_slot)
              (record {
                seat = refl;
                short = short;
                started = omega arith;
                position = omega arith;
                budgeted = refl;
                funded = funded;
                bounded = refl;
                going = inr refl;
              })
        | inr (error, p) ↦ rw (p, start_slot) tt
      ]

  funded_of : (b : Bool) (m : ℕ) → (b || (m == 0)) ≡ false → 1 ≤ m
  funded_of true m e = ground arith
  funded_of false m e = ground arith

  first_token-Fits :
      (rt : Runtime) (job : Job) (i count last started : ℕ) (s : h.Sampler) (w : h.World)
      → count < rt.n_ctx
      → PrefillFits rt i (first_token rt job i count last started s w).0
  unfolding first_token
  first_token-Fits rt job i count last started s w short =
      let budget = min (asked job) (rt.n_ctx - count) in
      let t = (h.sample s (h.ggml_time_us w).1 last).0 in
      elim (Bool-cases (h.is_eog_token t || (budget == 0))) [
        | inl over ↦ rw (over, first_token) tt
        | inr goes ↦
            rw (goes, first_token)
              (start_slot-Fits rt job i count _ _ _ short (funded_of _ budget goes))
      ]

  fits_context-short :
      (count n_ctx : ℕ) (u : Unit {0}) → fits_context count n_ctx ≡ ok u → u32 count < n_ctx
  unfolding fits_context
  fits_context-short count n_ctx u e = elim (Bool-cases (ltb (u32 count) n_ctx)) [
    | inl fits ↦ ltb→lt (u32 count) n_ctx fits
    | inr not ↦ cc (rw not at e)
  ]

  pub prepare-short :
      (rt : Runtime) (request : GenerateRequest) (tokens : List h.Token) (s : h.Sampler)
      → prepare rt request ≡ ok (tokens, s)
      → u32 (length tokens) < rt.n_ctx
  unfolding prepare
  prepare-short rt request tokens s e =
      let (prompt, _, e₁) = >>=-inversion (build_prompt request) _ e in
      let (found, _, e₂) = >>=-inversion (context _ (h.str_to_token prompt)) _ e₁ in
      let (u, fits, e₃) = >>=-inversion (fits_context (length found) rt.n_ctx) _ e₂ in
      let same : found ≡ tokens = cc e₃ in
      subst (λ l. u32 (length l) < rt.n_ctx) same
        (fits_context-short (length found) rt.n_ctx u fits)

  ingest-Fits :
      (rt : Runtime) (job : Job) (i started : ℕ) (tokens : List h.Token) (s : h.Sampler)
      (filled : Outcome (Unit {0})) (b : h.Batch) (w : h.World)
      → u32 (length tokens) < rt.n_ctx
      → PrefillFits rt i (ingest rt job i started tokens s (filled, b) w).0
  unfolding ingest
  ingest-Fits rt job i started tokens s (err e) b w short = tt
  ingest-Fits rt job i started tokens s (ok u) b w short = elim (Outcome-cases (h.decode w b).0) [
    | inl (v, p) ↦
        rw (p, ingest) (first_token-Fits rt job i (u32 (length tokens)) _ started s _ short)
    | inr (e, p) ↦ rw (p, ingest) tt
  ]

  -- A request that is admitted runs in a slot of its own that fits its context.
  pub prefill-Fits :
      (rt : Runtime) (job : Job) (i : ℕ) (b : h.Batch) (w : h.World)
      → PrefillFits rt i (prefill rt job i b w).0
  unfolding prefill
  prefill-Fits rt job i b w = elim (Outcome-cases (prepare rt job.request)) [
    | inl ((tokens, s), p) ↦
        rw (p, prefill, ingest_prepared)
          (ingest-Fits rt job i _ tokens s _ _ _ (prepare-short rt job.request tokens s p))
    | inr (e, p) ↦ rw (p, prefill, ingest_prepared) tt
  ]
