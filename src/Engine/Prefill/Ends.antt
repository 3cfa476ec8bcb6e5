-- ===== src/Engine/Prefill/Ends.antt =====
-- How a prefill ends: a slot, an answer at once, or an error.
use llm_worker.Base.{
  ℕ, ◌-◌, ◌≤◌, ◌<◌, ◌≡◌, refl, min, u32, Text, codes, Bool, true, false, Bool-cases, ◌==◌, ◌||◌,
  List, length, inl, inr, ◌⊎◌, some, arith, if◌then◌else◌,
}
use llm_worker.Engine.Types.{Job, token, end_of_generation, context_full}
use llm_worker.Engine.Host.{Host, Outcome, ok, err, Outcome-cases}
use llm_worker.Engine.Prefill.{
  Runtime, Prefilled, running, finished, broken, prepare, start_slot, first_token, ingest,
  ingest_prepared, prefill, fill, last_row,
}
use llm_worker.Engine.Prefill.Fits.{asked, prepare-short}

module _ ⦃h : Host⦄ (rt : Runtime) (job : Job) where
  -- What follows from the first token `t` behind a prompt of `count` tokens. If the model ends with it,
  -- the request is over; if not, it is over if it asks for no token, and else it gets a slot that holds the
  -- token and its text, unless the token has no text.
  abbrev pub First : h.Token → ℕ → Prefilled → Type 0
  First t count (running slot) =
      (h.is_eog_token t ≡ false)
      × (1 ≤ asked job)
      × (slot.next_input ≡ t)
      × (slot.prompt_tokens ≡ count)
      × (slot.n_decoded ≡ 1)
      × ((text : Text) × ((h.token_to_piece t h.new_decoder).0 ≡ ok text)
          × (slot.pending ≡ some (token text)))
  First t count (finished stop prompt_tokens ms) =
      (prompt_tokens ≡ count)
      × (((h.is_eog_token t ≡ true) × (stop ≡ end_of_generation))
          ⊎ ((h.is_eog_token t ≡ false) × (stop ≡ context_full) × (asked job ≡ 0)))
  First t count (broken error) =
      (h.is_eog_token t ≡ false)
      × (1 ≤ asked job)
      × ((h.token_to_piece t h.new_decoder).0 ≡ err error)

  module _ (i : ℕ) (b : h.Batch) (w : h.World) where
    abbrev filled : List h.Token → Outcome (Unit {0}) × h.Batch
    filled tokens = fill tokens 0 (last_row tokens) i (h.clear b)

    abbrev started_at : h.World
    started_at = (h.ggml_time_us w).1

    -- The decode of the prompt.
    abbrev decoded_prompt : List h.Token → Outcome (Unit {0}) × h.World
    decoded_prompt tokens = h.decode started_at (filled tokens).1

    -- The token that is sampled from the last position of the prompt.
    abbrev sampled_first : List h.Token → h.Sampler → h.Token
    sampled_first tokens s =
        (h.sample s (h.ggml_time_us (decoded_prompt tokens).1).1 (last_row tokens)).0

    -- The ways in which a prefill ends: the prompt is not made, does not fit the batch or is not decoded,
    -- with the error of that step; or it is shorter than the context, and the first token decides.
    pub data Ends : Prefilled → Type 0 where
      unprepared : (error : Text) → prepare rt job.request ≡ err error → Ends (broken error)
      unfilled :
          (tokens : List h.Token) (s : h.Sampler) (error : Text)
          → prepare rt job.request ≡ ok (tokens, s)
          → (filled tokens).0 ≡ err error
          → Ends (broken error)
      undecoded :
          (tokens : List h.Token) (s : h.Sampler) (error : Text)
          → prepare rt job.request ≡ ok (tokens, s)
          → (filled tokens).0 ≡ ok tt
          → (decoded_prompt tokens).0 ≡ err error
          → Ends (broken (codes "prompt decode failed"))
      began :
          (tokens : List h.Token) (s : h.Sampler) (result : Prefilled)
          → prepare rt job.request ≡ ok (tokens, s)
          → (filled tokens).0 ≡ ok tt
          → (decoded_prompt tokens).0 ≡ ok tt
          → u32 (length tokens) < rt.n_ctx
          → First (sampled_first tokens s) (u32 (length tokens)) result
          → Ends result

  start_slot-First :
      (i count : ℕ) (t : h.Token) (s : h.Sampler) (w : h.World)
      → h.is_eog_token t ≡ false
      → 1 ≤ asked job
      → First t count (start_slot rt job i count t s w).0
  unfolding start_slot
  start_slot-First i count t s w goes wants =
      elim (Outcome-cases (h.token_to_piece t h.new_decoder).0) [
        | inl (text, p) ↦ rw (p, start_slot) (goes, wants, refl, refl, refl, (text, p, refl))
        | inr (error, p) ↦ rw (p, start_slot) (goes, wants, p)
      ]

  over_cases :
      (eog : Bool) (budget : ℕ)
      → (eog || (budget == 0)) ≡ true
      → let stop = if eog then end_of_generation else context_full in
        ((eog ≡ true) × (stop ≡ end_of_generation))
        ⊎ ((eog ≡ false) × (stop ≡ context_full) × (budget ≡ 0))
  over_cases true budget e = inl (refl, refl)
  over_cases false budget e = inr (refl, refl, ground arith)

  goes_on :
      (eog : Bool) (budget : ℕ) → (eog || (budget == 0)) ≡ false → (eog ≡ false) × (1 ≤ budget)
  goes_on true budget e = ground arith
  goes_on false budget e = (refl, ground arith)

  first_token-First :
      (i count last started : ℕ) (s : h.Sampler) (w : h.World)
      → count < rt.n_ctx
      → First
          (h.sample s (h.ggml_time_us w).1 last).0
          count
          (first_token rt job i count last started s w).0
  unfolding first_token
  first_token-First i count last started s w short =
      let budget = min (asked job) (rt.n_ctx - count) in
      let t = (h.sample s (h.ggml_time_us w).1 last).0 in
      elim (Bool-cases (h.is_eog_token t || (budget == 0))) [
        | inl over ↦
            rw (over, first_token)
              (
                refl,
                elim (over_cases (h.is_eog_token t) budget over) [
                  | inl ended ↦ inl ended
                  | inr (goes, stop, spent) ↦ inr (goes, stop, omega arith)
                ],
              )
        | inr on ↦
            let (goes, funded) = goes_on (h.is_eog_token t) budget on in
            rw (on, first_token) (start_slot-First i count t _ _ goes (omega arith))
      ]

  -- A prefill ends in one of these ways: the error of a prompt that is not made, not taken into the batch
  -- or not decoded; or else the prompt is shorter than the context, and the first sampled token decides.
  -- If that token ends the generation, so is the request ended, with `EndOfGeneration`. If not, a request
  -- that asks for no token is ended with `ContextFull`, and one that asks for some gets a slot that holds
  -- the token and its text, or the error if the token has no text.
  pub prefill-Ends : (i : ℕ) (b : h.Batch) (w : h.World) → Ends i b w (prefill rt job i b w).0
  unfolding prefill ingest_prepared ingest
  prefill-Ends i b w = elim (Outcome-cases (prepare rt job.request)) [
    | inr (e, p) ↦ rw (p, prefill, ingest_prepared) (unprepared e p)
    | inl ((tokens, s), p) ↦ elim (Outcome-cases (filled i b w tokens).0) [
      | inr (e, q) ↦ rw (p, prefill, q, ingest) (unfilled tokens s e p q)
      | inl (u, q) ↦ elim (Outcome-cases (decoded_prompt i b w tokens).0) [
        | inr (e, d) ↦ rw (p, prefill, q, d, ingest) (undecoded tokens s e p q d)
        | inl (v, d) ↦
            rw (p, prefill, q, d, ingest)
              (began tokens s _ p q d (prepare-short rt job.request tokens s p) (
                first_token-First i (u32 (length tokens)) (last_row tokens) (h.ggml_time_us w).0 s
                  (decoded_prompt i b w tokens).1 (prepare-short rt job.request tokens s p)))
      ]
    ]
  ]
