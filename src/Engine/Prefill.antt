-- ===== src/Engine/Prefill.antt =====
-- llm-engine/src/lib.rs: `build_prompt` and `prefill`, which ingest a prompt and sample one token.
pub mod Fits
pub mod Quiet
pub mod Serves
pub mod Ends
use llm_worker.Base.{
  ◌≡◌, refl, ℕ, ◌+◌, ◌-◌, ◌^◌, min, ltb, ◌==◌, u32, ℤ, pos_part, sub_ℕ, Text, codes, decimal,
  f32_positive, Bool, ◌||◌, List, [], ◌∷◌, ◌++◌, length, none, some, if◌then◌else◌,
}
use llm_worker.Engine.Types.{
  GenerateRequest, Message, Job, Stop, ModelInfo, token, end_of_generation, context_full,
}
use llm_worker.Engine.Host.{Host, Outcome, ok, err}
use llm_worker.Engine.Slot.{Slot}

-- `target_step_us` is an `i64`.
pub record Runtime : Type 0 where
  pub info : ModelInfo
  pub n_ctx : ℕ
  pub max_inflight : ℕ
  pub target_step_us : ℤ

-- `?` and the chain of calls that it makes.
infixl 5 ◌>>=◌
abbrev pub ◌>>=◌ {κ μ} : {X : Type κ} {Y : Type μ} → Outcome X → (X → Outcome Y) → Outcome Y
err message >>= rest = err message
ok x >>= rest = rest x

-- A chain that succeeds has a first call that does.
pub >>=-inversion {κ μ} :
    {X : Type κ} {Y : Type μ} {y : Y} (first : Outcome X) (rest : X → Outcome Y)
    → (first >>= rest) ≡ ok y
    → (x : X) × (first ≡ ok x) × (rest x ≡ ok y)
>>=-inversion (err message) rest succeeds = cc
>>=-inversion (ok x) rest succeeds = (x, refl, succeeds)

-- `.context(message)`: the error prints as the message.
abbrev pub context {ℓ} : {A : Type ℓ} → Text → Outcome A → Outcome A
context message (ok a) = ok a
context message (err e) = err message

abbrev pub no_thinking : Text
no_thinking = codes "<think>\n\n</think>\n\n"

abbrev pub too_long : ℕ → ℕ → Text
too_long count n_ctx =
    codes "prompt is " ++ decimal count ++ codes " tokens and a slot's context is " ++ decimal n_ctx

unfoldable pub close_thinking : Bool → Text → Text
close_thinking think prompt = if think then prompt else prompt ++ no_thinking

unfoldable pub has_messages : List Message → Outcome (Unit {0})
has_messages [] = err (codes "request has no messages")
has_messages (m ∷ ms) = ok tt

unfoldable pub fits_context : ℕ → ℕ → Outcome (Unit {0})
fits_context count n_ctx = if ltb (u32 count) n_ctx then ok tt else err (too_long count n_ctx)

module _ ⦃h : Host⦄ where
  open h use {
    World, Token, Sampler, Batch, ChatMessage, chat_template, chat_message, apply_chat_template,
    str_to_token, greedy, temp_top_p_dist, sample, accept, is_eog_token, new_decoder,
    token_to_piece, clear, add, decode, ggml_time_us, ms_of_us,
  }

  unfoldable pub chat_messages : List Message → Outcome (List ChatMessage)
  chat_messages [] = ok []
  chat_messages (m ∷ ms) = do
    first ← chat_message m.role m.content
    rest ← chat_messages ms
    ok (first ∷ rest)

  unfoldable pub build_prompt : GenerateRequest → Outcome Text
  unfolding chat_messages close_thinking has_messages
  build_prompt request = do
    _ ← has_messages request.messages
    template ← context (codes "model has no chat template") chat_template
    messages ← chat_messages request.messages
    prompt ← apply_chat_template template messages
    ok (close_thinking request.think prompt)

  unfoldable pub choose_sampler : GenerateRequest → Sampler
  choose_sampler request =
      if f32_positive request.temperature
      then temp_top_p_dist request.temperature request.top_p request.seed
      else greedy

  -- The closure `prepared`.
  unfoldable pub prepare : Runtime → GenerateRequest → Outcome (List Token × Sampler)
  unfolding choose_sampler fits_context
  prepare rt request = do
    prompt ← build_prompt request
    tokens ← context (codes "failed to tokenize the prompt") (str_to_token prompt)
    _ ← fits_context (length tokens) rt.n_ctx
    ok (tokens, choose_sampler request)

  -- What a prefill gives back: `Admitted`, or the error; the job is the caller's.
  pub data Prefilled : Type 0 where
    running : Slot → Prefilled
    finished : Stop → ℕ → ℕ → Prefilled
    broken : Text → Prefilled

  -- `last` is an `i32`, as its bit pattern: -1 for no token at all.
  abbrev pub last_row : List Token → ℕ
  last_row tokens = u32 (length tokens + (2 ^ 32 - 1))

  -- `batch.add` at each position; the batch keeps what was added before an error.
  unfoldable pub fill : List Token → ℕ → ℕ → ℕ → Batch → Outcome (Unit {0}) × Batch
  fill [] position last seq_id batch = (ok tt, batch)
  fill (t ∷ ts) position last seq_id batch = elim (add batch t position seq_id (position == last)) [
    | ok batch' ↦ fill ts (position + 1) last seq_id batch'
    | err e ↦ (err e, batch)
  ]

  -- The slot that starts out with its first token pending.
  unfoldable pub start_slot : Runtime → Job → ℕ → ℕ → Token → Sampler → World → Prefilled × World
  start_slot rt job seq_id prompt_tokens first sampler w =
      let (piece, decoder) = token_to_piece first new_decoder in
      let room = rt.n_ctx - prompt_tokens in
      let asked = pos_part job.request.max_tokens in
      let (started, w') = ggml_time_us w in
      elim piece [
        | err e ↦ (broken e, w)
        | ok text ↦ (
          running (record {
            job = job;
            sampler = sampler;
            decoder = decoder;
            seq_id = seq_id;
            n_cur = prompt_tokens;
            next_input = first;
            prompt_tokens = prompt_tokens;
            n_decoded = 1;
            budget = min asked room;
            context_bound = ltb room asked;
            started_us = started;
            pending = some (token text);
            stalled_since = none;
          }),
          w',
        )
      ]

  -- After the prompt is decoded: one token, and whether the generation goes on at all.
  unfoldable pub first_token : Runtime → Job → ℕ → ℕ → ℕ → ℕ → Sampler → World → Prefilled × World
  unfolding start_slot
  first_token rt job seq_id prompt_tokens last started sampler w =
      let (now, w₁) = ggml_time_us w in
      let (first, sampler', w₂) = sample sampler w₁ last in
      let budget = min (pos_part job.request.max_tokens) (rt.n_ctx - prompt_tokens) in
      let stop = if is_eog_token first then end_of_generation else context_full in
      if is_eog_token first || budget == 0
      then (finished stop prompt_tokens (ms_of_us (sub_ℕ now started)), w₂)
      else start_slot rt job seq_id prompt_tokens first (accept sampler' first) w₂

  unfoldable pub ingest :
      Runtime
      → Job
      → ℕ
      → ℕ
      → List Token
      → Sampler
      → Outcome (Unit {0}) × Batch
      → World
      → Prefilled × Batch × World
  ingest rt job seq_id started tokens sampler (err e, batch) w = (broken e, batch, w)
  ingest rt job seq_id started tokens sampler (ok _, batch) w =
      let (decoded, w₁) = decode w batch in
      let (result, w₂) =
        first_token rt job seq_id (u32 (length tokens)) (last_row tokens) started sampler w₁ in
      elim decoded [
        | err e ↦ (broken (codes "prompt decode failed"), batch, w₁)
        | ok _ ↦ (result, batch, w₂)
      ]

  unfoldable pub ingest_prepared :
      Runtime
      → Job
      → ℕ
      → ℕ
      → Outcome (List Token × Sampler)
      → Batch
      → World
      → Prefilled × Batch × World
  unfolding ingest fill
  ingest_prepared rt job seq_id started (err e) batch w = (broken e, batch, w)
  ingest_prepared rt job seq_id started (ok (tokens, sampler)) batch w =
      ingest rt job seq_id started tokens sampler
        (fill tokens 0 (last_row tokens) seq_id (clear batch)) w

  unfoldable pub prefill : Runtime → Job → ℕ → Batch → World → Prefilled × Batch × World
  unfolding ingest_prepared
  prefill rt job seq_id batch w =
      let (started, w₁) = ggml_time_us w in
      ingest_prepared rt job seq_id started (prepare rt job.request) batch w₁
