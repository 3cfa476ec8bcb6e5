-- ===== src/Engine/Host.antt =====
-- What the engine calls and does not implement: llama.cpp behind the crate llama-cpp-2, the event
-- channels of tokio, the decoder of encoding_rs, the clock, and `f64` arithmetic.
use llm_worker.Base.{ℕ, ℤ, ◌≡◌, ◌≢◌, refl, ◌∙◌, ◌⊎◌, inl, inr, Text, Bool, List, [], ◌∷◌, ◌++◌}
use llm_worker.Engine.Types.{Event}

pub data Sent : Type 0 where
  sent full closed : Sent

-- The error of a call is held as its message.
pub data Outcome {ℓ} (A : Type ℓ) : Type ℓ where
  ok : A → Outcome A
  err : Text → Outcome A

pub Outcome-cases {ℓ} :
    {A : Type ℓ} (o : Outcome A) → ((a : A) × (o ≡ ok a)) ⊎ ((e : Text) × (o ≡ err e))
Outcome-cases (ok a) = inl (a, refl)
Outcome-cases (err e) = inr (e, refl)

pub Sent-cases : (o : Sent) → (o ≡ sent) ⊎ ((o ≡ full) ⊎ (o ≡ closed))
Sent-cases sent = inl refl
Sent-cases full = inr (inl refl)
Sent-cases closed = inr (inr refl)

-- `World` is everything outside the engine thread: the callers, the device and the clock. Each call
-- may change it, so what other threads do in between is part of the call.
pub record Host : Type 1 where
  pub World : Type 0
  pub Token : Type 0
  pub Sampler : Type 0
  pub Decoder : Type 0
  pub Batch : Type 0
  pub Template : Type 0
  pub ChatMessage : Type 0
  pub Float : Type 0
  -- Channels, flags and clocks; `instant_now` counts nanoseconds.
  pub try_send : World → ℕ → Event → Sent × World
  pub load_flag : World → ℕ → Bool × World
  pub ggml_time_us : World → ℕ × World
  pub instant_now : World → ℕ × World
  -- The prompt.
  pub chat_template : Outcome Template
  pub chat_message : Text → Text → Outcome ChatMessage
  pub apply_chat_template : Template → List ChatMessage → Outcome Text
  pub str_to_token : Text → Outcome (List Token)
  -- Sampling, and the text of a token.
  pub greedy : Sampler
  pub temp_top_p_dist : ℕ → ℕ → ℕ → Sampler
  pub sample : Sampler → World → ℕ → Token × Sampler × World
  pub accept : Sampler → Token → Sampler
  pub is_eog_token : Token → Bool
  pub new_decoder : Decoder
  pub token_to_piece : Token → Decoder → Outcome Text × Decoder
  -- The batch and the shared context.
  pub clear : Batch → Batch
  pub add : Batch → Token → ℕ → ℕ → Bool → Outcome Batch
  pub n_tokens : Batch → ℕ
  pub decode : World → Batch → Outcome (Unit {0}) × World
  pub clear_kv_cache_seq : World → ℕ → World
  -- `f64`: zero, `==`, `>=`, conversion, product and fused product and sum; `ms_of_us` is
  -- `(us as f64 / 1e6 * 1e3) as u64`.
  pub f64_zero : Float
  pub f64_eq : Float → Float → Bool
  pub f64_ge : Float → Float → Bool
  pub f64_of : ℤ → Float
  pub f64_mul : Float → Float → Float
  pub mul_add : Float → Float → Float → Float
  pub seven_tenths : Float
  pub three_tenths : Float
  pub ms_of_us : ℤ → ℕ

-- What the engine relies on of a channel: an accepted event is the last of its own channel's events
-- and of no other's, and no other call of the engine adds one. `received w c` are the events that
-- channel `c` has accepted so far, in order, whether or not its caller has read them.
pub record ChannelLaws (h : Host) : Type 0 where
  pub received : h.World → ℕ → List Event
  pub received_sent :
      (w : h.World) (c : ℕ) (e : Event)
      → (h.try_send w c e).0 ≡ sent
      → received (h.try_send w c e).1 c ≡ received w c ++ e ∷ []
  pub received_other :
      (w : h.World) (c d : ℕ) (e : Event) → d ≢ c → received (h.try_send w c e).1 d ≡ received w d
  pub received_refused :
      (w : h.World) (c : ℕ) (e : Event)
      → (h.try_send w c e).0 ≢ sent
      → received (h.try_send w c e).1 c ≡ received w c
  pub received_flag : (w : h.World) (f c : ℕ) → received (h.load_flag w f).1 c ≡ received w c
  pub received_time : (w : h.World) (c : ℕ) → received (h.ggml_time_us w).1 c ≡ received w c
  pub received_instant : (w : h.World) (c : ℕ) → received (h.instant_now w).1 c ≡ received w c
  pub received_sample :
      (s : h.Sampler) (w : h.World) (row c : ℕ) → received (h.sample s w row).2 c ≡ received w c
  pub received_decode :
      (w : h.World) (b : h.Batch) (c : ℕ) → received (h.decode w b).1 c ≡ received w c
  pub received_clear :
      (w : h.World) (s c : ℕ) → received (h.clear_kv_cache_seq w s) c ≡ received w c

-- `v` comes from `w` by calls of the engine that send nothing.
pub data Quiet ⦃h : Host⦄ (w : h.World) : h.World → Type 0 where
  same : Quiet w w
  flag : {v : h.World} (f : ℕ) → Quiet w v → Quiet w (h.load_flag v f).1
  time : {v : h.World} → Quiet w v → Quiet w (h.ggml_time_us v).1
  instant : {v : h.World} → Quiet w v → Quiet w (h.instant_now v).1
  sampled : {v : h.World} (s : h.Sampler) (row : ℕ) → Quiet w v → Quiet w (h.sample s v row).2
  decodes : {v : h.World} (b : h.Batch) → Quiet w v → Quiet w (h.decode v b).1
  clears : {v : h.World} (s : ℕ) → Quiet w v → Quiet w (h.clear_kv_cache_seq v s)

pub received-Quiet :
    ⦃h : Host⦄ (laws : ChannelLaws h) (c : ℕ) (w : h.World) {v : h.World}
    → Quiet w v
    → laws.received v c ≡ laws.received w c
received-Quiet laws c w same = refl
received-Quiet laws c w (flag f q) = laws.received_flag _ f c ∙ received-Quiet laws c w q
received-Quiet laws c w (time q) = laws.received_time _ c ∙ received-Quiet laws c w q
received-Quiet laws c w (instant q) = laws.received_instant _ c ∙ received-Quiet laws c w q
received-Quiet laws c w (sampled s row q) =
    laws.received_sample s _ row c ∙ received-Quiet laws c w q
received-Quiet laws c w (decodes b q) = laws.received_decode _ b c ∙ received-Quiet laws c w q
received-Quiet laws c w (clears s q) = laws.received_clear _ s c ∙ received-Quiet laws c w q
