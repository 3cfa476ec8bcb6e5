-- ===== src/Tests/Toy.antt =====
-- A small host: channels 8 and 9 are full and closed, flag 7 is set, and a generation counts from
-- token 10 up to the end-of-generation token 13.
use llm_worker.Base.{
  ℕ, ◌+◌, ◌≡◌, ◌≢◌, refl, ◌==◌, leb, pos_part, Text, List, [], ◌∷◌, ◌++◌, if◌then◌else◌, arith,
  codes, pos,
}
use llm_worker.Engine.Types.{Event, Job, user_request}
use llm_worker.Engine.Host.{Host, ChannelLaws, Sent, sent, full, closed, ok}
use llm_worker.Engine.Ledger.{IsOpen}
use llm_worker.Engine.Prefill.{Runtime}

abbrev pub Accepted : Type 0
Accepted = List (ℕ × Event)

abbrev pub answer : ℕ → Sent
answer c = if c == 8 then full else (if c == 9 then closed else sent)

abbrev pub accept_sent : Sent → Accepted → ℕ → Event → Accepted
accept_sent sent w c e = w ++ (c, e) ∷ []
accept_sent full w c e = w
accept_sent closed w c e = w

instance abbrev pub toy : Host
toy = record {
  World = Accepted;
  Token = ℕ;
  Sampler = ℕ;
  Decoder = Unit {0};
  Batch = ℕ;
  Template = Unit {0};
  ChatMessage = Text;
  Float = ℕ;
  try_send = λ w c e. (answer c, accept_sent (answer c) w c e);
  load_flag = λ w f. (f == 7, w);
  ggml_time_us = λ w. (1000, w);
  instant_now = λ w. (0, w);
  chat_template = ok tt;
  chat_message = λ role content. ok content;
  apply_chat_template = λ t messages. ok (codes "prompt");
  str_to_token = λ t. ok (1 ∷ 2 ∷ []);
  greedy = 10;
  temp_top_p_dist = λ temperature top_p seed. 10;
  sample = λ s w row. (s, s, w);
  accept = λ s t. s + 1;
  is_eog_token = λ t. t == 13;
  new_decoder = tt;
  token_to_piece = λ t d. (ok (t ∷ []), d);
  clear = λ b. 0;
  add = λ b t position seq logits. ok (b + 1);
  n_tokens = λ b. b;
  decode = λ w b. (ok tt, w);
  clear_kv_cache_seq = λ w s. w;
  f64_zero = 0;
  f64_eq = ◌==◌;
  f64_ge = λ a b. leb b a;
  f64_of = pos_part;
  f64_mul = λ a b. a;
  mul_add = λ a b c. a + c;
  seven_tenths = 0;
  three_tenths = 0;
  ms_of_us = pos_part;
}

abbrev pub received_on : Accepted → ℕ → List Event
received_on [] c = []
received_on ((d, e) ∷ w) c = if d == c then e ∷ received_on w c else received_on w c

received_on-same :
    (w : Accepted) (c : ℕ) (e : Event)
    → received_on (w ++ (c, e) ∷ []) c ≡ received_on w c ++ e ∷ []
received_on-same [] c e = ground arith
received_on-same ((d, f) ∷ w) c e = ground (arith, received_on-same w c e)

received_on-other :
    (w : Accepted) (c d : ℕ) (e : Event)
    → d ≢ c
    → received_on (w ++ (c, e) ∷ []) d ≡ received_on w d
received_on-other [] c d e ne = ground arith
received_on-other ((b, f) ∷ w) c d e ne = ground (arith, received_on-other w c d e ne)

pub accepted-same :
    (s : Sent) (w : Accepted) (c : ℕ) (e : Event)
    → s ≡ sent
    → received_on (accept_sent s w c e) c ≡ received_on w c ++ e ∷ []
accepted-same sent w c e p = received_on-same w c e
accepted-same full w c e p = cc
accepted-same closed w c e p = cc

pub accepted-other :
    (s : Sent) (w : Accepted) (c d : ℕ) (e : Event)
    → d ≢ c
    → received_on (accept_sent s w c e) d ≡ received_on w d
accepted-other sent w c d e ne = received_on-other w c d e ne
accepted-other full w c d e ne = refl
accepted-other closed w c d e ne = refl

pub refused-same :
    (s : Sent) (w : Accepted) (c : ℕ) (e : Event)
    → s ≢ sent
    → received_on (accept_sent s w c e) c ≡ received_on w c
refused-same sent w c e p = absurd (p refl)
refused-same full w c e p = refl
refused-same closed w c e p = refl

abbrev pub toy_laws : ChannelLaws toy
toy_laws = record {
  received = received_on;
  received_sent = λ w c e p. accepted-same (answer c) w c e p;
  received_other = λ w c d e ne. accepted-other (answer c) w c d e ne;
  received_refused = λ w c e p. refused-same (answer c) w c e p;
  received_flag = λ w f c. refl;
  received_time = λ w c. refl;
  received_instant = λ w c. refl;
  received_sample = λ s w row c. refl;
  received_decode = λ w b c. refl;
  received_clear = λ w s c. refl;
}

abbrev pub runtime : Runtime
runtime = record {
  info = record { path = []; n_params = 0; n_layer = 0; n_ctx = 16 };
  n_ctx = 16;
  max_inflight = 2;
  target_step_us = pos 0;
}

-- A request on channel `c`, with flag `c`.
abbrev pub job_on : ℕ → Job
job_on c = record { request = user_request (codes "hi"); events = c; cancel = c }

pub IsOpen-3 : IsOpen 3
IsOpen-3 w e = λ p. cc
