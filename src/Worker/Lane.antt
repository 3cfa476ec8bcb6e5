-- ===== src/Worker/Lane.antt =====
-- llm-worker/src/worker.rs: how a request is read from a lane of the ring. The ring's readers and its
-- writer are those of the crates gpu-worker and upload-response.
use llm_worker.Base.{ℕ, Text, codes, Bool, true, false, List, [], ◌∷◌, ◌++◌, Option, none, some}
use llm_worker.Engine.Host.{Outcome, ok, err}
use llm_worker.Protocol.Request.{ChatRequest, parse}

-- The frames of a source lane. `body` and `end` are told apart, every other frame is skipped.
pub data SourceFrame : Type 0 where
  body : List ℕ → SourceFrame
  end : SourceFrame
  other : SourceFrame

-- The loop of `read_body` of a local job, over what `next_frame` gives one call after another until it
-- gives `None`.
unfoldable pub read_frames : List ℕ → List (Outcome SourceFrame) → Outcome (List ℕ)
read_frames bytes [] = ok bytes
read_frames bytes (err e ∷ frames) = err e
read_frames bytes (ok (body chunk) ∷ frames) = read_frames (bytes ++ chunk) frames
read_frames bytes (ok end ∷ frames) = ok bytes
read_frames bytes (ok other ∷ frames) = read_frames bytes frames

unfoldable pub local_read_body : List (Outcome SourceFrame) → Outcome (List ℕ)
unfolding read_frames
local_read_body frames = read_frames [] frames

-- The loop of `read_body` of a remote job, which the source writes out again.
unfoldable pub read_remote_frames : List ℕ → List (Outcome SourceFrame) → Outcome (List ℕ)
read_remote_frames bytes [] = ok bytes
read_remote_frames bytes (err e ∷ frames) = err e
read_remote_frames bytes (ok (body chunk) ∷ frames) = read_remote_frames (bytes ++ chunk) frames
read_remote_frames bytes (ok end ∷ frames) = ok bytes
read_remote_frames bytes (ok other ∷ frames) = read_remote_frames bytes frames

unfoldable pub remote_read_body : List (Outcome SourceFrame) → Outcome (List ℕ)
unfolding read_remote_frames
remote_read_body frames = read_remote_frames [] frames

-- One claimed job: what `request_head` and `read_body` answer, and whether the body arrives within the
-- request timeout.
pub record JobLane : Type 0 where
  pub request_head : Outcome (Option (Unit {0}))
  pub read_body : Outcome (List ℕ)
  pub in_time : Bool

-- The timeout's message names the configured time; `late` is that message.
unfoldable pub body_in_time : Text → JobLane → Outcome (List ℕ)
body_in_time late lane = elim lane.in_time [ true ↦ lane.read_body | false ↦ err late ]

-- `from_slice` is the JSON parser that `ChatRequest::parse` calls.
module _ (from_slice : List ℕ → Outcome ChatRequest) (late : Text) where
  unfoldable pub read_request : JobLane → Outcome ChatRequest
  unfolding body_in_time
  read_request lane = elim lane.request_head [
    | err e ↦ err e
    | ok none ↦ err (codes "request headers were missing")
    | ok (some head) ↦ elim (body_in_time late lane) [
      | err e ↦ err e
      | ok bytes ↦ parse from_slice bytes
    ]
  ]
