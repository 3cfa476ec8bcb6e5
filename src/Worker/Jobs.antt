-- ===== src/Worker/Jobs.antt =====
-- llm-worker/src/worker.rs: the two kinds of job of the ring, and `process` for each.
use llm_worker.Base.{ℕ, ◌≡◌, refl, sym, ap, ◌∙◌, Text, Bool, List, ◌++◌, Option}
use llm_worker.Engine.Handle.{JobQueue}
use llm_worker.Engine.Host.{Outcome}
use llm_worker.Protocol.Json.{Printer}
use llm_worker.Protocol.Request.{RequestDefaults}
use llm_worker.Worker.Answered.{serve_lem, request_writes}
use llm_worker.Worker.Body.{read_body_lem}
use llm_worker.Worker.Lane.{JobLane, SourceFrame, read_request, local_read_body, remote_read_body}
use llm_worker.Worker.Serve.{Outside, Serving, serve}
use llm_worker.Worker.Writer.{Done, RingWriter, Healthy}

-- A job says the head of its request, and what a reader gives from an index on, with the interval at which
-- it looks for more. `service` and `client` number the ring's service and the client of a remote ingress.
pub record LocalJob : Type 0 where
  pub request : Outcome (Option (Unit {0}))
  pub source_reader_from : ℕ → ℕ → List (Outcome SourceFrame)
  pub stream_id : ℕ
  pub slot_bytes : ℕ
  pub service : ℕ

pub record RemoteJob : Type 0 where
  pub request : Outcome (Option (Unit {0}))
  pub source_reader_from : ℕ → ℕ → List (Outcome SourceFrame)
  pub origin : Text
  pub stream_id : ℕ
  pub slot_bytes : ℕ
  pub client : ℕ

-- What `ResponseCacheWriter::local` and `ResponseCacheWriter::remote` are given.
pub data WriterTarget : Type 0 where
  to_service : (service stream_id slot_bytes : ℕ) → WriterTarget
  to_origin : (client : ℕ) (origin : Text) (stream_id slot_bytes : ℕ) → WriterTarget

-- The lane of a job, read at the poll interval; `in_time` is whether the body comes within the request
-- timeout.
unfoldable pub local_lane : ℕ → Bool → LocalJob → JobLane
unfolding local_read_body
local_lane poll in_time job = record {
  request_head = job.request;
  read_body = local_read_body (job.source_reader_from 1 poll);
  in_time = in_time;
}

unfoldable pub remote_lane : ℕ → Bool → RemoteJob → JobLane
unfolding remote_read_body
remote_lane poll in_time job = record {
  request_head = job.request;
  read_body = remote_read_body (job.source_reader_from 1 poll);
  in_time = in_time;
}

unfoldable pub local_writer : LocalJob → WriterTarget
local_writer job = to_service job.service job.stream_id job.slot_bytes

unfoldable pub remote_writer : RemoteJob → WriterTarget
remote_writer job = to_origin job.client job.origin job.stream_id job.slot_bytes

-- Jobs that say the same have the same lane: both loops read the same body.
lanes_alike :
    (poll : ℕ) (in_time : Bool) (near : LocalJob) (far : RemoteJob)
    → near.request ≡ far.request
    → near.source_reader_from 1 poll ≡ far.source_reader_from 1 poll
    → remote_lane poll in_time far ≡ local_lane poll in_time near
unfolding local_lane remote_lane
lanes_alike poll in_time near far head frames =
    let same_body =
      (read_body_lem (far.source_reader_from 1 poll)).1
      ∙ sym (read_body_lem (far.source_reader_from 1 poll)).0
      ∙ ap local_read_body (sym frames) in
    let lane : Outcome (Option (Unit {0})) → Outcome (List ℕ) → JobLane =
      λ head bytes. record { request_head = head; read_body = bytes; in_time = in_time } in
    ap (λ head. lane head (remote_read_body (far.source_reader_from 1 poll))) (sym head)
    ∙ ap (lane near.request) same_body

module _ (p : Printer) (ring : RingWriter) (queues : JobQueue)
    (writer : WriterTarget → ring.Writer) where
  unfoldable pub process_local :
      RequestDefaults
      → Outside
      → ℕ
      → Bool
      → LocalJob
      → Serving p ring queues
      → Done × Serving p ring queues
  unfolding local_lane local_writer serve
  process_local defaults o poll in_time job s =
      serve p ring queues defaults o (local_lane poll in_time job)
        (record s { writer = writer (local_writer job) })

  unfoldable pub process_remote :
      RequestDefaults
      → Outside
      → ℕ
      → Bool
      → RemoteJob
      → Serving p ring queues
      → Done × Serving p ring queues
  unfolding remote_lane remote_writer serve
  process_remote defaults o poll in_time job s =
      serve p ring queues defaults o (remote_lane poll in_time job)
        (record s { writer = writer (remote_writer job) })

  -- A local and a remote job have the same head and the same frames from index 1 on, at the poll interval.
  -- They are served alike, by a worker in the same state and through writers that stay open and hold the
  -- same: the same result, and the same is written.
  pub process-alike :
      (healthy : Healthy ring) (defaults : RequestDefaults) (o : Outside) (poll : ℕ)
      (in_time : Bool) (near : LocalJob) (far : RemoteJob) (s : Serving p ring queues)
      → near.request ≡ far.request
      → near.source_reader_from 1 poll ≡ far.source_reader_from 1 poll
      → healthy.written (writer (local_writer near)) ≡ healthy.written (writer (remote_writer far))
      → let r₁ = process_local defaults o poll in_time near s in
        let r₂ = process_remote defaults o poll in_time far s in
        (r₁.0 ≡ r₂.0) × (healthy.written r₁.1.writer ≡ healthy.written r₂.1.writer)
  unfolding process_local process_remote
  process-alike healthy defaults o poll in_time near far s head frames fresh =
      let lane₁ = local_lane poll in_time near in
      let lane₂ = remote_lane poll in_time far in
      let s₁ : Serving p ring queues = record s { writer = writer (local_writer near) } in
      let s₂ : Serving p ring queues = record s { writer = writer (remote_writer far) } in
      let read = read_request o.from_slice o.late lane₁ in
      let read_same : read_request o.from_slice o.late lane₂ ≡ read =
        ap (read_request o.from_slice o.late) (lanes_alike poll in_time near far head frames) in
      let (result₁, writes₁) = serve_lem p ring healthy queues defaults o lane₁ s₁ read refl in
      let (result₂, writes₂) = serve_lem p ring healthy queues defaults o lane₂ s₂ read read_same in
      (
        result₁ ∙ sym result₂,
        writes₁
            ∙ ap (λ w. w ++ request_writes p ring healthy queues defaults o s₁ read) fresh
            ∙ sym writes₂,
      )
