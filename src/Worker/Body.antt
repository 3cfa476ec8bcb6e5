-- ===== src/Worker/Body.antt =====
-- llm-worker/src/worker.rs: what `read_body` makes of the frames of a source lane.
use llm_worker.Base.{
  concat, ℕ, ◌≡◌, refl, sym, ap, ◌∙◌, Text, List, [], ◌∷◌, ◌++◌, append_assoc, append-nil, Option,
  none, some,
}
use llm_worker.Engine.Host.{Outcome, ok, err}
use llm_worker.Worker.Lane.{
  SourceFrame, body, end, other, read_frames, read_remote_frames, local_read_body, remote_read_body,
}

-- The frames before the first end.
abbrev pub before_end : List (Outcome SourceFrame) → List (Outcome SourceFrame)
before_end [] = []
before_end (err e ∷ frames) = err e ∷ before_end frames
before_end (ok (body chunk) ∷ frames) = ok (body chunk) ∷ before_end frames
before_end (ok end ∷ frames) = []
before_end (ok other ∷ frames) = ok other ∷ before_end frames

abbrev pub first_error : List (Outcome SourceFrame) → Option Text
first_error [] = none
first_error (err e ∷ frames) = some e
first_error (ok frame ∷ frames) = first_error frames

abbrev pub chunks : List (Outcome SourceFrame) → List (List ℕ)
chunks [] = []
chunks (err e ∷ frames) = chunks frames
chunks (ok (body chunk) ∷ frames) = chunk ∷ chunks frames
chunks (ok end ∷ frames) = chunks frames
chunks (ok other ∷ frames) = chunks frames

abbrev pub whole_or_error : Option Text → List ℕ → Outcome (List ℕ)
whole_or_error none bytes = ok bytes
whole_or_error (some e) bytes = err e

read_frames_lem :
    (bytes : List ℕ) (frames : List (Outcome SourceFrame))
    → read_frames bytes frames
      ≡ whole_or_error
          (first_error (before_end frames))
          (bytes ++ concat (chunks (before_end frames)))
unfolding read_frames
read_frames_lem bytes [] = ap ok (sym (append-nil bytes))
read_frames_lem bytes (err e ∷ frames) = refl
read_frames_lem bytes (ok (body chunk) ∷ frames) =
    let rest = before_end frames in
    read_frames_lem (bytes ++ chunk) frames
    ∙ ap (whole_or_error (first_error rest)) (append_assoc bytes chunk (concat (chunks rest)))
read_frames_lem bytes (ok end ∷ frames) = ap ok (sym (append-nil bytes))
read_frames_lem bytes (ok other ∷ frames) = read_frames_lem bytes frames

read_remote_frames_lem :
    (bytes : List ℕ) (frames : List (Outcome SourceFrame))
    → read_remote_frames bytes frames
      ≡ whole_or_error
          (first_error (before_end frames))
          (bytes ++ concat (chunks (before_end frames)))
unfolding read_remote_frames
read_remote_frames_lem bytes [] = ap ok (sym (append-nil bytes))
read_remote_frames_lem bytes (err e ∷ frames) = refl
read_remote_frames_lem bytes (ok (body chunk) ∷ frames) =
    let rest = before_end frames in
    read_remote_frames_lem (bytes ++ chunk) frames
    ∙ ap (whole_or_error (first_error rest)) (append_assoc bytes chunk (concat (chunks rest)))
read_remote_frames_lem bytes (ok end ∷ frames) = ap ok (sym (append-nil bytes))
read_remote_frames_lem bytes (ok other ∷ frames) = read_remote_frames_lem bytes frames

-- The body of a request, of a local job as of a remote one, is the chunks of its body frames, one behind
-- another, up to the first frame that ends it; frames of other kinds and what follows the end play no
-- part. The first error before the end is the result instead.
pub read_body_lem :
    (frames : List (Outcome SourceFrame))
    → let used = before_end frames in
      let read = whole_or_error (first_error used) (concat (chunks used)) in
      (local_read_body frames ≡ read) × (remote_read_body frames ≡ read)
unfolding local_read_body remote_read_body
read_body_lem frames = (read_frames_lem [] frames, read_remote_frames_lem [] frames)
