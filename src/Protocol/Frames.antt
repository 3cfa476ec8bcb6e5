-- ===== src/Protocol/Frames.antt =====
-- A reader of server-sent events, as the HTML standard describes one, and what it makes of the frames
-- that llm-worker/src/protocol.rs writes.
use llm_worker.Base.{
  ℕ, ◌≡◌, refl, ap, ◌∙◌, ◌==◌, Text, true, false, List, [], ◌∷◌, ◌++◌, append_assoc, Option, none,
  some, arith, if◌then◌else◌,
}
use llm_worker.Protocol.Json.{IsOneLine, is_one_line, line_feed}
use llm_worker.Protocol.Response.{frame, data_prefix, frame_end}

-- The text up to the first line feed, and the lines that follow it.
abbrev pub cut : ℕ → Text × List Text → Text × List Text
cut c (line, later) = if c == line_feed then ([], line ∷ later) else (c ∷ line, later)

abbrev pub lines : Text → Text × List Text
lines [] = ([], [])
lines (c ∷ t) = cut c (lines t)

abbrev pub strip_prefix : Text → Text → Option Text
strip_prefix [] t = some t
strip_prefix (c ∷ p) [] = none
strip_prefix (c ∷ p) (d ∷ t) = let rest = strip_prefix p t in if c == d then rest else none

-- The data that the lines of an event have given so far; a further line of data comes after a line
-- feed, and every other field is ignored.
abbrev pub add_data : Option Text → Option Text → Option Text
add_data buffer none = buffer
add_data none (some payload) = some payload
add_data (some sofar) (some payload) = some (sofar ++ line_feed ∷ payload)

-- An empty line gives the event out.
abbrev pub give : Option Text → List Text → List Text
give none events = events
give (some sofar) events = sofar ∷ events

abbrev pub buffer_after : Option Text → Text → Option Text
buffer_after buffer [] = none
buffer_after buffer (c ∷ line) = add_data buffer (strip_prefix data_prefix (c ∷ line))

abbrev pub given : Option Text → Text → List Text → List Text
given buffer [] events = give buffer events
given buffer (c ∷ line) events = events

-- The last line has no line feed yet, and is not read.
abbrev pub read_lines : Option Text → Text → List Text → List Text
read_lines buffer line [] = []
read_lines buffer line (next ∷ later) =
    given buffer line (read_lines (buffer_after buffer line) next later)

-- The data of the events of a body.
unfoldable pub read_events : Text → List Text
read_events body = read_lines none (lines body).0 (lines body).1

IsOneLine-tail :
    (c : ℕ) (t : Text) → is_one_line (c ∷ t) ≡ true → ((c == line_feed) ≡ false) × IsOneLine t
IsOneLine-tail c t h = ground arith

lines-line :
    (line rest : Text)
    → IsOneLine line
    → lines (line ++ line_feed ∷ rest) ≡ (line, (lines rest).0 ∷ (lines rest).1)
lines-line [] rest h = refl
lines-line (c ∷ line) rest h =
    let (ne, tail) = IsOneLine-tail c line h in
    ap (cut c) (lines-line line rest tail)
    ∙ ap
        (λ b.
          if b
          then ([], line ∷ (lines rest).0 ∷ (lines rest).1)
          else (c ∷ line, (lines rest).0 ∷ (lines rest).1))
        ne

pub is_one_line-append : (s t : Text) → is_one_line s ≡ true → is_one_line (s ++ t) ≡ is_one_line t
is_one_line-append [] t h = refl
is_one_line-append (c ∷ s) t h =
    let (ne, tail) = IsOneLine-tail c s h in rw (ne, is_one_line-append s t tail) refl

-- A frame whose payload is one line is read as that payload, whatever follows it.
pub read_events-frame :
    (payload rest : Text)
    → IsOneLine payload
    → read_events (frame payload ++ rest) ≡ payload ∷ read_events rest
unfolding frame read_events
read_events-frame payload rest h =
    let line = data_prefix ++ payload in
    let whole = is_one_line-append data_prefix payload refl ∙ h in
    ap read_events (ap (λ t. data_prefix ++ t) (append_assoc payload frame_end rest))
    ∙ ap (λ cuts. read_lines none cuts.0 cuts.1) (lines-line line (line_feed ∷ rest) whole)
