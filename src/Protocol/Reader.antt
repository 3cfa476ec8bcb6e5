-- ===== src/Protocol/Reader.antt =====
-- A client's reading of an answer, as the API of chat completions describes one: of the object of an
-- answer in one body, and of the chunks of one that streams. It looks its fields up by their names, and
-- knows the writer of llm-worker/src/protocol.rs by their values only.
use llm_worker.Base.{
  concat, String, ◌≡◌, sym, ap, ◌∙◌, Text, codes, text_eq, List, [], ◌∷◌, ◌++◌, append_assoc,
  append-nil, map, some, Option, none, if◌then◌else◌,
}
use llm_worker.Engine.Types.{Stop}
use llm_worker.Protocol.Json.{Json, null, num, str, arr, obj, Items, nil, cons, Fields, end, field}
use llm_worker.Protocol.Response.{
  ResponseWriter, Usage, open_chunk, token_chunk, close_chunk, chunk_json, choice_json, delta_json,
  usage_json, optional_usage, completion_json, finish_reason, or_null,
}

-- The value of a field, `null` where there is none.
abbrev pub get : Text → Fields → Json
get name end = null
get name (field other j rest) = let later = get name rest in if text_eq other name then j else later

abbrev pub member : String → Json → Json
member name (obj fields) = get (codes name) fields
member name null = null
member name (num n) = null
member name (str t) = null
member name (arr items) = null

abbrev pub head_item : Items → Json
head_item nil = null
head_item (cons j rest) = j

abbrev pub first_item : Json → Json
first_item (arr items) = head_item items
first_item null = null
first_item (num n) = null
first_item (str t) = null
first_item (obj fields) = null

abbrev pub text_of : Json → Text
text_of (str t) = t
text_of null = []
text_of (num n) = []
text_of (arr items) = []
text_of (obj fields) = []

-- A later value takes the place of an earlier one, and `null` of none.
abbrev pub newer : Json → Json → Json
newer old null = old
newer old (num n) = num n
newer old (str t) = str t
newer old (arr items) = arr items
newer old (obj fields) = obj fields

-- What a client makes of an answer.
pub record Reading : Type 0 where
  pub id : Json
  pub created : Json
  pub model : Json
  pub role : Json
  pub text : Text
  pub reason : Json
  pub usage : Json

abbrev pub read_choice : Json → Json → Json → Reading
read_choice j choice message = record {
  id = member "id" j;
  created = member "created" j;
  model = member "model" j;
  role = member "role" message;
  text = text_of (member "content" message);
  reason = member "finish_reason" choice;
  usage = member "usage" j;
}

-- The reading of an answer in one body.
abbrev pub read_whole : Json → Reading
read_whole j =
    let choice = first_item (member "choices" j) in read_choice j choice (member "message" choice)

abbrev pub read_chunk : Json → Reading
read_chunk j =
    let choice = first_item (member "choices" j) in read_choice j choice (member "delta" choice)

abbrev pub join : Reading → Reading → Reading
join r s = record {
  id = newer r.id s.id;
  created = newer r.created s.created;
  model = newer r.model s.model;
  role = newer r.role s.role;
  text = r.text ++ s.text;
  reason = newer r.reason s.reason;
  usage = newer r.usage s.usage;
}

-- The reading of the chunks that follow one another.
abbrev pub read_chunks : Reading → List Json → Reading
read_chunks r [] = r
read_chunks r (j ∷ js) = read_chunks (join r (read_chunk j)) js

abbrev pub nothing_read : Reading
nothing_read = record {
  id = null;
  created = null;
  model = null;
  role = null;
  text = [];
  reason = null;
  usage = null;
}

module _ (w : ResponseWriter) where
  -- What is read before the last chunk.
  abbrev so_far : Text → Reading
  so_far text = record nothing_read {
    id = str w.id;
    created = num w.created;
    model = str w.model;
    role = str (codes "assistant");
    text = text;
  }

  read_chunks-tokens :
      (before : Text) (texts : List Text) (rest : List Json)
      → read_chunks (so_far before) (map (λ t. chunk_json w (token_chunk t)) texts ++ rest)
        ≡ read_chunks (so_far (before ++ concat texts)) rest
  unfolding chunk_json choice_json delta_json
  read_chunks-tokens before [] rest =
      ap (λ t. read_chunks (so_far t) rest) (sym (append-nil before))
  read_chunks-tokens before (t ∷ texts) rest =
      read_chunks-tokens (before ++ t) texts rest
      ∙ ap (λ u. read_chunks (so_far u) rest) (append_assoc before t (concat texts))

  -- The chunks of a generation that gave `texts` and ended.
  abbrev pub chunks : List Text → Stop → Option Usage → List Json
  chunks texts stop usage =
      chunk_json w open_chunk
      ∷ (map (λ t. chunk_json w (token_chunk t)) texts
          ++ chunk_json w (close_chunk stop usage) ∷ [])

  abbrev pub usage_or_null : Option Usage → Json
  unfolding usage_json
  usage_or_null usage = or_null (optional_usage usage)

  read_close :
      (text : Text) (stop : Stop) (usage : Option Usage)
      → join (so_far text) (read_chunk (chunk_json w (close_chunk stop usage)))
        ≡ record (so_far text) { reason = str (finish_reason stop); usage = usage_or_null usage }
  unfolding chunk_json choice_json delta_json usage_json
  read_close text stop none =
      ap (λ t. record (so_far t) { reason = str (finish_reason stop) }) (append-nil text)
  read_close text stop (some usage) =
      ap (λ t. record (so_far t) { reason = str (finish_reason stop); usage = usage_json usage })
        (append-nil text)

  pub read_chunks_lem :
      (texts : List Text) (stop : Stop) (given : Option Usage) (usage : Usage)
      → read_chunks nothing_read (chunks texts stop given)
        ≡ record (read_whole (completion_json w (concat texts) stop usage)) {
          usage = usage_or_null given;
        }
  unfolding chunk_json choice_json delta_json completion_json
  read_chunks_lem texts stop given usage =
      read_chunks-tokens [] texts (chunk_json w (close_chunk stop given) ∷ [])
      ∙ read_close (concat texts) stop given
