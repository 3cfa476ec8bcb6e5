-- ===== src/Protocol/Json.antt =====
-- JSON values, as the derived serializers and `serde_json::json!` of protocol.rs build them, and
-- the frames of an SSE body.
use llm_worker.Base.{ℕ, ◌≡◌, ◌==◌, Text, Bool, true, not, ◌&&◌, [], ◌∷◌}

-- A number is an unsigned integer. The fields stand as the source writes them; the order in which the
-- fields of a `json!` value are printed is the printer's.
mutual
  pub data Json : Type 0 where
    null : Json
    num : ℕ → Json
    str : Text → Json
    arr : Items → Json
    obj : Fields → Json

  pub data Items : Type 0 where
    nil : Items
    cons : Json → Items → Items

  pub data Fields : Type 0 where
    end : Fields
    field : Text → Json → Fields → Fields

-- The text of a line feed.
abbrev pub line_feed : ℕ
line_feed = 10

-- No character of the text is a line feed.
abbrev pub is_one_line : Text → Bool
is_one_line [] = true
is_one_line (c ∷ t) = not (c == line_feed) && is_one_line t

abbrev pub IsOneLine : Text → Type 0
IsOneLine t = is_one_line t ≡ true

-- `serde_json::to_string`, which escapes control characters and writes no white space of its own.
pub record Printer : Type 0 where
  pub to_string : Json → Text
  pub one_line : (j : Json) → IsOneLine (to_string j)
