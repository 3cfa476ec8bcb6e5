-- ===== src/Worker/Ids.antt =====
-- llm-worker/src/worker.rs: `next_completion_id`.
use llm_worker.Base.{
  ℕ, zero, suc, ◌+◌, ◌-◌, ◌/◌, ◌%◌, ltb, u64, Text, codes, replicate, length, [], ◌∷◌, ◌++◌,
  if◌then◌else◌,
}

abbrev pub hex_digit : ℕ → ℕ
hex_digit d = if ltb d 10 then 48 + d else 87 + d

-- `{:x}`, most significant digit first and before `rest`; sixteen digits hold every `u64`.
unfoldable pub hex_from : ℕ → ℕ → Text → Text
hex_from zero n rest = rest
hex_from (suc fuel) n rest =
    let digit = hex_digit (n % 16) in
    let front = hex_from fuel (n / 16) (digit ∷ rest) in if ltb n 16 then digit ∷ rest else front

unfoldable pub hex : ℕ → Text
unfolding hex_from
hex n = hex_from 16 n []

-- `{:04x}`
unfoldable pub hex04 : ℕ → Text
unfolding hex
hex04 n = replicate (4 - length (hex n)) 48 ++ hex n

-- The id, and the counter that the call leaves. `started` is the time in milliseconds.
unfoldable pub next_completion_id : ℕ → ℕ → Text × ℕ
unfolding hex hex04
next_completion_id started counter =
    (codes "chatcmpl-" ++ (hex (u64 started) ++ hex04 counter), u64 (counter + 1))
