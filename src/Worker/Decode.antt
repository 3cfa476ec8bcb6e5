-- ===== src/Worker/Decode.antt =====
-- llm-worker/src/worker.rs: what an id of `next_completion_id` says.
use llm_worker.Base.{
  ℕ, zero, suc, ◌+◌, ◌-◌, ◌*◌, ◌/◌, ◌%◌, ◌^◌, ◌≤◌, ◌<◌, ◌≡◌, refl, sym, ap, ◌∙◌, true, false, ltb,
  Bool-cases, inl, inr, u64, Text, length, replicate, [], ◌∷◌, ◌++◌, arith, if◌then◌else◌,
}
use llm_worker.Worker.Ids.{hex, hex04, hex_digit, hex_from, next_completion_id}

-- The value of a digit, and of the digits that follow a number.
abbrev pub digit_value : ℕ → ℕ
digit_value c = if ltb c 97 then c - 48 else c - 87

abbrev pub value : ℕ → Text → ℕ
value n [] = n
value n (c ∷ t) = value (n * 16 + digit_value c) t

abbrev pub split_at : ℕ → Text → Text × Text
split_at zero t = ([], t)
split_at (suc n) [] = ([], [])
split_at (suc n) (c ∷ t) = let (front, back) = split_at n t in (c ∷ front, back)

-- The time and the number of an id: nine letters, eleven digits, and the rest.
abbrev pub id_parts : Text → ℕ × ℕ
id_parts id =
    let (_, digits) = split_at 9 id in
    let (time, number) = split_at 11 digits in (value 0 time, value 0 number)

digit_value-hex_digit : (n : ℕ) → n < 16 → digit_value (hex_digit n) ≡ n
digit_value-hex_digit n h = ground arith

digit_before : (n : ℕ) (rest : Text) → value (n / 16) (hex_digit (n % 16) ∷ rest) ≡ value n rest
digit_before n rest =
    ap (λ k. value k rest) (omega (arith, digit_value-hex_digit (n % 16) (omega arith)))

value-hex_from :
    (fuel n : ℕ) (rest : Text) → n < 16 ^ fuel → value 0 (hex_from fuel n rest) ≡ value n rest
unfolding hex_from
value-hex_from zero n rest h = ap (λ k. value k rest) (omega (arith, h))
value-hex_from (suc fuel) n rest h = elim (Bool-cases (ltb n 16)) [
  | inl small ↦
      let none_before : n / 16 ≡ 0 = ground arith in
      rw small
        (ap (λ k. value k (hex_digit (n % 16) ∷ rest)) (sym none_before) ∙ digit_before n rest)
  | inr big ↦ rw big (
      value-hex_from fuel (n / 16) (hex_digit (n % 16) ∷ rest) (omega (arith, h))
      ∙ digit_before n rest)
]

-- A number of `k + 1` digits.
length-hex_from :
    (k fuel n : ℕ) (rest : Text)
    → k < fuel
    → 16 ^ k ≤ n
    → n < 16 ^ suc k
    → length (hex_from fuel n rest) ≡ suc k + length rest
unfolding hex_from
length-hex_from k zero n rest enough low high = omega (arith, enough)
length-hex_from zero (suc fuel) n rest enough low high =
    let small : ltb n 16 ≡ true = ground arith in rw small (omega arith)
length-hex_from (suc k) (suc fuel) n rest enough low high =
    let big : ltb n 16 ≡ false = not_small n (omega (arith, low, power_pos k)) in
    rw big (
      length-hex_from k fuel (n / 16) (hex_digit (n % 16) ∷ rest) (omega (arith, enough))
        (omega (arith, low)) (omega (arith, high))
      ∙ omega arith)
  where
    not_small : (n : ℕ) → 16 ≤ n → ltb n 16 ≡ false
    not_small n h = ground arith

    power_pos : (k : ℕ) → 1 ≤ 16 ^ k
    power_pos zero = omega arith
    power_pos (suc k) = omega (arith, power_pos k)

value-zeros : (k : ℕ) (t : Text) → value 0 (replicate k 48 ++ t) ≡ value 0 t
value-zeros zero t = refl
value-zeros (suc k) t = value-zeros k t

split_at-append : (s t : Text) → split_at (length s) (s ++ t) ≡ (s, t)
split_at-append [] t = refl
split_at-append (c ∷ s) t = ap (λ (p : Text × Text). (c ∷ p.0, p.1)) (split_at-append s t)

value-hex : (n : ℕ) → n < 2 ^ 64 → value 0 (hex n) ≡ n
unfolding hex
value-hex n h = value-hex_from 16 n [] h

value-hex04 : (n : ℕ) → n < 2 ^ 64 → value 0 (hex04 n) ≡ n
unfolding hex04
value-hex04 n h = value-zeros (4 - length (hex n)) (hex n) ∙ value-hex n h

-- The clock stands between the years 2004 and 2527, and fewer than 2^64 ids were given. The time in
-- milliseconds and the number of the id can be read back from it.
pub next_completion_id-id_parts :
    (started counter : ℕ)
    → 16 ^ 10 ≤ started
    → started < 16 ^ 11
    → counter < 2 ^ 64
    → id_parts (next_completion_id started counter).0 ≡ (started, counter)
unfolding next_completion_id
next_completion_id-id_parts started counter low high room =
    let same : u64 started ≡ started = omega (arith, high) in
    let eleven : length (hex started) ≡ 11 =
      length-hex_from 10 16 started [] (omega arith) low high in
    let cut : split_at 11 (hex started ++ hex04 counter) ≡ (hex started, hex04 counter) =
      ap (λ k. split_at k (hex started ++ hex04 counter)) (sym eleven)
      ∙ split_at-append (hex started) (hex04 counter) in
    rw (same, cut, value-hex started (omega (arith, high)), value-hex04 counter room) refl
