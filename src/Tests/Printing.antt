-- ===== src/Tests/Printing.antt =====
-- A printer of JSON, as the tests use one: it escapes the quotation mark, the backslash and the line
-- feed.
use llm_worker.Base.{
  ℕ, zero, suc, ◌+◌, ◌%◌, ◌/◌, refl, ◌∙◌, ◌==◌, ltb, Text, codes, Bool-cases, inl, inr, [], ◌∷◌,
  ◌++◌, arith, if◌then◌else◌,
}
use llm_worker.Protocol.Frames.{is_one_line-append}
use llm_worker.Protocol.Json.{
  Json, null, num, str, arr, obj, Items, nil, cons, Fields, end, field, Printer, IsOneLine,
}

abbrev pub escape : ℕ → Text
escape c =
    if c == 10
    then codes "\\n"
    else (if c == 34 then codes "\\\"" else (if c == 92 then codes "\\\\" else c ∷ []))

abbrev pub escaped : Text → Text
escaped [] = []
escaped (c ∷ t) = escape c ++ escaped t

abbrev pub quoted : Text → Text
quoted t = 34 ∷ (escaped t ++ 34 ∷ [])

abbrev pub digits : ℕ → ℕ → Text → Text
digits zero n rest = rest
digits (suc fuel) n rest =
    let front = digits fuel (n / 10) ((48 + n % 10) ∷ rest) in
    if ltb n 10 then (48 + n % 10) ∷ rest else front

mutual
  pub print : Json → Text
  print null = codes "null"
  print (num n) = digits (suc n) n []
  print (str t) = quoted t
  print (arr items) = 91 ∷ (print_items items ++ 93 ∷ [])
  print (obj fields) = 123 ∷ (print_fields fields ++ 125 ∷ [])

  print_items : Items → Text
  print_items nil = []
  print_items (cons j nil) = print j
  print_items (cons j (cons k rest)) = print j ++ 44 ∷ print_items (cons k rest)

  print_fields : Fields → Text
  print_fields end = []
  print_fields (field name j end) = quoted name ++ 58 ∷ print j
  print_fields (field name j (field next k rest)) =
      quoted name ++ 58 ∷ (print j ++ 44 ∷ print_fields (field next k rest))

escape-IsOneLine : (c : ℕ) → IsOneLine (escape c)
escape-IsOneLine c = ground arith

then_line : (s t : Text) → IsOneLine s → IsOneLine t → IsOneLine (s ++ t)
then_line s t h k = is_one_line-append s t h ∙ k

escaped-IsOneLine : (t : Text) → IsOneLine (escaped t)
escaped-IsOneLine [] = refl
escaped-IsOneLine (c ∷ t) =
    then_line (escape c) (escaped t) (escape-IsOneLine c) (escaped-IsOneLine t)

quoted-IsOneLine : (t : Text) → IsOneLine (quoted t)
quoted-IsOneLine t = then_line (escaped t) (34 ∷ []) (escaped-IsOneLine t) refl

digit-IsOneLine : (n : ℕ) (rest : Text) → IsOneLine rest → IsOneLine ((48 + n % 10) ∷ rest)
digit-IsOneLine n rest h = ground arith

digits-IsOneLine : (fuel n : ℕ) (rest : Text) → IsOneLine rest → IsOneLine (digits fuel n rest)
digits-IsOneLine zero n rest h = h
digits-IsOneLine (suc fuel) n rest h =
    let last = digit-IsOneLine n rest h in
    let more = digits-IsOneLine fuel (n / 10) ((48 + n % 10) ∷ rest) last in
    elim (Bool-cases (ltb n 10)) [ inl e ↦ rw e last | inr e ↦ rw e more ]

mutual
  unfolding print print_items print_fields

  pub print-IsOneLine : (j : Json) → IsOneLine (print j)
  print-IsOneLine null = refl
  print-IsOneLine (num n) = digits-IsOneLine (suc n) n [] refl
  print-IsOneLine (str t) = quoted-IsOneLine t
  print-IsOneLine (arr items) =
      then_line (print_items items) (93 ∷ []) (print_items-IsOneLine items) refl
  print-IsOneLine (obj fields) =
      then_line (print_fields fields) (125 ∷ []) (print_fields-IsOneLine fields) refl

  print_items-IsOneLine : (items : Items) → IsOneLine (print_items items)
  print_items-IsOneLine nil = refl
  print_items-IsOneLine (cons j nil) = print-IsOneLine j
  print_items-IsOneLine (cons j (cons k rest)) =
      then_line (print j) (44 ∷ print_items (cons k rest)) (print-IsOneLine j)
        (print_items-IsOneLine (cons k rest))

  print_fields-IsOneLine : (fields : Fields) → IsOneLine (print_fields fields)
  print_fields-IsOneLine end = refl
  print_fields-IsOneLine (field name j end) =
      then_line (quoted name) (58 ∷ print j) (quoted-IsOneLine name) (print-IsOneLine j)
  print_fields-IsOneLine (field name j (field next k rest)) =
      then_line (quoted name) (58 ∷ (print j ++ 44 ∷ print_fields (field next k rest)))
        (quoted-IsOneLine name)
        (then_line (print j) (44 ∷ print_fields (field next k rest)) (print-IsOneLine j)
          (print_fields-IsOneLine (field next k rest)))

unfoldable pub plain_printer : Printer
unfolding print
plain_printer = record { to_string = print; one_line = print-IsOneLine }
