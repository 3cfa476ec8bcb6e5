-- ===== src/Cli/Printed.antt =====
-- What the command line prints of an answer.
use llm_worker.Base.{
  concat, ℕ, ◌+◌, ◌^◌, ◌<◌, ◌≡◌, refl, sym, ap, ◌∙◌, subst, u32, Text, codes, Bool, true, false,
  ◌||◌, List, [], ◌∷◌, ◌++◌, map, length, Option, none, some, arith, if◌then◌else◌,
}
use llm_worker.Engine.Types.{Event, token, done, failed}
use llm_worker.Engine.Host.{ok, err}
use llm_worker.Engine.Ledger.{terminal}
use llm_worker.Engine.Stream.{Ended}
use llm_worker.Engine.Stream.Leaves.{terminal_of}
use llm_worker.Worker.Answer.{and_then-ok}
use llm_worker.Worker.Writer.{Done, and_then}
use llm_worker.Cli.{
  Ready, interrupt, received, Screen, Session, Turn, again, leave, is_at, or_leave, print_token,
  on_event, on_ready, run, new_session, summary, released_note,
}
use llm_worker.Cli.Heard.{
  heard, interrupted, reaches, result_of, token_first, end_first, reaches_next, or_true,
  never_empty, regroup, done_pair, small,
}

-- A standard output that takes everything: its text is what was written.
pub record Shows (screen : Screen) : Type 0 where
  pub shown : screen.Out → Text
  pub writes : (o : screen.Out) (t : Text) → (screen.write o t).0 ≡ ok tt
  pub flushes : (o : screen.Out) → (screen.flush o).0 ≡ ok tt
  pub shown_write : (o : screen.Out) (t : Text) → shown (screen.write o t).1 ≡ shown o ++ t
  pub shown_flush : (o : screen.Out) → shown (screen.flush o).1 ≡ shown o

module _ (screen : Screen) (shows : Shows screen) (rate : ℕ → ℕ → Text)
    (cancel_after : Option ℕ) where
  open shows use {shown}

  -- The session behind a token.
  abbrev after_token : Text → Session screen → Session screen
  after_token t s =
      let seen = u32 (s.seen + 1) in
      record s {
        out = (screen.flush (screen.write s.out t).1).1;
        seen = seen;
        is_cancelled = if is_at cancel_after seen then true else s.is_cancelled;
      }

  print_token_lem :
      (t : Text) (s : Session screen)
      → print_token screen rate cancel_after t s ≡ (ok tt, after_token t s)
  unfolding print_token and_then
  print_token_lem t s =
      let seen = u32 (s.seen + 1) in
      let flag = if is_at cancel_after seen then true else s.is_cancelled in
      let shown_on = screen.flush (screen.write s.out t).1 in
      ap
        (λ (r : Done × screen.Out). elim r.0 as (λ _. Done × Session screen) [
          | err error ↦ (err error, record s { out = r.1 })
          | ok _ ↦ (ok tt, record s { out = r.1; seen = seen; is_cancelled = flag })
        ])
        (and_then-ok (screen.write s.out t) (λ out. screen.flush out) (shows.writes s.out t)
          ∙ done_pair shown_on (shows.flushes (screen.write s.out t).1))

  shown_token : (t : Text) (s : Session screen) → shown (after_token t s).out ≡ shown s.out ++ t
  shown_token t s = shows.shown_flush (screen.write s.out t).1 ∙ shows.shown_write s.out t

  run-token :
      (t : Text) (later : List Ready) (s : Session screen)
      → run screen rate cancel_after (received (some (token t)) ∷ later) s
        ≡ run screen rate cancel_after later (after_token t s)
  unfolding run on_ready on_event
  run-token t later s =
      ap
        (λ (r : Done × Session screen). elim (or_leave r.0 again) [
          | again ↦ run screen rate cancel_after later r.1
          | leave result ↦ (some result, r.1)
        ])
        (print_token_lem t s)

  -- What an answer comes to: its result, its text, and the flag.
  record Printed (s : Session screen) (inputs : List Ready) (texts : List Text) (last : Event)
      (r : Option Done × Session screen) : Type 0 where
    result : r.0 ≡ some (result_of last)
    text : shown r.1.out ≡ shown s.out ++ (concat texts ++ codes "\n")
    flag :
        r.1.is_cancelled
        ≡ (s.is_cancelled || (interrupted inputs || reaches cancel_after s.seen (length texts)))

  reaches_none :
      (o : Option ℕ) (seen : ℕ) (flag : Bool) → flag ≡ (flag || (false || reaches o seen 0))
  reaches_none none seen flag = ground arith
  reaches_none (some n) seen flag = ground arith

  ended :
      (s : Session screen) (x : Event) (later : List Ready) (errors : Text)
      → interrupted (received (some x) ∷ later) ≡ false
      → Printed s (received (some x) ∷ later) [] x (
        some (result_of x),
        record s { out = (screen.write s.out (codes "\n")).1; errors = errors },
      )
  ended s x later errors calm = record {
    result = refl;
    text = shows.shown_write s.out (codes "\n");
    flag =
        reaches_none cancel_after s.seen s.is_cancelled
        ∙ ap (λ b. s.is_cancelled || (b || reaches cancel_after s.seen 0)) (sym calm);
  }

  -- A loop that is left.
  run-leave :
      (x : Option Event) (later : List Ready) (s s' : Session screen) (result : Done)
      → on_event screen rate cancel_after x s ≡ (leave result, s')
      → run screen rate cancel_after (received x ∷ later) s ≡ (some result, s')
  unfolding run on_ready
  run-leave x later s s' result e =
      ap
        (λ (r : Turn × Session screen). elim r.0 as (λ _. Option Done × Session screen) [
          | again ↦ run screen rate cancel_after later r.1
          | leave result ↦ (some result, r.1)
        ])
        e

  line_feed_pair :
      (o : screen.Out) → screen.write o (codes "\n") ≡ (ok tt, (screen.write o (codes "\n")).1)
  line_feed_pair o = done_pair (screen.write o (codes "\n")) (shows.writes o (codes "\n"))

  run-end :
      (x : Event) (later : List Ready) (s : Session screen)
      → terminal x ≡ 1
      → Printed s
          (received (some x) ∷ later)
          []
          x
          (run screen rate cancel_after (received (some x) ∷ later) s)
  unfolding on_event
  run-end (token t) later s ends = absurd (omega (arith, ends))
  run-end (done stop prompt tokens ms) later s ends =
      let text = s.errors ++ (summary rate stop prompt tokens ms ++ released_note stop) in
      rw
        (run-leave (some (done stop prompt tokens ms)) later s
          (record s { out = (screen.write s.out (codes "\n")).1; errors = text }) (ok tt)
          (ap
            (λ (r : Done × screen.Out). elim r.0 as (λ _. Turn × Session screen) [
              | err error ↦ (leave (err error), record s { out = r.1 })
              | ok _ ↦ (leave (ok tt), record s { out = r.1; errors = text })
            ])
            (line_feed_pair s.out)))
        (ended s (done stop prompt tokens ms) later text refl)
  run-end (failed e) later s ends =
      rw
        (run-leave (some (failed e)) later s
          (record s { out = (screen.write s.out (codes "\n")).1 }) (err e)
          (ap (λ (r : Done × screen.Out). (or_leave r.0 (leave (err e)), record s { out = r.1 }))
            (line_feed_pair s.out)))
        (ended s (failed e) later s.errors refl)

  -- A token before what is printed.
  further :
      (t : Text) (later : List Ready) (rest : List Text) (last : Event) (s : Session screen)
      → s.seen + 1 < 2 ^ 32
      → Printed
          (after_token t s)
          later
          rest
          last
          (run screen rate cancel_after later (after_token t s))
      → Printed s
          (received (some (token t)) ∷ later)
          (t ∷ rest)
          last
          (run screen rate cancel_after (received (some (token t)) ∷ later) s)
  further t later rest last s room p = rw (run-token t later s) (record {
    result = p.result;
    text =
        p.text
        ∙ ap (λ u. u ++ (concat rest ++ codes "\n")) (shown_token t s)
        ∙ regroup (shown s.out) t (concat rest) (codes "\n");
    flag =
        p.flag
        ∙ ap
            (λ n.
              (if is_at cancel_after n then true else s.is_cancelled)
              || (interrupted later || reaches cancel_after n (length rest)))
            (small (s.seen + 1) room)
        ∙ reaches_next cancel_after s.seen (length rest) s.is_cancelled (interrupted later);
  })

  run-Printed :
      (inputs : List Ready) (texts : List Text) (last : Event) (s : Session screen)
      → terminal last ≡ 1
      → heard inputs ≡ map token texts ++ last ∷ []
      → s.seen + length texts < 2 ^ 32
      → Printed s inputs texts last (run screen rate cancel_after inputs s)
  unfolding run on_ready on_event
  run-Printed [] texts last s ends e room = absurd (never_empty texts last e)
  run-Printed (interrupt ∷ later) texts last s ends e room =
      let noted = record s { errors = s.errors ++ codes "\n"; is_cancelled = true } in
      let rest = run-Printed later texts last noted ends e room in
      record {
        result = rest.result;
        text = rest.text;
        flag = rest.flag ∙ sym (or_true s.is_cancelled);
      }
  run-Printed (received none ∷ later) texts last s ends e room = absurd (never_empty texts last e)
  run-Printed (received (some (token t)) ∷ later) texts last s ends e room =
      let (rest, same, more) = token_first t (heard later) texts last ends e in
      subst
        (λ ts.
          Printed s (received (some (token t)) ∷ later) ts last
            (run screen rate cancel_after (received (some (token t)) ∷ later) s))
        (sym same)
        (further t later rest last s (omega (arith, room, ap length same)) (
          run-Printed later rest last (after_token t s) ends more
            (omega (arith, room, ap length same))))
  run-Printed (received (some (done stop prompt tokens ms)) ∷ later) texts last s ends e room =
      let x = done stop prompt tokens ms in
      let (none_before, same) = end_first x texts last refl e in
      let r = run screen rate cancel_after (received (some x) ∷ later) s in
      subst (λ ts. Printed s (received (some x) ∷ later) ts last r) (sym none_before)
        (subst (λ y. Printed s (received (some x) ∷ later) [] y r) same (run-end x later s refl))
  run-Printed (received (some (failed m)) ∷ later) texts last s ends e room =
      let x = failed m in
      let (none_before, same) = end_first x texts last refl e in
      let r = run screen rate cancel_after (received (some x) ∷ later) s in
      subst (λ ts. Printed s (received (some x) ∷ later) ts last r) (sym none_before)
        (subst (λ y. Printed s (received (some x) ∷ later) [] y r) same (run-end x later s refl))

  -- The standard output takes everything, what is heard is an answer of fewer than 2^32 texts that ends
  -- in one event, and the program begins with no token seen and its flag not set. Interrupts may come in
  -- between. The loop ends, with success behind a `Done` and with the message of a `Failed`; what is
  -- printed is the texts in order and a line feed; and the generation's flag is set exactly if an
  -- interrupt came before the end or as many texts came as `cancel_after` says, one at least.
  pub run-answer :
      (limit : ℕ) (inputs : List Ready) (out : screen.Out)
      → (answer : Ended limit (heard inputs)) → length answer.texts < 2 ^ 32
      → let r = run screen rate cancel_after inputs (new_session screen out) in
        (r.0 ≡ some (result_of answer.last))
        × (shown r.1.out ≡ shown out ++ (concat answer.texts ++ codes "\n"))
        × (r.1.is_cancelled ≡ (interrupted inputs || reaches cancel_after 0 (length answer.texts)))
  run-answer limit inputs out answer room =
      let p =
        run-Printed inputs answer.texts answer.last (new_session screen out)
          (terminal_of limit answer.last answer.texts answer.counted) answer.shape
          (omega (arith, room)) in
      (p.result, p.text, p.flag)
