-- ===== src/Cli/Heard.antt =====
-- What the command line hears of a generation.
use llm_worker.Base.{
  ℕ, suc, ◌+◌, ◌^◌, ◌<◌, ◌≡◌, ◌≢◌, refl, sym, ap, leb, ltb, u32, Text, Bool, true, false, ◌||◌,
  ◌&&◌, List, [], ◌∷◌, ◌++◌, map, append_assoc, Option, none, some, arith, if◌then◌else◌,
}
use llm_worker.Engine.Types.{Event, token, done, failed}
use llm_worker.Engine.Host.{ok, err}
use llm_worker.Engine.Ledger.{terminal}
use llm_worker.Worker.Writer.{Done}
use llm_worker.Cli.{Ready, interrupt, received, is_at}

-- The events up to the one that ends the loop, and whether an interrupt comes before it.
abbrev pub heard : List Ready → List Event
heard [] = []
heard (interrupt ∷ later) = heard later
heard (received none ∷ later) = []
heard (received (some (token t)) ∷ later) = token t ∷ heard later
heard (received (some (done stop prompt tokens ms)) ∷ later) = done stop prompt tokens ms ∷ []
heard (received (some (failed e)) ∷ later) = failed e ∷ []

abbrev pub interrupted : List Ready → Bool
interrupted [] = false
interrupted (interrupt ∷ later) = true
interrupted (received none ∷ later) = false
interrupted (received (some (token t)) ∷ later) = interrupted later
interrupted (received (some (done stop prompt tokens ms)) ∷ later) = false
interrupted (received (some (failed e)) ∷ later) = false

-- One of `count` tokens that come after `seen` is the one to cancel at.
abbrev pub reaches : Option ℕ → ℕ → ℕ → Bool
reaches none seen count = false
reaches (some n) seen count = ltb seen n && leb n (seen + count)

-- The result of the program.
abbrev pub result_of : Event → Done
result_of (token t) = ok tt
result_of (done stop prompt tokens ms) = ok tt
result_of (failed e) = err e

pub not_end : (t : Text) (last : Event) → terminal last ≡ 1 → token t ≢ last
not_end t (token u) h = absurd (omega (arith, h))
not_end t (done stop prompt tokens ms) h = λ e. cc
not_end t (failed m) h = λ e. cc

-- What is heard of an answer that goes on, and of one that ends.
pub token_first :
    (t : Text) (es : List Event) (texts : List Text) (last : Event)
    → terminal last ≡ 1
    → token t ∷ es ≡ map token texts ++ last ∷ []
    → (rest : List Text) × (texts ≡ t ∷ rest) × (es ≡ map token rest ++ last ∷ [])
token_first t es [] last ends e = absurd (not_end t last ends (cc e))
token_first t es (u ∷ texts) last ends e =
    let same : t ≡ u = cc e in
    let rest : es ≡ map token texts ++ last ∷ [] = cc e in
    (texts, ap (λ v. v ∷ texts) (sym same), rest)

pub end_first :
    (x : Event) (texts : List Text) (last : Event)
    → terminal x ≡ 1
    → x ∷ [] ≡ map token texts ++ last ∷ []
    → (texts ≡ []) × (x ≡ last)
end_first x [] last ends e = (refl, cc e)
end_first x (t ∷ texts) last ends e = absurd (not_end t x ends (cc e))

-- The flag behind one more token.
pub reaches_next :
    (o : Option ℕ) (seen count : ℕ) (flag gone : Bool)
    → ((if is_at o (seen + 1) then true else flag) || (gone || reaches o (seen + 1) count))
      ≡ (flag || (gone || reaches o seen (suc count)))
reaches_next none seen count flag gone = refl
reaches_next (some n) seen count flag gone = ground arith

pub or_true : (b : Bool) → (b || true) ≡ true
or_true true = refl
or_true false = refl

pub never_empty : (texts : List Text) (last : Event) → [] ≢ map token texts ++ last ∷ []
never_empty [] last = λ e. cc
never_empty (t ∷ texts) last = λ e. cc

pub regroup : (a b c d : Text) → (a ++ b) ++ (c ++ d) ≡ a ++ ((b ++ c) ++ d)
regroup a b c d = simp append_assoc

pub done_pair : {S : Type 0} (r : Done × S) → r.0 ≡ ok tt → r ≡ (ok tt, r.1)
done_pair r e = ap (λ (d : Done). (d, r.1)) e

pub small : (n : ℕ) → n < 2 ^ 32 → u32 n ≡ n
small n h = omega (arith, h)
