-- ===== src/Script.antt =====
-- The course of a program's `main`: actions one after another, of which the first that fails ends it.
use llm_worker.Base.{◌≡◌, refl, ap, List, [], ◌∷◌, ◌++◌}
use llm_worker.Engine.Host.{Outcome, ok, err}

-- A part of the program, with what it did.
abbrev pub Script : Type 0 → Type 0 → Type 0
Script Action A = Outcome A × List Action

-- `?`, which ends the program at an error.
unfoldable pub bind :
    {Action A B : Type 0} → Script Action A → (A → Script Action B) → Script Action B
bind (err error, log) next = (err error, log)
bind (ok a, log) next = let (result, more) = next a in (result, log ++ more)

abbrev pub act : {Action A : Type 0} → Action → Outcome A → Script Action A
act action result = (result, action ∷ [])

-- A script does the first of these actions, and all of them if it succeeds.
abbrev pub Along : {Action : Type 0} → List Action → Script Action (Unit {0}) → Type 0
Along {Action} full r = (rest : List Action) × (full ≡ r.1 ++ rest) × (r.0 ≡ ok tt → rest ≡ [])

pub act-Along :
    {Action A : Type 0} (action : Action) (result : Outcome A) (next : A → Script Action (Unit {0}))
    (full : List Action)
    → ((a : A) → Along full (next a))
    → Along (action ∷ full) (bind (act action result) next)
unfolding bind
act-Along action (err error) next full further = (full, refl, λ e. cc)
act-Along action (ok a) next full further =
    let (rest, same, whole) = further a in (rest, ap (λ log. action ∷ log) same, whole)
