-- ===== src/Engine/Step/Ready.antt =====
-- A slot that waits for nobody gets a row in the batch, whatever the other slots do.
use llm_worker.Base.{
  ℕ, ◌+◌, ◌<◌, ◌≤◌, ◌≡◌, ◌≢◌, refl, ap, ◌∙◌, ◌==◌, ==_iff, ◌⊎◌, inl, inr, Bool-cases, Option, none,
  some, [], ◌∷◌, ◌++◌, true, length, for_range_ind, arith, if◌then◌else◌,
}
use llm_worker.Engine.Types.{Event, cancelled}
use llm_worker.Engine.Host.{Host, ok, Outcome-cases}
use llm_worker.Engine.Pool.{State, slot_at, retire}
use llm_worker.Engine.Pool.Occupied.{entry-in_range}
use llm_worker.Engine.Slot.{Slot, is_cancelled}
use llm_worker.Engine.Step.{Rows, gather_all, gather, gather_slot, gather_row}
use llm_worker.Engine.Step.Others.{Stays, Stays-Keeps, Live, Gathered, gather_slot-Gathered}

module _ ⦃h : Host⦄ (k : ℕ) where
  -- Slot `k` has a row.
  abbrev pub Has : Rows → Type 0
  Has [] = ⊥
  Has ((i, row) ∷ rest) = (i ≡ k) ⊎ Has rest

  Has-append : (xs ys : Rows) → Has xs → Has (xs ++ ys)
  Has-append [] ys has = absurd has
  Has-append ((i, row) ∷ xs) ys (inl at) = inl at
  Has-append ((i, row) ∷ xs) ys (inr later) = inr (Has-append xs ys later)

  Has-last : (xs : Rows) (row : ℕ) → Has (xs ++ (k, row) ∷ [])
  Has-last [] row = inl refl
  Has-last (x ∷ xs) row = inr (Has-last xs row)

  gather_row-Has :
      (i : ℕ) (st : State) (rows : Rows) (s : Slot) → Has rows → Has (gather_row i st rows s).1
  unfolding gather_row
  gather_row-Has i st rows s has =
      elim (Outcome-cases (h.add st.batch s.next_input s.n_cur s.seq_id true)) [
        | inl (batch, e) ↦ rw (e, gather_row) (Has-append rows _ has)
        | inr (error, e) ↦ rw (e, gather_row) has
      ]

  held-Has :
      (i : ℕ) (st : State) (rows : Rows) (s : Slot) (held : Option Event)
      → Has rows
      → Has
          (elim held as (λ _. State × Rows) [
            | none ↦ gather_row i st rows s
            | some _ ↦ (st, rows)
          ]).1
  held-Has i st rows s none has = gather_row-Has i st rows s has
  held-Has i st rows s (some event) has = has

  gather_slot-Has :
      (i : ℕ) (st : State) (rows : Rows) (o : Option Slot)
      → Has rows
      → Has (gather_slot i st rows o).1
  unfolding gather_slot
  gather_slot-Has i st rows none has = has
  gather_slot-Has i st rows (some s) has = elim (Bool-cases (is_cancelled s st.world).0) [
    | inl e ↦ rw (e, gather_slot) has
    | inr e ↦
        rw (e, gather_slot)
          (held-Has i (record st { world = (is_cancelled s st.world).1 }) rows s s.pending has)
  ]

module _ ⦃h : Host⦄ (slot : Slot) where
  -- The slot's next token fits every batch.
  abbrev pub Fitting : Type 0
  Fitting =
      (b : h.Batch) → (b' : h.Batch) × (h.add b slot.next_input slot.n_cur slot.seq_id true ≡ ok b')

module _ ⦃h : Host⦄ (k : ℕ) (slot : Slot) where
  module _ (free : slot.pending ≡ none) (live : Live slot) (fitting : Fitting slot) where
    own_row : (st : State) (rows : Rows) → Has k (gather_row k st rows slot).1
    unfolding gather_row
    own_row st rows = let (batch, e) = fitting st.batch in rw (e, gather_row) (Has-last k rows _)

    gather_slot-own : (st : State) (rows : Rows) → Has k (gather_slot k st rows (some slot)).1
    unfolding gather_slot is_cancelled
    gather_slot-own st rows =
        let seen : State = record st { world = (is_cancelled slot st.world).1 } in
        let put_in : State × Rows = elim slot.pending [
          | none ↦ gather_row k seen rows slot
          | some _ ↦ (seen, rows)
        ] in
        let same : gather_slot k st rows (some slot) ≡ gather_row k seen rows slot =
          ap (λ gone. if gone then (retire seen k cancelled, rows) else put_in) (live st.world)
          ∙ ap
              (λ o. elim o as (λ _. State × Rows) [
                | none ↦ gather_row k seen rows slot
                | some _ ↦ (seen, rows)
              ])
              free in
        rw same (own_row seen rows)

    -- Before the loop comes to the slot, and behind it.
    abbrev Passed : ℕ → State × Rows → Type 0
    Passed i p = ((i ≤ k) × Gathered k (Stays k slot) p) ⊎ ((k < i) × Has k p.1)

    gather-Passed : (i : ℕ) (p : State × Rows) → Passed i p → Passed (i + 1) (gather i p)
    unfolding gather
    gather-Passed i (st, rows) (inr (past, has)) =
        inr (omega (arith, past), gather_slot-Has k i st rows (slot_at st i) has)
    gather-Passed i (st, rows) (inl (ahead, (stays, absent))) = elim (Bool-cases (i == k)) [
      | inl at ↦ rw ((==_iff i k).0 at, stays, gather) (inr (omega arith, gather_slot-own st rows))
      | inr away ↦
          let ne : i ≢ k = λ same. ground arith in
          inl (
            omega (arith, ahead, ne),
            gather_slot-Gathered k (Stays k slot) (Stays-Keeps k slot) i st rows (slot_at st i) ne
                (stays, absent),
          )
    ]

    pub gather_all-Has : (st : State) → Stays k slot st → Has k (gather_all st).1
    unfolding gather_all
    gather_all-Has st stays =
        elim (for_range_ind Passed gather gather-Passed (length st.slots) 0
          (record st { batch = h.clear st.batch }, []) (inl (omega arith, (stays, tt)))) [
            | inl (ahead, _) ↦ absurd (omega (arith, ahead, entry-in_range st.slots k slot stays))
            | inr (_, has) ↦ has
          ]
