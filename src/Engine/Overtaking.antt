-- ===== src/Engine/Overtaking.antt =====
-- The outbox when a caller makes room while it is being delivered.
use llm_worker.Base.{
  ℕ, ◌≡◌, ◌≢◌, refl, ap, ◌∙◌, ◌==◌, ==_iff, inl, inr, Bool-cases, List, [], ◌∷◌, ◌++◌, append_assoc,
  arith,
}
use llm_worker.Engine.Types.{Event}
use llm_worker.Engine.Host.{Host, ChannelLaws, Sent, sent, full, Sent-cases}
use llm_worker.Engine.Ordered.{events_for, events_for-append}
use llm_worker.Engine.Pool.{State}
use llm_worker.Engine.Serve.{retain, deliver}

module _ ⦃h : Host⦄ where
  -- A pass over the outbox goes on from where it stands.
  retain-append :
      (xs ys : List (ℕ × Event)) (w : h.World)
      → let (kept, w₁) = retain xs w in
        let (later, w₂) = retain ys w₁ in retain (xs ++ ys) w ≡ (kept ++ later, w₂)
  unfolding retain
  retain-append [] ys w = refl
  retain-append ((c, e) ∷ xs) ys w =
      let w₁ = (h.try_send w c e).1 in
      elim (Sent-cases (h.try_send w c e).0) [
        | inl p ↦ rw (p, retain) (retain-append xs ys w₁)
        | inr (inl p) ↦
            rw (p, retain)
              (ap (λ (r : List (ℕ × Event) × h.World). ((c, e) ∷ r.0, r.1))
                (retain-append xs ys w₁))
        | inr (inr p) ↦ rw (p, retain) (retain-append xs ys w₁)
      ]

  module _ (laws : ChannelLaws h) (c : ℕ) where
    -- A part of the outbox with nothing for the channel.
    abbrev pub Others : List (ℕ × Event) → Type 0
    Others outbox = events_for c outbox ≡ []

    retain-Others :
        (outbox : List (ℕ × Event)) (w : h.World)
        → Others outbox
        → Others (retain outbox w).0 × (laws.received (retain outbox w).1 c ≡ laws.received w c)
    unfolding retain
    retain-Others [] w others = (refl, refl)
    retain-Others ((d, e) ∷ rest) w others = elim (Bool-cases (d == c)) [
      | inl at ↦ absurd (no_event (rw at at others))
      | inr away ↦
          let apart : c ≢ d = λ same. ground arith in
          let w₁ = (h.try_send w d e).1 in
          let (none_kept, kept) = retain-Others rest w₁ (rw away at others) in
          let same = kept ∙ laws.received_other w d c e apart in
          elim (Sent-cases (h.try_send w d e).0) [
            | inl p ↦ rw (p, retain) (none_kept, same)
            | inr (inl p) ↦ rw (p, away, retain) (none_kept, same)
            | inr (inr p) ↦ rw (p, retain) (none_kept, same)
          ]
    ]
      where
        no_event : {e : Event} {es : List Event} → e ∷ es ≢ []
        no_event = λ p. cc

    own_event :
        (e : Event) (rest : List (ℕ × Event)) → events_for c ((c, e) ∷ rest) ≡ e ∷ events_for c rest
    own_event e rest = rw ((==_iff c c).1 refl) refl

    Others-append : (xs ys : List (ℕ × Event)) → Others xs → Others ys → Others (xs ++ ys)
    Others-append xs ys a b = events_for-append c xs ys ∙ rw (a, b) refl

    -- A pass over one event of the channel among others' that meets a full channel, and one that does not.
    retain_refused :
        (pre rest : List (ℕ × Event)) (e : Event) (w : h.World)
        → (h.try_send (retain pre w).1 c e).0 ≡ full
        → let (kept, w₁) = retain pre w in
          let (later, w₂) = retain rest (h.try_send w₁ c e).1 in
          retain (pre ++ (c, e) ∷ rest) w ≡ (kept ++ (c, e) ∷ later, w₂)
    unfolding retain
    retain_refused pre rest e w is_full =
        retain-append pre ((c, e) ∷ rest) w ∙ rw (is_full, retain) refl

    retain_accepted :
        (pre rest : List (ℕ × Event)) (e : Event) (w : h.World)
        → (h.try_send (retain pre w).1 c e).0 ≡ sent
        → let (kept, w₁) = retain pre w in
          let (later, w₂) = retain rest (h.try_send w₁ c e).1 in
          retain (pre ++ (c, e) ∷ rest) w ≡ (kept ++ later, w₂)
    unfolding retain
    retain_accepted pre rest e w has_room =
        retain-append pre ((c, e) ∷ rest) w ∙ rw (has_room, retain) refl

    received_accepted :
        (pre rest : List (ℕ × Event)) (e : Event) (w : h.World)
        → Others pre
        → Others rest
        → (h.try_send (retain pre w).1 c e).0 ≡ sent
        → let r = retain (pre ++ (c, e) ∷ rest) w in
          Others r.0 × (laws.received r.1 c ≡ laws.received w c ++ e ∷ [])
    received_accepted pre rest e w no_pre no_rest has_room =
        let w₁ = (retain pre w).1 in
        let (kept, same) = retain-Others pre w no_pre in
        let (later, on) = retain-Others rest (h.try_send w₁ c e).1 no_rest in
        rw (retain_accepted pre rest e w has_room) (
          Others-append _ _ kept later,
          on ∙ laws.received_sent w₁ c e has_room ∙ ap (λ es. es ++ e ∷ []) same,
        )

    -- Two events of one channel are in the outbox, with what is owed to others around them. In one pass
    -- the channel is full when the first is tried, and has room when the second is tried, because the
    -- caller reads in between; in the next pass it has room for the first. After the first pass the
    -- channel has accepted the second and the first is still owed, and after the next pass the
    -- channel has accepted the first behind the second, and nothing is owed to it.
    pub deliver-overtakes :
        (st : State) (pre mid post : List (ℕ × Event)) (first second : Event)
        → st.outbox ≡ pre ++ (c, first) ∷ (mid ++ (c, second) ∷ post)
        → Others pre
        → Others mid
        → Others post
        → let (kept, w₁) = retain pre st.world in
          let w₂ = (h.try_send w₁ c first).1 in
          (h.try_send w₁ c first).0 ≡ full
          → (h.try_send (retain mid w₂).1 c second).0 ≡ sent
          → (h.try_send (retain kept (deliver st).world).1 c first).0 ≡ sent
          → let once = deliver st in
            let twice = deliver once in
            (events_for c once.outbox ≡ first ∷ [])
            × (laws.received once.world c ≡ laws.received st.world c ++ second ∷ [])
            × (events_for c twice.outbox ≡ [])
            × (laws.received twice.world c ≡ laws.received st.world c ++ second ∷ first ∷ [])
    unfolding deliver
    deliver-overtakes st pre mid post first second owed no_pre no_mid no_post is_full has_room
          later_room =
        let w₁ = (retain pre st.world).1 in
        let w₂ = (h.try_send w₁ c first).1 in
        let rest = mid ++ (c, second) ∷ post in
        let pass : retain st.outbox st.world
            ≡ ((retain pre st.world).0 ++ (c, first) ∷ (retain rest w₂).0, (retain rest w₂).1) =
          ap (λ outbox. retain outbox st.world) owed
          ∙ retain_refused pre rest first st.world is_full in
        let (no_kept, same) = retain-Others pre st.world no_pre in
        let refused = laws.received_refused w₁ c first (not_sent is_full) in
        let (no_later, got) = received_accepted mid post second w₂ no_mid no_post has_room in
        let once = got ∙ ap (λ es. es ++ second ∷ []) (refused ∙ same) in
        let outbox = ap (λ r. r.0) pass in
        let world = ap (λ r. r.1) pass in
        let (none_left, got_first) =
          received_accepted (retain pre st.world).0 (retain rest w₂).0 first
            (retain st.outbox st.world).1 no_kept no_later later_room in
        (
          ap (events_for c) outbox
              ∙ events_for-append c (retain pre st.world).0 ((c, first) ∷ (retain rest w₂).0)
              ∙ rw (no_kept, own_event first (retain rest w₂).0, no_later) refl,
          ap (λ w. laws.received w c) world ∙ once,
          ap (λ o. events_for c (retain o (retain st.outbox st.world).1).0) outbox ∙ none_left,
          ap (λ o. laws.received (retain o (retain st.outbox st.world).1).1 c) outbox
              ∙ got_first
              ∙ ap (λ w. laws.received w c ++ first ∷ []) world
              ∙ ap (λ es. es ++ first ∷ []) once
              ∙ append_assoc (laws.received st.world c) (second ∷ []) (first ∷ []),
        )
      where
        not_sent : {o : Sent} → o ≡ full → o ≢ sent
        not_sent p = λ q. cc
