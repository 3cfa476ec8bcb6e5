-- ===== src/Ingress/Routes.antt =====
-- Which requests are answered here, which go on to the ring, and which get nothing.
use llm_worker.Base.{
  ◌≡◌, ◌≢◌, refl, sym, ap, ◌∙◌, ◌⊎◌, inl, inr, Text, codes, text_eq, true, false, [], ◌∷◌,
  Bool-cases, arith,
}
use llm_worker.Engine.Handle.{JobQueue}
use llm_worker.Engine.Host.{Outcome, ok, err}
use llm_worker.Protocol.Json.{Printer}
use llm_worker.Ingress.{
  AppRouter, route, route_body, route_body_stream, has_body_handler, has_body_stream_handler,
  is_chat_path, chat_completions_path, not_found, health, models,
}

text_eq_refl : (t : Text) → text_eq t t ≡ true
text_eq_refl [] = refl
text_eq_refl (c ∷ t) = ground (arith, text_eq_refl t)

text_eq→≡ : (s t : Text) → text_eq s t ≡ true → s ≡ t
text_eq→≡ [] [] h = refl
text_eq→≡ [] (d ∷ t) h = ground arith
text_eq→≡ (c ∷ s) [] h = ground arith
text_eq→≡ (c ∷ s) (d ∷ t) h = ground (arith, text_eq→≡ s t)

Bool-differ : false ≢ true
Bool-differ h = ground arith

text_eq-cases : (s t : Text) → ((s ≡ t) × (text_eq s t ≡ true)) ⊎ ((s ≢ t) × (text_eq s t ≡ false))
text_eq-cases s t = elim (Bool-cases (text_eq s t)) [
  | inl e ↦ inl (text_eq→≡ s t e, e)
  | inr e ↦ inr ((λ same. Bool-differ (sym e ∙ ap (λ r. text_eq r t) same ∙ text_eq_refl t)), e)
]

-- The paths that a `GET` finds.
abbrev pub Known : Text → Type 0
Known path =
    (path ≡ codes "/")
    ⊎ ((path ≡ codes "/health") ⊎ ((path ≡ codes "/healthz") ⊎ (path ≡ codes "/v1/models")))

unknown :
    (path : Text)
    → path ≢ codes "/"
    → path ≢ codes "/health"
    → path ≢ codes "/healthz"
    → path ≢ codes "/v1/models"
    → Known path
    → ⊥
unknown path n₀ n₁ n₂ n₃ (inl at) = n₀ at
unknown path n₀ n₁ n₂ n₃ (inr (inl at)) = n₁ at
unknown path n₀ n₁ n₂ n₃ (inr (inr (inl at))) = n₂ at
unknown path n₀ n₁ n₂ n₃ (inr (inr (inr at))) = n₃ at

module _ (p : Printer) (queues : JobQueue) (router : AppRouter p queues) where
  -- Every request without a body is answered: a `GET` of the page, of the two health paths and of the
  -- list of models with status 200, and any other with the body of status 404.
  pub route-Known :
      (method path : Text)
      → (((method ≡ codes "GET") × Known path) × ((route p queues router method path).status ≡ 200))
        ⊎ ((¬ ((method ≡ codes "GET") × Known path))
            × (route p queues router method path ≡ not_found p queues))
  unfolding route health models
  route-Known method path = elim (text_eq-cases method (codes "GET")) [
    | inr (other, g) ↦ inr ((λ (get, at). other get), rw (g, route) refl)
    | inl (get, g) ↦ elim (text_eq-cases path (codes "/")) [
      | inl (at, e) ↦ inl ((get, inl at), rw (g, e, route) refl)
      | inr (n₀, e₀) ↦ elim (text_eq-cases path (codes "/health")) [
        | inl (at, e) ↦ inl ((get, inr (inl at)), rw (g, e₀, e, route) refl)
        | inr (n₁, e₁) ↦ elim (text_eq-cases path (codes "/healthz")) [
          | inl (at, e) ↦ inl ((get, inr (inr (inl at))), rw (g, e₀, e₁, e, route) refl)
          | inr (n₂, e₂) ↦ elim (text_eq-cases path (codes "/v1/models")) [
            | inl (at, e) ↦ inl ((get, inr (inr (inr at))), rw (g, e₀, e₁, e₂, e, route) refl)
            | inr (n₃, e₃) ↦
                inr ((λ (_, at). unknown path n₀ n₁ n₂ n₃ at), rw (g, e₀, e₁, e₂, e₃, route) refl)
          ]
        ]
      ]
    ]
  ]

-- A body goes to the ring on the path of chat completions and nowhere else: both tests for a handler
-- say so, the request with its stream is the ring's there and an error elsewhere, and a request that
-- is not to stream is an error there and status 404 elsewhere.
pub route_body_stream-chat_path :
    (p : Printer) (queues : JobQueue) (path : Text) (upload : Outcome (Unit {0}))
    → ((path ≡ chat_completions_path)
        × (has_body_handler path ≡ true)
        × (has_body_stream_handler path ≡ true)
        × (route_body_stream path upload ≡ upload)
        × ((e : Text) × (route_body p queues path ≡ err e)))
      ⊎ ((path ≢ chat_completions_path)
          × (has_body_handler path ≡ false)
          × (has_body_stream_handler path ≡ false)
          × ((e : Text) × (route_body_stream path upload ≡ err e))
          × (route_body p queues path ≡ ok (not_found p queues)))
unfolding has_body_handler has_body_stream_handler route_body_stream route_body is_chat_path
route_body_stream-chat_path p queues path upload = elim (text_eq-cases path chat_completions_path) [
  | inl (same, e) ↦ inl (
    same,
    rw (e, has_body_handler) refl,
    rw (e, has_body_stream_handler) refl,
    rw (e, route_body_stream) refl,
    (
      codes "chat completions need streaming request and response handling",
      rw (e, route_body) refl,
    ),
  )
  | inr (other, e) ↦ inr (
    other,
    e,
    e,
    (codes "no streaming handler for this route", rw (e, route_body_stream) refl),
    rw (e, route_body) refl,
  )
]
