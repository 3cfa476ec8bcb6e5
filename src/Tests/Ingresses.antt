-- ===== src/Tests/Ingresses.antt =====
-- The example's router at concrete requests.
use llm_worker.Base.{◌≡◌, ◌≢◌, ◌⊎◌, Text, codes, true, false}
use llm_worker.Engine.Host.{ok, err}
use llm_worker.Ingress.{
  AppRouter, route, route_body, route_body_stream, has_body_handler, has_body_stream_handler,
  chat_completions_path, not_found,
}
use llm_worker.Ingress.Routes.{Known, route-Known, route_body_stream-chat_path}
use llm_worker.Tests.Printing.{plain_printer}
use llm_worker.Tests.Workers.{two_places, inner}

abbrev router : AppRouter plain_printer two_places
router = record { engine = inner; model_name = codes "llm"; index = codes "<html>" }

route-Known_example :
    (((codes "GET" ≡ codes "GET") × Known (codes "/healthz"))
      × ((route plain_printer two_places router (codes "GET") (codes "/healthz")).status ≡ 200))
    ⊎ ((¬ ((codes "GET" ≡ codes "GET") × Known (codes "/healthz")))
        × (route plain_printer two_places router (codes "GET") (codes "/healthz")
            ≡ not_found plain_printer two_places))
route-Known_example = route-Known plain_printer two_places router (codes "GET") (codes "/healthz")

abbrev path : Text
path = codes "/v1/chat/completions"

route_body_stream-chat_path_example :
    ((path ≡ chat_completions_path)
      × (has_body_handler path ≡ true)
      × (has_body_stream_handler path ≡ true)
      × (route_body_stream path (ok tt) ≡ ok tt)
      × ((e : Text) × (route_body plain_printer two_places path ≡ err e)))
    ⊎ ((path ≢ chat_completions_path)
        × (has_body_handler path ≡ false)
        × (has_body_stream_handler path ≡ false)
        × ((e : Text) × (route_body_stream path (ok tt) ≡ err e))
        × (route_body plain_printer two_places path ≡ ok (not_found plain_printer two_places)))
route_body_stream-chat_path_example =
    route_body_stream-chat_path plain_printer two_places path (ok tt)
