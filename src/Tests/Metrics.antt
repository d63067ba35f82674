-- ===== src/Tests/Metrics.antt =====
-- A request to a route, counted.
use movie_reservation_agent.Prelude.{String, ◌≡◌, ◌⊎◌, false, [], ◌∷◌, ◌++◌}
use movie_reservation_agent.Metrics.{
  ApiRoute, PathLibrary, eligible_route_methods, attributes, status_class, record_request,
}
use movie_reservation_agent.Metrics.Bounded.{
  IsClass, IsCounted, IsRegistered, record_request-IsBounded,
}

abbrev texts : PathLibrary
texts = record { lower = λ s. s; split_slash = λ s. s ∷ []; has = λ s t. false }

abbrev route : ApiRoute
route = record { id = 4; path = "/agent/runs"; methods = "POST" ∷ [] }

record_request-IsBounded_example :
    let after =
      record_request
        (eligible_route_methods texts [] ((route, "/agent/runs") ∷ []))
        "POST"
        route
        404
        [] in
    (after ≡ [])
    ⊎ ((path : String) × (after ≡ [] ++ (1, attributes "POST" path (status_class 404)) ∷ [])
        × IsCounted texts "POST" path
        × IsRegistered ((route, "/agent/runs") ∷ []) "POST" route.id path
        × IsClass (status_class 404))
record_request-IsBounded_example =
    record_request-IsBounded texts ((route, "/agent/runs") ∷ []) "POST" route 404 []
