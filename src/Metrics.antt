-- ===== src/Metrics.antt =====
-- The counting of requests in llm_agent/llm_agent/core/telemetry.py. The set-up of OpenTelemetry
-- and its instruments is left out: a counter is the list of what has been added to it.
pub mod Bounded
use movie_reservation_agent.Prelude.{
  ℕ, ◌/◌, String, Bool, true, false, ◌&&◌, ◌||◌, not, Option, none, some, List, [], ◌∷◌, ◌++◌,
  str_eq, ltb, ◌==◌, if◌then◌else◌,
}
use movie_reservation_agent.Exec.{Result, ok, err, Exec}

-- A registered route: its identity, its path and its methods.
pub record ApiRoute : Type 0 where
  pub id : ℕ
  pub path : String
  pub methods : List String

-- `route_methods`: the path of a method and the identity of a route, the last one first.
abbrev pub RouteMethods : Type 0
RouteMethods = List ((String × ℕ) × String)

abbrev pub Attributes : Type 0
Attributes = List (String × String)

-- The counter: what has been added, with its attributes.
abbrev pub Counter : Type 0
Counter = List (ℕ × Attributes)

-- What is used of texts: `lower`, `split("/")` and whether a text has another one in it.
pub record PathLibrary : Type 0 where
  pub lower : String → String
  pub split_slash : String → List String
  pub has : String → String → Bool

-- `_HTTP_METHODS`
abbrev pub is_http_method : String → Bool
is_http_method m =
    str_eq m "DELETE"
    || (str_eq m "GET" || (str_eq m "PATCH" || (str_eq m "POST" || str_eq m "PUT")))

abbrev pub any_segment : (String → Bool) → List String → Bool
any_segment test [] = false
any_segment test (s ∷ segments) = test s || any_segment test segments

module _ (lib : PathLibrary) where
  -- `_is_health_route`
  unfoldable pub is_health_route : String → Bool
  is_health_route path =
      any_segment (λ segment. lib.has segment "health" || lib.has segment "ready")
        (lib.split_slash (lib.lower path))

  -- The loop of `_add_route_methods`.
  unfoldable pub methods_loop : RouteMethods → ApiRoute → String → List String → RouteMethods
  methods_loop route_methods route path [] = route_methods
  methods_loop route_methods route path (method ∷ methods) =
      let more = ((method, route.id), path) ∷ route_methods in
      methods_loop (if is_http_method method then more else route_methods) route path methods

  -- `_add_route_methods`
  unfoldable pub add_route_methods : RouteMethods → ApiRoute → String → RouteMethods
  unfolding is_health_route methods_loop
  add_route_methods route_methods route path =
      if is_health_route path
      then route_methods
      else methods_loop route_methods route path route.methods

  -- `_eligible_route_methods`, where each route comes with the path under which it is served: its
  -- own one, or that of its effective context.
  unfoldable pub eligible_route_methods : RouteMethods → List (ApiRoute × String) → RouteMethods
  unfolding add_route_methods
  eligible_route_methods route_methods [] = route_methods
  eligible_route_methods route_methods ((route, path) ∷ routes) =
      eligible_route_methods (add_route_methods route_methods route path) routes

-- `outcomes.get(status_class, "unknown")`
abbrev pub outcome_of_class : String → String
outcome_of_class c =
    if str_eq c "1xx"
    then "informational"
    else if str_eq c "2xx"
    then "success"
    else if str_eq c "3xx"
    then "redirect"
    else if str_eq c "4xx"
    then "client_error"
    else if str_eq c "5xx"
    then "server_error"
    else "unknown"

-- `HttpOutcomeMetrics._attributes`
unfoldable pub attributes : String → String → String → Attributes
attributes method route status_class =
    ("http.request.method", method)
    ∷ ("http.route", route)
    ∷ ("http.response.status_class", status_class)
    ∷ ("outcome", outcome_of_class status_class)
    ∷ []

-- `self._route_methods.get((method, id(route)))`
unfoldable pub route_path : String → ℕ → RouteMethods → Option String
route_path method id [] = none
route_path method id (((m, i), path) ∷ rest) =
    if str_eq m method && (i == id) then some path else route_path method id rest

-- `f"{n}xx"` of a number from 1 to 5
abbrev pub class_of : ℕ → String
class_of n =
    if n == 1
    then "1xx"
    else if n == 2
    then "2xx"
    else if n == 3
    then "3xx"
    else if n == 4
    then "4xx"
    else "5xx"

abbrev pub status_class : ℕ → String
status_class status_code =
    if not (ltb status_code 100) && not (ltb 599 status_code)
    then class_of (status_code / 100)
    else "unknown"

abbrev pub count_at : String → ℕ → Option String → Counter → Counter
count_at method status_code none counter = counter
count_at method status_code (some path) counter =
    counter ++ (1, attributes method path (status_class status_code)) ∷ []

-- `HttpOutcomeMetrics.record`
unfoldable pub record_request : RouteMethods → String → ApiRoute → ℕ → Counter → Counter
unfolding route_path
record_request route_methods method route status_code counter =
    count_at method status_code (route_path method route.id route_methods) counter

-- A request for the middleware: what of its scope is read, once the application has run, the state
-- of everything else and the counter. `route` is an `APIRoute` that has been matched.
pub record Served (S : Type 0) : Type 0 where
  pub scope_type : String
  pub method : String
  pub route : Option ApiRoute
  pub counter : Counter
  pub outside : S

-- A message that the application sends: the start of a response with its status, or another one.
pub data Sent : Type 0 where
  response_start : ℕ → Sent
  other_message : Sent

-- `capture_status`, over all that is sent: the status is that of the last start of a response.
abbrev pub captured : ℕ → List Sent → ℕ
captured status_code [] = status_code
captured status_code (response_start status ∷ messages) = captured status messages
captured status_code (other_message ∷ messages) = captured status_code messages

module _ {S : Type 0} where
  abbrev pub record_route : RouteMethods → Option ApiRoute → ℕ → Served S → Served S
  record_route route_methods none status_code c = c
  record_route route_methods (some route) status_code c = record c {
    counter = record_request route_methods c.method route status_code c.counter;
  }

module _ {S A : Type 0} where
  -- `HttpOutcomeMetricsMiddleware.__call__`. What the application does to a request comes back with
  -- the messages that it has sent, also when it raises.
  unfoldable pub metrics_middleware :
      RouteMethods → (Served S → (Result A × List Sent) × Served S) → Served S → Result A × Served S
  unfolding record_request
  metrics_middleware route_methods app c =
      let r = app c in
      if str_eq c.scope_type "http"
      then (r.0.0, record_route route_methods r.1.route (captured 500 r.0.1) r.1)
      else (r.0.0, r.1)
