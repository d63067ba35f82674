-- ===== src/Metrics/Bounded.antt =====
-- The attributes of the counted requests are bounded: only known methods, registered paths that are
-- not those of health checks, and six classes of status.
use mathlib.Core.Path.{subst}
use movie_reservation_agent.Prelude.{
  ℕ, ◌/◌, String, ◌≡◌, refl, sym, ◌∙◌, ◌⊎◌, inl, inr, Bool, true, false, ◌&&◌, not, ltb, some, List,
  [], ◌∷◌, ◌++◌, All, str_eq, ◌==◌, Bool-cases, Option-cases, arith, eq_iff,
}
use movie_reservation_agent.Metrics.{
  ApiRoute, RouteMethods, Counter, PathLibrary, is_http_method, is_health_route, methods_loop,
  add_route_methods, eligible_route_methods, attributes, route_path, class_of, status_class,
  record_request,
}

-- The classes of a status.
pub data IsClass : String → Type 0 where
  informational : IsClass "1xx"
  success : IsClass "2xx"
  redirect : IsClass "3xx"
  client_error : IsClass "4xx"
  server_error : IsClass "5xx"
  unknown : IsClass "unknown"

and_left : (a b : Bool) → a && b ≡ true → a ≡ true
and_left true b h = refl
and_left false b h = absurd (ground (arith, h))

module _ (method : String) (id : ℕ) (m : String) (i : ℕ) (p : String) (rm : RouteMethods) where
  route_path_found :
      str_eq m method && (i == id) ≡ true → route_path method id (((m, i), p) ∷ rm) ≡ some p
  unfolding route_path
  route_path_found h = rw (h, route_path) refl

  route_path_other :
      str_eq m method && (i == id) ≡ false
      → route_path method id (((m, i), p) ∷ rm) ≡ route_path method id rm
  unfolding route_path
  route_path_other h = rw (h, route_path) refl

class_of-IsClass : (n : ℕ) → IsClass (class_of n)
class_of-IsClass n = elim (Bool-cases (n == 1)) [
  | inl a ↦ rw a informational
  | inr a ↦ elim (Bool-cases (n == 2)) [
    | inl b ↦ rw (a, b) success
    | inr b ↦ elim (Bool-cases (n == 3)) [
      | inl c ↦ rw (a, b, c) redirect
      | inr c ↦ elim (Bool-cases (n == 4)) [
        | inl d ↦ rw (a, b, c, d) client_error
        | inr d ↦ rw (a, b, c, d) server_error
      ]
    ]
  ]
]

status_class-IsClass : (code : ℕ) → IsClass (status_class code)
status_class-IsClass code = elim (Bool-cases (not (ltb code 100) && not (ltb 599 code))) [
  | inl known ↦ rw known (class_of-IsClass (code / 100))
  | inr other ↦ rw other unknown
]

abbrev pub IsIn : {A : Type 0} → A → List A → Type 0
IsIn a [] = ⊥
IsIn a (b ∷ bs) = (a ≡ b) ⊎ IsIn a bs

-- A route with this identity and this method is registered under the path.
abbrev pub IsRegistered : List (ApiRoute × String) → String → ℕ → String → Type 0
IsRegistered routes method id path =
    (route : ApiRoute) × IsIn (route, path) routes × (route.id ≡ id) × IsIn method route.methods

module _ (lib : PathLibrary) where
  -- A known method, and a path that is not one of health checks.
  abbrev pub IsCounted : String → String → Type 0
  IsCounted method path = (is_http_method method ≡ true) × (is_health_route lib path ≡ false)

  module _ (all : List (ApiRoute × String)) where
    abbrev IsEntry : (String × ℕ) × String → Type 0
    IsEntry e = IsCounted e.0.0 e.1 × IsRegistered all e.0.0 e.0.1 e.1

    methods_loop-All :
        (rm : RouteMethods) (route : ApiRoute) (path : String) (methods : List String)
        → is_health_route lib path ≡ false
        → IsIn (route, path) all
        → ((m : String) → IsIn m methods → IsIn m route.methods)
        → All IsEntry rm
        → All IsEntry (methods_loop lib rm route path methods)
    unfolding methods_loop
    methods_loop-All rm route path [] h there among k = k
    methods_loop-All rm route path (method ∷ methods) h there among k =
        let later : (m : String) → IsIn m methods → IsIn m route.methods = λ m i. among m (inr i) in
        elim (Bool-cases (is_http_method method)) [
          | inl known ↦
              rw (known, methods_loop)
                (methods_loop-All (((method, route.id), path) ∷ rm) route path methods h there later
                  (((known, h), (route, there, refl, among method (inl refl))), k))
          | inr other ↦
              rw (other, methods_loop) (methods_loop-All rm route path methods h there later k)
        ]

    eligible-All :
        (rm : RouteMethods) (routes : List (ApiRoute × String))
        → ((r : ApiRoute × String) → IsIn r routes → IsIn r all)
        → All IsEntry rm
        → All IsEntry (eligible_route_methods lib rm routes)
    unfolding eligible_route_methods add_route_methods
    eligible-All rm [] among k = k
    eligible-All rm ((route, path) ∷ routes) among k =
        let later : (r : ApiRoute × String) → IsIn r routes → IsIn r all = λ r i. among r (inr i) in
        elim (Bool-cases (is_health_route lib path)) [
          | inl health ↦ rw (health, eligible_route_methods) (eligible-All rm routes later k)
          | inr fine ↦
              rw (fine, eligible_route_methods)
                (eligible-All (methods_loop lib rm route path route.methods) routes later (
                  methods_loop-All rm route path route.methods fine (among (route, path) (inl refl))
                    (λ m i. i) k))
        ]

    route_path-IsEntry :
        (method : String) (id : ℕ) (rm : RouteMethods) (path : String)
        → All IsEntry rm
        → route_path method id rm ≡ some path
        → IsEntry ((method, id), path)
    unfolding route_path
    route_path-IsEntry method id [] path k e = absurd (ground (arith, e))
    route_path-IsEntry method id (((m, i), p) ∷ rm) path k e =
        elim (Bool-cases (str_eq m method && (i == id))) [
          | inr other ↦
              route_path-IsEntry method id rm path k.1
                (sym (route_path_other method id m i p rm other) ∙ e)
          | inl found ↦
              let same : m ≡ method =
                (eq_iff m method).0 (and_left (str_eq m method) (i == id) found) in
              let same_id : i ≡ id = ground (arith, found) in
              let there : some p ≡ some path =
                sym (route_path_found method id m i p rm found) ∙ e in
              let same_path : p ≡ path = cc there in
              subst (λ q. IsEntry ((method, id), q)) same_path
                (subst (λ n. IsEntry ((n, id), p)) same
                  (subst (λ n. IsEntry ((m, n), p)) same_id k.0))
        ]

  -- With the methods of registered routes, a request adds nothing to the counter or one, with a
  -- known method, a path that is not one of health checks and one of six classes. Under this path a
  -- route is registered that has the identity of the request's route and its method.
  pub record_request-IsBounded :
      (routes : List (ApiRoute × String)) (method : String) (route : ApiRoute) (status_code : ℕ)
      (counter : Counter)
      → let after =
          record_request (eligible_route_methods lib [] routes) method route status_code counter in
        (after ≡ counter)
        ⊎ ((path : String) × (after
              ≡ counter ++ (1, attributes method path (status_class status_code)) ∷ [])
            × IsCounted method path
            × IsRegistered routes method route.id path
            × IsClass (status_class status_code))
  unfolding record_request
  record_request-IsBounded routes method route status_code counter =
      let rm = eligible_route_methods lib [] routes in
      let all : (r : ApiRoute × String) → IsIn r routes → IsIn r routes = λ r i. i in
      elim (Option-cases (route_path method route.id rm)) [
        | inl missing ↦ inl (rw missing refl)
        | inr (path, found) ↦ inr (
          path,
          rw found refl,
          (route_path-IsEntry routes method route.id rm path (eligible-All routes [] routes all tt)
              found).0,
          (route_path-IsEntry routes method route.id rm path (eligible-All routes [] routes all tt)
              found).1,
          status_class-IsClass status_code,
        )
      ]
