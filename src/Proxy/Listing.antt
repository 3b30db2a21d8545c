-- ===== src/Proxy/Listing.antt =====
-- The routes that `get_all_routes` makes of the reflected ingresses.
use kubespawner.Prelude.{
  inl, inr, Bool-cases, ◌≡◌, ◌∙◌, sym, ap, refl, false, Option, none, some, List, [], ◌∷◌, ◌++◌,
  map, arith, append_assoc, append-nil,
}
use kubespawner.Text.{Text, text_eq, text_eq_iff}
use kubespawner.Json.{Value}
use kubespawner.Dict.{Dict, get, insert, values}
use kubespawner.Objects.Ingress.{Url, Ingress, IngressOptions, ingress_of}
use kubespawner.Proxy.Kinds.{stored}
use kubespawner.Proxy.Routes.{KeepsProxy, IsMerge, route_of-stored}
use kubespawner.Proxy.{Route, route_of, collect_routes, get_all_routes}

-- Under its routespec.
abbrev pub keyed : List Route → Dict Route
keyed [] = []
keyed (r ∷ rs) = (r.routespec, r) ∷ keyed rs

-- No routespec stands twice.
abbrev pub AreApart : List Route → Type 0
AreApart [] = Unit
AreApart (r ∷ rs) = (get r.routespec (keyed rs) ≡ none) × AreApart rs

insert-new :
    (k : Text) (r : Route) (d : Dict Route) → get k d ≡ none → insert k r d ≡ d ++ (k, r) ∷ []
unfolding get insert
insert-new k r [] h = refl
insert-new k r ((j, q) ∷ d) h = elim (Bool-cases (text_eq j k)) [
  | inl same ↦ absurd (ground (arith, h, same))
  | inr other ↦ rw other (ap (λ e. (j, q) ∷ e) (insert-new k r d (ground (arith, h, other))))
]

get_snoc-none :
    (k j : Text) (r : Route) (d : Dict Route)
    → get j d ≡ none
    → text_eq k j ≡ false
    → get j (d ++ (k, r) ∷ []) ≡ none
unfolding get
get_snoc-none k j r [] h e = ground (arith, e)
get_snoc-none k j r ((i, q) ∷ d) h e = elim (Bool-cases (text_eq i j)) [
  | inl same ↦ absurd (ground (arith, h, same))
  | inr other ↦ rw other (get_snoc-none k j r d (ground (arith, h, other)) e)
]

-- The routes that are left are new.
abbrev AreNew : Dict Route → List Route → Type 0
AreNew d [] = Unit
AreNew d (r ∷ rs) = (get r.routespec d ≡ none) × AreNew d rs

snoc-AreNew :
    (d : Dict Route) (r : Route) (rs : List Route)
    → get r.routespec (keyed rs) ≡ none
    → AreNew d rs
    → AreNew (d ++ (r.routespec, r) ∷ []) rs
unfolding get
snoc-AreNew d r [] h news = tt
snoc-AreNew d r (q ∷ rs) h (new, news) = elim (Bool-cases (text_eq q.routespec r.routespec)) [
  | inl same ↦ absurd (ground (arith, h, same))
  | inr other ↦ (
    get_snoc-none r.routespec q.routespec r d new (
        ground
          (arith, other, text_eq_iff q.routespec r.routespec, text_eq_iff r.routespec q.routespec)),
    snoc-AreNew d r rs (ground (arith, h, other)) news,
  )
]

AreNew-nil : (rs : List Route) → AreNew [] rs
unfolding get
AreNew-nil [] = tt
AreNew-nil (r ∷ rs) = (refl, AreNew-nil rs)

collect_routes-keyed :
    (json_loads : Text → Option Value) (is : List Ingress) (rs : List Route) (d : Dict Route)
    → map (route_of json_loads) is ≡ map some rs
    → AreApart rs
    → AreNew d rs
    → collect_routes json_loads is d ≡ some (d ++ keyed rs)
unfolding collect_routes
collect_routes-keyed json_loads [] [] d e apart new = ap some (sym (append-nil d))
collect_routes-keyed json_loads [] (r ∷ rs) d e apart new = absurd (cc e)
collect_routes-keyed json_loads (i ∷ is) [] d e apart new = absurd (cc e)
collect_routes-keyed json_loads (i ∷ is) (r ∷ rs) d e (fresh, apart) (first, new) =
    let here : route_of json_loads i ≡ some r = cc in
    let later : map (route_of json_loads) is ≡ map some rs = cc in
    rw (here, insert-new r.routespec r d first)
      (collect_routes-keyed json_loads is rs (d ++ (r.routespec, r) ∷ []) later apart
          (snoc-AreNew d r rs fresh new)
        ∙ ap some (append_assoc d ((r.routespec, r) ∷ []) (keyed rs)))

-- When a route is read from each ingress, and no two have one routespec, the result is the routes by
-- their routespecs.
get_all_routes-keyed :
    (json_loads : Text → Option Value) (ingresses : Dict Ingress) (rs : List Route)
    → map (route_of json_loads) (values ingresses) ≡ map some rs
    → AreApart rs
    → get_all_routes json_loads ingresses ≡ some (keyed rs)
unfolding get_all_routes
get_all_routes-keyed json_loads ingresses rs e apart =
    collect_routes-keyed json_loads (values ingresses) rs [] e apart (AreNew-nil rs)

-- An ingress that `add_route` has made for a route: in the place of an older one, or not.
pub record MadeIngress : Type 0 where
  pub options : IngressOptions
  pub name : Text
  pub service_name : Text
  pub old : Option Ingress
  pub route : Route

abbrev pub route_made : MadeIngress → Route
route_made m = m.route

-- The configuration of each keeps the proxy's annotations.
abbrev pub AllKeepProxy : List MadeIngress → Type 0
AllKeepProxy [] = Unit
AllKeepProxy (m ∷ ms) = KeepsProxy m.options × AllKeepProxy ms

module _ (urlparse : Text → Url) (ip_address : Option Text → Option Text)
    (json_dumps : Value → Text) (json_loads : Text → Option Value)
    (merge : Ingress → Ingress → Ingress) where
  -- What is stored of it.
  abbrev pub ingress_made : MadeIngress → Ingress
  ingress_made m = stored merge m.old (
      ingress_of urlparse ip_address json_dumps m.options m.name (Route.routespec m.route)
        (Route.target m.route) (Route.data_ m.route) m.service_name)

  -- The data of each is loaded as it was dumped.
  abbrev pub AllLoad : List MadeIngress → Type 0
  AllLoad [] = Unit
  AllLoad (m ∷ ms) =
      (json_loads (json_dumps (Route.data_ m.route)) ≡ some (Route.data_ m.route)) × AllLoad ms

  route_of-ingress_made :
      IsMerge merge
      → (ms : List MadeIngress) → AllLoad ms
      → AllKeepProxy ms
      → map (route_of json_loads) (map ingress_made ms) ≡ map some (map route_made ms)
  route_of-ingress_made merges [] loads keeps = refl
  route_of-ingress_made merges (m ∷ ms) loads keeps =
      rw
        (
          route_of-stored urlparse ip_address json_dumps json_loads merge merges m.options keeps.0
              m.name (Route.routespec m.route) (Route.target m.route) (Route.data_ m.route)
              m.service_name m.old loads.0,
          route_of-ingress_made merges ms loads.1 keeps.1,
        )
        refl

  -- When patches keep the new annotations, the ingresses that the reflector has are those that
  -- `add_route` made for some routes, whose data is loaded from JSON as it was dumped, with no
  -- configured annotation or extra label of the proxy's, and no two routes have one routespec, then
  -- `get_all_routes` returns just these routes, each with its target and data under its routespec.
  pub get_all_routes-ingress_made :
      IsMerge merge
      → (ingresses : Dict Ingress) (ms : List MadeIngress) → AllLoad ms
      → AllKeepProxy ms
      → values ingresses ≡ map ingress_made ms
      → AreApart (map route_made ms)
      → get_all_routes json_loads ingresses ≡ some (keyed (map route_made ms))
  get_all_routes-ingress_made merges ingresses ms loads keeps has apart =
      get_all_routes-keyed json_loads ingresses (map route_made ms)
        (ap (map (route_of json_loads)) has ∙ route_of-ingress_made merges ms loads keeps) apart
