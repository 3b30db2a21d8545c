-- ===== src/Proxy/Added.antt =====
-- `add_route` on a cluster that keeps its promises, and the routes that `get_all_routes` reads.
use kubespawner.Prelude.{◌≡◌, ◌∙◌, sym, refl, Option, none, some}
use kubespawner.Text.{Text}
use kubespawner.Json.{Value, Fields, object}
use kubespawner.Dict.{Dict}
use kubespawner.Slugs.{Lower, Hash}
use kubespawner.Objects.Ingress.{
  Url, Metadata, Endpoints, Service, Ingress, Objects, IngressOptions, make_ingress,
  proxy_annotations, proxy_labels, ingress_of,
}
use kubespawner.Proxy.{reflector_labels, Api, Outcome, proceed, apply_objects}
use kubespawner.Proxy.Kinds.{IsStore, IsSelected, stored, settle-stored, settle-ok}
use kubespawner.Proxy.Routes.{KeepsProxy, Reads, IsMerge, route_of-stored}
use kubespawner.Proxy.Named.{
  endpoints_name, service_name, ingress_name, endpoints_labels, service_labels, ingress_labels,
  AreMade, make_ingress-AreMade,
}
use kubespawner.Proxy.Labels.{
  ingress_options-component, proxy_labels-IsSelected, ingress_of-IsSelected,
}
use kubespawner.Proxy.Expand.{Configuration, ingress_options}
use kubespawner.Proxy.Calls.{or_invalid, route_name, route_objects, add_route}

-- What the cluster holds of each kind, and how it merges.
pub record View (W : Type 0) : Type 0 where
  pub endpoints_at : Text → W → Option Endpoints
  pub services_at : Text → W → Option Service
  pub ingresses_at : Text → W → Option Ingress
  pub merge_endpoints : Endpoints → Endpoints → Endpoints
  pub merge_services : Service → Service → Service
  pub merge_ingresses : Ingress → Ingress → Ingress

-- Each kind is stored by name and shown by the selector's labels, and patches of ingresses keep the
-- new annotations.
pub record IsCluster {W : Type 0} (namespace : Text) (selector : Dict Text) (k : Api W) (c : View W)
    : Type 0 where
  pub of_endpoints :
      IsStore namespace selector endpoints_name endpoints_labels c.merge_endpoints c.endpoints_at
        k.endpoints
  pub of_services :
      IsStore namespace selector service_name service_labels c.merge_services c.services_at
        k.services
  pub of_ingresses :
      IsStore namespace selector ingress_name ingress_labels c.merge_ingresses c.ingresses_at
        k.ingresses
  pub merges : IsMerge c.merge_ingresses

-- What `add_route` leaves for an ingress.
abbrev pub Leaves : {W : Type 0} → View W → (name : Text) → Ingress → Outcome W → Type 0
Leaves {W = W} c name i r =
    (v : W) × (old : Option Ingress) × (r ≡ (none, v))
    × (c.ingresses_at name v ≡ some (stored c.merge_ingresses old i))

apply_objects-Leaves :
    {W : Type 0} (namespace : Text) (selector : Dict Text) (k : Api W) (c : View W)
    → IsCluster namespace selector k c
    → (m : Metadata) (o : Objects) → AreMade m o
    → IsSelected selector (m.labels)
    → ingress_name o.ingress ≡ m.name
    → IsSelected selector (ingress_labels o.ingress)
    → (w : W) → Leaves c m.name o.ingress (apply_objects k namespace m.name o w)
unfolding apply_objects proceed
apply_objects-Leaves namespace selector k c cluster m o made selected named shown w =
    let (v1, first) =
      settle-ok namespace selector endpoints_name endpoints_labels c.merge_endpoints c.endpoints_at
        k.endpoints cluster.of_endpoints m.name o.endpoint w
        (λ e h. rw (made.of_endpoint e h) (refl, selected)) in
    let (v2, second) =
      settle-ok namespace selector service_name service_labels c.merge_services c.services_at
        k.services cluster.of_services m.name o.service v1
        (λ s h. rw (made.of_service s h) (refl, selected)) in
    let (v3, third, there) =
      settle-stored namespace selector ingress_name ingress_labels c.merge_ingresses c.ingresses_at
        k.ingresses cluster.of_ingresses o.ingress v2 shown in
    (
      v3,
      c.ingresses_at (ingress_name o.ingress) v2,
      rw (first, second, sym named) third,
      rw (sym named) there,
    )

-- The names, the parser of URLs, the test for IP addresses, and JSON, which the code takes from
-- other packages.
pub record Packages : Type 0 where
  pub lower : Lower
  pub sha256_hex : Hash
  pub escape : Text → Text
  pub escape_route : Text → Text
  pub urlparse : Text → Url
  pub ip_address : Option Text → Option Text
  pub json_dumps : Value → Text
  pub json_loads : Text → Option Value

or_invalid-some :
    {W : Type 0} (calls : Objects → W → Outcome W) (o : Option Objects) (objects : Objects) (w : W)
    → o ≡ some objects
    → or_invalid calls o w ≡ calls objects w
unfolding or_invalid
or_invalid-some calls none objects w e = absurd (cc e)
or_invalid-some calls (some o) objects w e = let same : o ≡ objects = cc in rw same refl

-- When the data is loaded from JSON as it was dumped, the cluster is as IsCluster says of reflectors
-- that select by `reflector_labels`, the configuration can be expanded, its annotations and its extra
-- labels of ingresses are none of the proxy's, and the target gives objects, then `add_route` ends
-- without an exception, and the cluster holds, under the route's name, an ingress from which the
-- route is read.
pub add_route-Reads :
    {W : Type 0} (p : Packages) (k : Api W) (c : View W) (f : Configuration)
    (cluster : IsCluster f.namespace (reflector_labels f.component_label) k c)
    (routespec target : Text) (data_ : Fields) (o : IngressOptions) (objects : Objects)
    → p.json_loads (p.json_dumps (object data_)) ≡ some (object data_)
    → ingress_options p.lower p.sha256_hex p.escape p.escape_route f routespec data_ ≡ some o
    → KeepsProxy o
    → make_ingress p.urlparse p.ip_address p.json_dumps o
        (route_name p.lower p.sha256_hex p.escape p.escape_route routespec)
        routespec
        target
        (object data_)
      ≡ some objects
    → (w : W)
    → (v : W) × (i : Ingress) × (add_route p.lower p.sha256_hex p.escape p.escape_route k p.urlparse
          p.ip_address p.json_dumps f routespec target data_ w
        ≡ (none, v))
      × (c.ingresses_at (route_name p.lower p.sha256_hex p.escape p.escape_route routespec) v
          ≡ some i)
      × Reads p.json_loads i
          (record { routespec = routespec; target = target; data_ = object data_ })
unfolding add_route route_objects
add_route-Reads p k c f cluster routespec target data_ o objects loads expanded keeps made w =
    let name = route_name p.lower p.sha256_hex p.escape p.escape_route routespec in
    let m : Metadata = record {
      name = name;
      annotations = proxy_annotations p.json_dumps routespec target (object data_);
      labels = proxy_labels o.common_labels;
    } in
    let component =
      ingress_options-component p.lower p.sha256_hex p.escape p.escape_route f routespec data_ o
        expanded in
    let selected = proxy_labels-IsSelected f.component_label o.common_labels component in
    let (parts, (service, is_it)) =
      make_ingress-AreMade p.urlparse p.ip_address p.json_dumps o name routespec target
        (object data_) objects made in
    let shown =
      ingress_of-IsSelected p.urlparse p.ip_address p.json_dumps f.component_label o keeps component
        name routespec target (object data_) service in
    let (v, old, ends, there) =
      apply_objects-Leaves f.namespace (reflector_labels f.component_label) k c cluster m objects
        parts selected (rw is_it (unfold ingress_of in refl)) (rw is_it shown) w in
    (
      v,
      stored c.merge_ingresses old objects.ingress,
      rw expanded (
          or_invalid-some (apply_objects k f.namespace name)
            (make_ingress p.urlparse p.ip_address p.json_dumps o name routespec target
              (object data_))
            objects w made
          ∙ ends),
      there,
      rw is_it (
          route_of-stored p.urlparse p.ip_address p.json_dumps p.json_loads c.merge_ingresses
            cluster.merges o keeps name routespec target (object data_) service old loads),
    )
