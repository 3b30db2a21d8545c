-- ===== src/Proxy/Named.antt =====
-- What the objects of a route have in common.
use kubespawner.Prelude.{◌≡◌, sym, ap, refl, ℕ, Bool, Option, none, some, bound}
use kubespawner.Text.{Text}
use kubespawner.Json.{Value}
use kubespawner.Dict.{Dict}
use kubespawner.Objects.Ingress.{
  Url, external_name, cluster_ip, Metadata, Endpoints, Service, Ingress, Objects, IngressOptions,
  proxy_annotations, proxy_labels, ingress_of, make_ingress, backend, named_backend,
  external_backend, address_backend, reused, service_dns_match,
}

abbrev pub endpoints_name : Endpoints → Text
endpoints_name o = Metadata.name o.metadata

abbrev pub endpoints_labels : Endpoints → Dict Text
endpoints_labels o = Metadata.labels o.metadata

abbrev pub service_labels : Service → Dict Text
service_labels o = Metadata.labels o.metadata

abbrev pub ingress_labels : Ingress → Dict Text
ingress_labels o = Metadata.labels o.metadata

abbrev pub service_name : Service → Text
service_name o = Metadata.name o.metadata

abbrev pub ingress_name : Ingress → Text
ingress_name o = Metadata.name o.metadata

-- The objects of a route have the metadata that `make_ingress` gives them.
pub record AreMade (m : Metadata) (o : Objects) : Type 0 where
  pub of_endpoint : (e : Endpoints) → o.endpoint ≡ some e → e.metadata ≡ m
  pub of_service : (s : Service) → o.service ≡ some s → s.metadata ≡ m

abbrev Parts : Type 0
Parts = Option Endpoints × Option Service × Text

abbrev MadeParts : Metadata → Parts → Type 0
MadeParts m parts =
    ((e : Endpoints) → parts.0 ≡ some e → e.metadata ≡ m)
    × ((s : Service) → parts.1 ≡ some s → s.metadata ≡ m)

same_service : (t s : Service) → some t ≡ some s → s.metadata ≡ t.metadata
same_service t s e = let same : t ≡ s = cc in ap (λ (x : Service). x.metadata) (sym same)

same_endpoints : (t s : Endpoints) → some t ≡ some s → s.metadata ≡ t.metadata
same_endpoints t s e = let same : t ≡ s = cc in ap (λ (x : Endpoints). x.metadata) (sym same)

transport_made : (m : Metadata) (p q : Parts) → some p ≡ some q → MadeParts m p → MadeParts m q
transport_made m p q e h = let same : p ≡ q = cc in rw (sym same) h

external_backend-made :
    (m : Metadata) (hostname : Text) (port : Option ℕ) (reuse : Option Text) (parts : Parts)
    → external_backend m hostname port reuse ≡ some parts
    → MadeParts m parts
unfolding external_backend
external_backend-made m hostname port (some service) parts h =
    transport_made m (none, none, service) parts h (λ e f. absurd (cc f), λ s f. absurd (cc f))
external_backend-made m hostname none none parts h = absurd (cc h)
external_backend-made m hostname (some port) none parts h = transport_made m _ parts h (
  λ e f. absurd (cc f),
  λ s f.
      same_service (record { metadata = m; service_type = external_name hostname; port = port }) s
        f,
)

address_backend-made :
    (m : Metadata) (ip : Text) (port : Option ℕ) (parts : Parts)
    → address_backend m ip port ≡ some parts
    → MadeParts m parts
unfolding address_backend
address_backend-made m ip none parts h = absurd (cc h)
address_backend-made m ip (some port) parts h = transport_made m _ parts h (
  λ e f. same_endpoints (record { metadata = m; ip = ip; port = port }) e f,
  λ s f. same_service (record { metadata = m; service_type = cluster_ip; port = port }) s f,
)

named_backend-made :
    (m : Metadata) (reuse : Bool) (namespace : Text) (port : Option ℕ) (hostname : Option Text)
    (parts : Parts)
    → named_backend m reuse namespace port hostname ≡ some parts
    → MadeParts m parts
unfolding named_backend
named_backend-made m reuse namespace port none parts h = absurd (cc h)
named_backend-made m reuse namespace port (some hostname) parts h =
    external_backend-made m hostname port (reused reuse namespace (service_dns_match hostname))
      parts h

backend-made :
    (ip_address : Option Text → Option Text) (m : Metadata) (reuse : Bool) (namespace : Text)
    (target : Url) (ip : Option Text) (parts : Parts)
    → backend ip_address m reuse namespace target ip ≡ some parts
    → MadeParts m parts
unfolding backend
backend-made ip_address m reuse namespace target (some ip) parts h =
    address_backend-made m ip target.port parts h
backend-made ip_address m reuse namespace target none parts h =
    named_backend-made m reuse namespace target.port target.hostname parts h

-- What `make_ingress` makes: endpoints and a service with its metadata, if any, and the ingress.
pub make_ingress-AreMade :
    (urlparse : Text → Url) (ip_address : Option Text → Option Text) (json_dumps : Value → Text)
    (o : IngressOptions) (name routespec target : Text) (d : Value) (objects : Objects)
    → make_ingress urlparse ip_address json_dumps o name routespec target d ≡ some objects
    → AreMade
        (record {
          name = name;
          annotations = proxy_annotations json_dumps routespec target d;
          labels = proxy_labels o.common_labels;
        })
        objects
      × ((service : Text) × (objects.ingress
            ≡ ingress_of urlparse ip_address json_dumps o name routespec target d service))
unfolding make_ingress
make_ingress-AreMade urlparse ip_address json_dumps o name routespec target d objects h =
    let m : Metadata = record {
      name = name;
      annotations = proxy_annotations json_dumps routespec target d;
      labels = proxy_labels o.common_labels;
    } in
    let made : Parts → Objects = λ parts. record {
      endpoint = parts.0;
      service = parts.1;
      ingress = ingress_of urlparse ip_address json_dumps o name routespec target d parts.2;
    } in
    let ip = ip_address (Url.hostname (urlparse target)) in
    let (parts, found, rest) =
      bound (backend ip_address m o.reuse_existing_services o.namespace (urlparse target) ip)
        (λ parts. some (made parts)) objects h in
    let same : made parts ≡ objects = cc in
    let (of_endpoint, of_service) =
      backend-made ip_address m o.reuse_existing_services o.namespace (urlparse target) ip parts
        found in
    rw (sym same) (record { of_endpoint = of_endpoint; of_service = of_service }, (parts.2, refl))
