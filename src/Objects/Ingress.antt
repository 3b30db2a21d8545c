-- ===== src/Objects/Ingress.antt =====
-- `make_ingress`: the objects that route to a server.
use kubespawner.Prelude.{
  ℕ, Bool, true, false, ◌&&◌, Option, none, some, List, [], ◌∷◌, ◌++◌, map, if◌then◌else◌, ◌>>=◌,
}
use kubespawner.Text.{Text, codes, text_eq}
use kubespawner.Json.{Value}
use kubespawner.Dict.{Dict, update, insert}
use kubespawner.Utils.Hosts.{split_dots, host_matching}
use kubespawner.Objects.Env.{member}

-- What the standard library's `urlparse` finds in a URL.
pub record Url : Type 0 where
  pub netloc : Text
  pub path : Text
  pub hostname : Option Text
  pub port : Option ℕ

pub record Metadata : Type 0 where
  pub name : Text
  pub annotations : Dict Text
  pub labels : Dict Text

pub record Endpoints : Type 0 where
  pub metadata : Metadata
  pub ip : Text
  pub port : ℕ

pub data ServiceType : Type 0 where
  cluster_ip : ServiceType
  external_name : Text → ServiceType

pub record Service : Type 0 where
  pub metadata : Metadata
  pub service_type : ServiceType
  pub port : ℕ

-- A rule: the host, the path, and the service with its port.
pub record Rule : Type 0 where
  pub host : Option Text
  pub path : Text
  pub service_name : Text
  pub port : Option ℕ

pub record Tls : Type 0 where
  pub host : Text
  pub secret_name : Text

pub record Ingress : Type 0 where
  pub metadata : Metadata
  pub rules : List Rule
  pub tls : Option (List Tls)
  pub ingress_class_name : Option Text

-- An element of `ingress_specifications`.
pub record Specification : Type 0 where
  pub host : Text
  pub tls_secret : Option Text

-- `[^.]+` as an optional group.
unfoldable pub some_part : Text → Option Text
some_part [] = none
some_part (c ∷ s) = some (c ∷ s)

-- The groups of `SERVICE_DNS_PATTERN`, service and namespace, from the parts between the dots.
unfoldable pub dns_groups : List Text → Option (Text × Option Text)
dns_groups [] = none
dns_groups ([] ∷ parts) = none
dns_groups ((c ∷ s) ∷ []) = some (c ∷ s, none)
dns_groups ((c ∷ s) ∷ p ∷ parts) = some (c ∷ s, some_part p)

-- `SERVICE_DNS_PATTERN.match(hostname)`, which does not ask for the end of the text.
unfoldable pub service_dns_match : Text → Option (Text × Option Text)
service_dns_match hostname = dns_groups (split_dots hostname)

-- `not group or group == namespace`
unfoldable pub in_namespace : Text → Option Text → Bool
in_namespace namespace none = true
in_namespace namespace (some found) = text_eq found namespace

-- The service's name, if one of the namespace is to be used.
unfoldable pub reused :
    (reuse_existing_services : Bool) (namespace : Text) → Option (Text × Option Text) → Option Text
reused reuse_existing_services namespace none = none
reused reuse_existing_services namespace (some (service, found)) =
    if reuse_existing_services && in_namespace namespace found then some service else none

-- `x or None` for a text
unfoldable pub or_none : Text → Option Text
or_none [] = none
or_none (c ∷ s) = some (c ∷ s)

-- `hosts.append(host)` if it is not there
unfoldable pub append_new : Text → List Text → List Text
append_new host hosts = if member host hosts then hosts else hosts ++ host ∷ []

-- The loop over `ingress_specifications`, with `hosts` and `add_routespec_host`.
unfoldable pub collect_hosts :
    (routespec_host : Text) → List Specification → List Text → Bool → List Text × Bool
collect_hosts routespec_host [] hosts add = (hosts, add)
collect_hosts routespec_host (s ∷ specs) hosts add =
    let matches = host_matching routespec_host s.host in
    collect_hosts routespec_host specs
      (if matches
        then (if add then hosts ++ routespec_host ∷ [] else hosts)
        else append_new s.host hosts)
      (if matches then false else add)

-- The loop when the route has no host.
unfoldable pub collect_all : List Specification → List Text → List Text
collect_all [] hosts = hosts
collect_all (s ∷ specs) hosts = collect_all specs (append_new s.host hosts)

-- `hosts.insert(0, routespec_host)` if it is still to be added
unfoldable pub with_host : Text → List Text × Bool → List Text
with_host routespec_host (hosts, add) = if add then routespec_host ∷ hosts else hosts

-- One rule without a host if there are no hosts.
unfoldable pub or_any_host : List Text → List (Option Text)
or_any_host [] = none ∷ []
or_any_host (h ∷ hosts) = map some (h ∷ hosts)

-- The hosts of the rules.
unfoldable pub rule_hosts : (routespec_host : Option Text) → List Specification → List (Option Text)
rule_hosts none specs = or_any_host (collect_all specs [])
rule_hosts (some host) specs = map some (with_host host (collect_hosts host specs [] true))

unfoldable pub tls_of : List Specification → List Tls
tls_of [] = []
tls_of (s ∷ specs) =
    let rest = tls_of specs in
    elim (s.tls_secret) [
      | none ↦ rest
      | some secret ↦ record { host = s.host; secret_name = secret } ∷ rest
    ]

-- `tls or None`
unfoldable pub tls_or_none : List Tls → Option (List Tls)
tls_or_none [] = none
tls_or_none (t ∷ tls) = some (t ∷ tls)

-- The annotations that say what the route is; `json_dumps` is that of the standard library.
unfoldable pub proxy_annotations :
    (json_dumps : Value → Text) (routespec target : Text) (data_ : Value) → Dict Text
proxy_annotations json_dumps routespec target data_ =
    (codes "hub.jupyter.org/proxy-data", json_dumps data_)
    ∷ (codes "hub.jupyter.org/proxy-routespec", routespec)
    ∷ (codes "hub.jupyter.org/proxy-target", target)
    ∷ []

unfoldable pub proxy_labels : Dict Text → Dict Text
proxy_labels common_labels =
    insert (codes "hub.jupyter.org/proxy-route") (codes "true") common_labels

-- The endpoints, the service, and the name of the service that the ingress uses. A service that is
-- made needs a port: the client's `V1ServicePort` refuses None with a ValueError.
unfoldable pub external_backend :
    (metadata : Metadata) (hostname : Text) (port : Option ℕ)
    → Option Text
    → Option (Option Endpoints × Option Service × Text)
external_backend metadata hostname port (some service) = some (none, none, service)
external_backend metadata hostname none none = none
external_backend metadata hostname (some port) none = some (
  none,
  some (record { metadata = metadata; service_type = external_name hostname; port = port }),
  metadata.name,
)

-- With no IP address, `hostname` is matched, and None is a TypeError.
unfoldable pub named_backend :
    (metadata : Metadata) (reuse_existing_services : Bool) (namespace : Text) (port : Option ℕ)
    → Option Text
    → Option (Option Endpoints × Option Service × Text)
named_backend metadata reuse_existing_services namespace port none = none
named_backend metadata reuse_existing_services namespace port (some hostname) =
    external_backend metadata hostname port
      (reused reuse_existing_services namespace (service_dns_match hostname))

-- With an IP address, as with a service of its own, the client refuses a port that is None.
unfoldable pub address_backend :
    (metadata : Metadata) (ip : Text) → Option ℕ → Option (Option Endpoints × Option Service × Text)
address_backend metadata ip none = none
address_backend metadata ip (some port) = some (
  some (record { metadata = metadata; ip = ip; port = port }),
  some (record { metadata = metadata; service_type = cluster_ip; port = port }),
  metadata.name,
)

-- `ip_address` gives the compressed form of what is an IP address.
unfoldable pub backend :
    (ip_address : Option Text → Option Text) (metadata : Metadata) (reuse_existing_services : Bool)
    (namespace : Text) (target : Url)
    → Option Text
    → Option (Option Endpoints × Option Service × Text)
backend ip_address metadata reuse_existing_services namespace target (some ip) =
    address_backend metadata ip target.port
backend ip_address metadata reuse_existing_services namespace target none =
    named_backend metadata reuse_existing_services namespace target.port target.hostname

abbrev pub rule_of : (path service_name : Text) (port : Option ℕ) → Option Text → Rule
rule_of path service_name port host = record {
  host = host;
  path = path;
  service_name = service_name;
  port = port;
}

-- What `make_ingress` takes of the configuration, expanded.
pub record IngressOptions : Type 0 where
  pub namespace : Text
  pub common_labels : Dict Text
  pub ingress_extra_labels : Dict Text
  pub ingress_extra_annotations : Dict Text
  pub ingress_class_name : Option Text
  pub ingress_specifications : List Specification
  pub reuse_existing_services : Bool

-- What `make_ingress` returns.
pub record Objects : Type 0 where
  pub endpoint : Option Endpoints
  pub service : Option Service
  pub ingress : Ingress

module _ (urlparse : Text → Url) (ip_address : Option Text → Option Text)
    (json_dumps : Value → Text) where
  -- The ingress, by the name of the service that it uses.
  unfoldable pub ingress_of :
      IngressOptions → (name routespec target : Text) (data_ : Value) → Text → Ingress
  ingress_of o name routespec target data_ service_name = record {
    metadata = record {
      name = name;
      annotations =
          update (proxy_annotations json_dumps routespec target data_) o.ingress_extra_annotations;
      labels = update (proxy_labels o.common_labels) o.ingress_extra_labels;
    };
    rules =
        map (rule_of (Url.path (urlparse routespec)) service_name (Url.port (urlparse target)))
          (rule_hosts (or_none (Url.netloc (urlparse routespec))) o.ingress_specifications);
    tls = tls_or_none (tls_of o.ingress_specifications);
    ingress_class_name = o.ingress_class_name;
  }

  unfoldable pub make_ingress :
      IngressOptions → (name routespec target : Text) (data_ : Value) → Option Objects
  make_ingress o name routespec target data_ = do
    parts ←
        backend ip_address
          (record {
            name = name;
            annotations = proxy_annotations json_dumps routespec target data_;
            labels = proxy_labels o.common_labels;
          })
          o.reuse_existing_services o.namespace (urlparse target)
          (ip_address (Url.hostname (urlparse target)))
    some (record {
      endpoint = parts.0;
      service = parts.1;
      ingress = ingress_of o name routespec target data_ parts.2;
    })
