-- ===== src/Proxy/Tests.antt =====
-- A cluster that stores what it is told, and instances of the theorems on it.
use kubespawner.Prelude.{◌≡◌, refl, ◌∙◌, true, false, Option, none, some, [], ◌∷◌, map}
use kubespawner.Text.{Text, codes, text_eq, text_eq_iff, to_lower_ascii}
use kubespawner.Json.{object, end}
use kubespawner.Dict.{Dict, get, insert, pop, update, get-insert, get-pop}
use kubespawner.Objects.Ingress.{
  Metadata, Endpoints, Service, Ingress, Objects, IngressOptions, make_ingress, cluster_ip,
  ingress_of, backend, address_backend, proxy_annotations, proxy_labels,
}
use kubespawner.Proxy.{reflector_labels, Reply, done, api_error, Kind, Api, Route, get_all_routes}
use kubespawner.Proxy.Kinds.{IsStore}
use kubespawner.Proxy.Routes.{KeepsProxy, Reads}
use kubespawner.Proxy.Named.{
  endpoints_name, service_name, ingress_name, endpoints_labels, service_labels, ingress_labels,
}
use kubespawner.Proxy.Added.{View, IsCluster, Packages, add_route-Reads}
use kubespawner.Proxy.Listing.{keyed, MadeIngress, get_all_routes-ingress_made}
use kubespawner.Proxy.Removal.{AreIndependent, IsRemoved, delete_route-IsRemoved}
use kubespawner.Proxy.Expand.{Configuration, ingress_options, expand_dict, expand_specifications}
use kubespawner.Proxy.Calls.{route_name, add_route, delete_route}

-- What is stored of each kind, by name.
pub record Stored : Type 0 where
  pub endpoints : Dict Endpoints
  pub services : Dict Service
  pub ingresses : Dict Ingress

unfoldable created : {O : Type 0} → (name : Text) → O → Option O → Dict O → Reply × Dict O
created name o none d = (done, insert name o d)
created name o (some old) d = (api_error 409, d)

unfoldable patched : {O : Type 0} → (name : Text) → O → Option O → Dict O → Reply × Dict O
patched name o none d = (api_error 404, d)
patched name o (some old) d = (done, insert name o d)

unfoldable removed : {O : Type 0} → (name : Text) → Option O → Dict O → Reply × Dict O
removed name none d = (api_error 404, d)
removed name (some old) d = (done, pop name d)

-- One kind of object, whose store is a part of the cluster.
abbrev kind_of :
    {O : Type 0}
    → (name_of : O → Text) (part : Stored → Dict O) (put : Dict O → Stored → Stored) → Kind Stored O
kind_of name_of part put = record {
  create =
      λ o w. let (r, d) = created (name_of o) o (get (name_of o) (part w)) (part w) in (r, put d w);
  patch =
      λ o w. let (r, d) = patched (name_of o) o (get (name_of o) (part w)) (part w) in (r, put d w);
  delete = λ n w. let (r, d) = removed n (get n (part w)) (part w) in (r, put d w);
  wait = λ n w. (true, w);
}

get-insert_same : {O : Type 0} (k : Text) (o : O) (d : Dict O) → get k (insert k o d) ≡ some o
get-insert_same k o d = get-insert k k o d ∙ rw ((text_eq_iff k k).1 refl) refl

get-pop_same : {O : Type 0} (k : Text) (d : Dict O) → get k (pop k d) ≡ none
get-pop_same k d = get-pop k k d ∙ rw ((text_eq_iff k k).1 refl) refl

kind_of-IsStore :
    {O : Type 0} (namespace : Text) (selector : Dict Text) (name_of : O → Text)
    (labels_of : O → Dict Text) (part : Stored → Dict O) (put : Dict O → Stored → Stored)
    → ((d : Dict O) (w : Stored) → part (put d w) ≡ d)
    → ((w : Stored) → put (part w) w ≡ w)
    → IsStore namespace selector name_of labels_of
        (λ old new. new)
        (λ n w. get n (part w))
        (kind_of name_of part put)
unfolding created patched removed
kind_of-IsStore namespace selector name_of labels_of part put put_part put_same = record {
  create_new = λ o w new. rw new (
    refl,
    rw (put_part (insert (name_of o) o (part w)) w) (get-insert_same (name_of o) o (part w)),
  );
  create_again = λ o old w there. rw (there, put_same w) refl;
  patch_there = λ o old w there. rw there (
    refl,
    rw (put_part (insert (name_of o) o (part w)) w) (get-insert_same (name_of o) o (part w)),
  );
  delete_there =
      λ n old w there. rw there (refl, rw (put_part (pop n (part w)) w) (get-pop_same n (part w)));
  delete_missing = λ n w missing. rw (missing, put_same w) refl;
  wait_there = λ n o w there selected. (refl, there);
  merge_labels = λ old new j v h. h;
}

abbrev put_endpoints : Dict Endpoints → Stored → Stored
put_endpoints d w = record { endpoints = d; services = w.services; ingresses = w.ingresses }

abbrev put_services : Dict Service → Stored → Stored
put_services d w = record { endpoints = w.endpoints; services = d; ingresses = w.ingresses }

abbrev put_ingresses : Dict Ingress → Stored → Stored
put_ingresses d w = record { endpoints = w.endpoints; services = w.services; ingresses = d }

abbrev endpoints_in : Stored → Dict Endpoints
endpoints_in w = w.endpoints

abbrev services_in : Stored → Dict Service
services_in w = w.services

abbrev ingresses_in : Stored → Dict Ingress
ingresses_in w = w.ingresses

abbrev api : Api Stored
api = record {
  endpoints = kind_of endpoints_name endpoints_in put_endpoints;
  services = kind_of service_name services_in put_services;
  ingresses = kind_of ingress_name ingresses_in put_ingresses;
}

abbrev view : View Stored
view = record {
  endpoints_at = λ n w. get n w.endpoints;
  services_at = λ n w. get n w.services;
  ingresses_at = λ n w. get n w.ingresses;
  merge_endpoints = λ old new. new;
  merge_services = λ old new. new;
  merge_ingresses = λ old new. new;
}

api-IsCluster : (namespace : Text) (selector : Dict Text) → IsCluster namespace selector api view
api-IsCluster namespace selector = record {
  of_endpoints =
      kind_of-IsStore namespace selector endpoints_name endpoints_labels endpoints_in put_endpoints
        (λ d w. refl) (λ w. refl);
  of_services =
      kind_of-IsStore namespace selector service_name service_labels services_in put_services
        (λ d w. refl) (λ w. refl);
  of_ingresses =
      kind_of-IsStore namespace selector ingress_name ingress_labels ingresses_in put_ingresses
        (λ d w. refl) (λ w. refl);
  merges = λ old new k v h. h;
}

api-AreIndependent : AreIndependent api view
api-AreIndependent = record {
  service_endpoints = λ n w h. h;
  ingress_endpoints = λ n w h. h;
  ingress_services = λ n w h. h;
}

abbrev empty_cluster : Stored
empty_cluster = record { endpoints = []; services = []; ingresses = [] }

abbrev ip_only : Option Text → Option Text
ip_only none = none
ip_only (some host) = some host

-- Every URL has the path `/user/ada` and the address of one pod; the data is empty.
abbrev packages : Packages
packages = record {
  lower = map to_lower_ascii;
  sha256_hex = λ b. codes "c0ffee42c0ffee42c0ffee42c0ffee42c0ffee42c0ffee42c0ffee42c0ffee42";
  escape = λ s. s;
  escape_route = λ s. codes "2fuser2fada";
  urlparse = λ url. record {
    netloc = [];
    path = codes "/user/ada";
    hostname = some (codes "10.0.0.7");
    port = some 8888;
  };
  ip_address = ip_only;
  json_dumps = λ d. codes "{}";
  json_loads = λ s. some (object end);
}

abbrev configuration : Configuration
configuration = record {
  namespace = codes "jhub";
  namespace_default = codes "jhub";
  component_label = codes "singleuser-server";
  common_labels = [];
  ingress_extra_labels = [];
  ingress_extra_annotations = [];
  ingress_class_name = [];
  ingress_specifications = [];
  reuse_existing_services = false;
}

abbrev options : IngressOptions
options = record {
  namespace = codes "jhub";
  common_labels =
      (codes "app.kubernetes.io/component", codes "singleuser-server")
      ∷ (codes "component", codes "singleuser-server")
      ∷ [];
  ingress_extra_labels = [];
  ingress_extra_annotations = [];
  ingress_class_name = some [];
  ingress_specifications = [];
  reuse_existing_services = false;
}

options_run :
    ingress_options packages.lower packages.sha256_hex packages.escape packages.escape_route
      configuration
      (codes "/user/ada/")
      end
    ≡ some options
unfolding ingress_options expand_dict expand_specifications update insert text_eq
options_run = refl

options-KeepsProxy : KeepsProxy options
unfolding get
options-KeepsProxy = record {
  no_data = refl;
  no_routespec = refl;
  no_component = refl;
  no_route = refl;
  no_target = refl;
}

abbrev name : Text
name =
    route_name packages.lower packages.sha256_hex packages.escape packages.escape_route
      (codes "/user/ada/")

abbrev metadata : Metadata
metadata = record {
  name = name;
  annotations =
      proxy_annotations packages.json_dumps (codes "/user/ada/") (codes "http://10.0.0.7:8888")
        (object end);
  labels = proxy_labels options.common_labels;
}

abbrev made : Objects
made = record {
  endpoint = some (record { metadata = metadata; ip = codes "10.0.0.7"; port = 8888 });
  service = some (record { metadata = metadata; service_type = cluster_ip; port = 8888 });
  ingress =
      ingress_of packages.urlparse packages.ip_address packages.json_dumps options name
        (codes "/user/ada/") (codes "http://10.0.0.7:8888") (object end) name;
}

made_run :
    make_ingress packages.urlparse packages.ip_address packages.json_dumps options name
      (codes "/user/ada/")
      (codes "http://10.0.0.7:8888")
      (object end)
    ≡ some made
unfolding make_ingress backend address_backend
made_run = refl

add_route-Reads_example :
    (v : Stored) × (i : Ingress) × (add_route packages.lower packages.sha256_hex packages.escape
        packages.escape_route api packages.urlparse packages.ip_address packages.json_dumps
        configuration
        (codes "/user/ada/")
        (codes "http://10.0.0.7:8888")
        end
        empty_cluster
      ≡ (none, v))
    × (get name v.ingresses ≡ some i)
    × Reads packages.json_loads i (record {
      routespec = codes "/user/ada/";
      target = codes "http://10.0.0.7:8888";
      data_ = object end;
    })
add_route-Reads_example =
    add_route-Reads packages api view configuration
      (api-IsCluster (codes "jhub") (reflector_labels (codes "singleuser-server")))
      (codes "/user/ada/") (codes "http://10.0.0.7:8888") end options made refl options_run
      options-KeepsProxy made_run empty_cluster

delete_route-IsRemoved_example :
    (v : Stored) × (delete_route packages.lower packages.sha256_hex packages.escape
        packages.escape_route api
        (codes "/user/ada/")
        empty_cluster
      ≡ (none, v))
    × IsRemoved view name v
delete_route-IsRemoved_example =
    delete_route-IsRemoved packages.lower packages.sha256_hex packages.escape packages.escape_route
      (codes "jhub") (reflector_labels (codes "singleuser-server")) api view
      (api-IsCluster (codes "jhub") (reflector_labels (codes "singleuser-server")))
      api-AreIndependent (codes "/user/ada/") empty_cluster

abbrev ada_route : Route
ada_route = record {
  routespec = codes "/user/ada/";
  target = codes "http://10.0.0.7:8888";
  data_ = object end;
}

abbrev ada : MadeIngress
ada = record {
  options = options;
  name = name;
  service_name = name;
  old = some made.ingress;
  route = ada_route;
}

get_all_routes-ingress_made_example :
    get_all_routes packages.json_loads ((codes "jhub/ada", made.ingress) ∷ [])
    ≡ some (keyed (ada_route ∷ []))
get_all_routes-ingress_made_example =
    get_all_routes-ingress_made packages.urlparse packages.ip_address packages.json_dumps
      packages.json_loads (λ old new. new) (λ old new k v h. h)
      ((codes "jhub/ada", made.ingress) ∷ []) (ada ∷ []) (refl, tt) (options-KeepsProxy, tt) refl
      (unfold get in (refl, tt))
