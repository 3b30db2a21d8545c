-- ===== src/Proxy.antt =====
-- `KubeIngressProxy` of kubespawner/proxy.py: routes as endpoints, services and ingresses. `W` is
-- the cluster with what the reflectors show of it, which the calls of the API and the waits change.
pub mod Expand
pub mod Calls
pub mod Kinds
pub mod Routes
pub mod Named
pub mod Labels
pub mod Added
pub mod Listing
pub mod Removal
mod Tests
use kubespawner.Prelude.{
  ◌≡◌, ℕ, Bool, true, false, Option, none, some, List, [], ◌∷◌, ◌++◌, ◌==◌, if◌then◌else◌, ◌>>=◌,
}
use kubespawner.Text.{Text, codes}
use kubespawner.Json.{Value}
use kubespawner.Dict.{Dict, get, insert, values}
use kubespawner.Objects.Ingress.{Url, Endpoints, Service, Ingress, Objects, Metadata}

-- The labels by which `__init__` has the three reflectors select.
unfoldable pub reflector_labels : (component_label : Text) → Dict Text
reflector_labels component_label =
    (codes "component", component_label) ∷ (codes "hub.jupyter.org/proxy-route", codes "true") ∷ []

-- What a call of the API ends in.
pub data Reply : Type 0 where
  done : Reply
  api_error : (status : ℕ) → Reply
  failed : Reply

pub data Error : Type 0 where
  api_exception : (status : ℕ) → Error
  other_exception : Error
  timeout_error : Error
  invalid_route : Error

-- The calls of the API for one kind of object, and `exponential_backoff` until the kind's reflector
-- has an object: whether it has it in time.
pub record Kind (W : Type 0) (O : Type 0) : Type 0 where
  pub create : O → W → Reply × W
  pub patch : O → W → Reply × W
  pub delete : (name : Text) → W → Reply × W
  pub wait : (full_name : Text) → W → Bool × W

pub record Api (W : Type 0) : Type 0 where
  pub endpoints : Kind W Endpoints
  pub services : Kind W Service
  pub ingresses : Kind W Ingress

-- What a coroutine leaves: an exception or none, and the cluster.
abbrev pub Outcome : Type 0 → Type 0
Outcome W = Option Error × W

-- One `await` after another.
unfoldable pub proceed : {W : Type 0} → Outcome W → (W → Outcome W) → Outcome W
proceed (none, w) f = f w
proceed (some e, w) f = (some e, w)

unfoldable pub raised : {W : Type 0} → Reply × W → Outcome W
raised (done, w) = (none, w)
raised (api_error status, w) = (some (api_exception status), w)
raised (failed, w) = (some other_exception, w)

-- `except ApiException` of `ensure_object`
unfoldable pub ensured : {W : Type 0} → (patch : W → Reply × W) → Reply × W → Outcome W
ensured patch (done, w) = (none, w)
ensured patch (api_error status, w) =
    if status == 409 then raised (patch w) else (some (api_exception status), w)
ensured patch (failed, w) = (some other_exception, w)

unfoldable pub ensure_object : {W O : Type 0} → Kind W O → O → W → Outcome W
ensure_object k body w = ensured (k.patch body) (k.create body w)

-- `_delete_if_exists`
unfoldable pub delete_if_exists : {W : Type 0} → Reply × W → Outcome W
delete_if_exists (done, w) = (none, w)
delete_if_exists (api_error status, w) =
    if status == 404 then (none, w) else (some (api_exception status), w)
delete_if_exists (failed, w) = (some other_exception, w)

unfoldable pub waited : {W : Type 0} → Bool × W → Outcome W
waited (true, w) = (none, w)
waited (false, w) = (some timeout_error, w)

-- An object is made and waited for, or removed if there is to be none.
unfoldable pub settle :
    {W O : Type 0} → Kind W O → (full_name name : Text) → Option O → W → Outcome W
settle k full_name name (some body) w =
    proceed (ensure_object k body w) (λ w. waited (k.wait full_name w))
settle k full_name name none w = delete_if_exists (k.delete name w)

abbrev pub full_name_of : (namespace name : Text) → Text
full_name_of namespace name = namespace ++ (codes "/" ++ name)

-- The calls of `add_route`, with the objects that `make_ingress` gives.
unfoldable pub apply_objects :
    {W : Type 0} → Api W → (namespace name : Text) → Objects → W → Outcome W
apply_objects k namespace name o w =
    proceed (settle k.endpoints (full_name_of namespace name) name o.endpoint w) (λ w.
      proceed (settle k.services (full_name_of namespace name) name o.service w)
        (λ w. settle k.ingresses (full_name_of namespace name) name (some o.ingress) w))

-- `asyncio.gather`: the next one runs whatever becomes of the first, whose exception comes first.
unfoldable pub gathered : {W : Type 0} → Outcome W → Outcome W → Outcome W
gathered (none, v) r = r
gathered (some e, v) (f, w) = (some e, w)

unfoldable pub delete_objects : {W : Type 0} → Api W → (name : Text) → W → Outcome W
delete_objects k name w =
    let a = delete_if_exists (Kind.delete k.endpoints name w) in
    let b = delete_if_exists (Kind.delete k.services name (a.1)) in
    let c = delete_if_exists (Kind.delete k.ingresses name (b.1)) in gathered a (gathered b c)

-- A route as `get_all_routes` gives it.
pub record Route : Type 0 where
  pub routespec : Text
  pub target : Text
  pub data_ : Value

-- The annotations of one ingress; `json_loads` is that of the standard library, and a missing
-- annotation is a KeyError.
unfoldable pub route_of : (json_loads : Text → Option Value) → Ingress → Option Route
route_of json_loads i = do
  routespec ← get (codes "hub.jupyter.org/proxy-routespec") (Metadata.annotations i.metadata)
  target ← get (codes "hub.jupyter.org/proxy-target") (Metadata.annotations i.metadata)
  text ← get (codes "hub.jupyter.org/proxy-data") (Metadata.annotations i.metadata)
  d ← json_loads text
  some (record { routespec = routespec; target = target; data_ = d })

-- The comprehension of `get_all_routes`, with the routes so far.
unfoldable pub collect_routes :
    (json_loads : Text → Option Value) → List Ingress → Dict Route → Option (Dict Route)
collect_routes json_loads [] routes = some routes
collect_routes json_loads (i ∷ is) routes = do
  r ← route_of json_loads i
  collect_routes json_loads is (insert r.routespec r routes)

-- `get_all_routes`, with what the ingress reflector has after its first load.
unfoldable pub get_all_routes :
    (json_loads : Text → Option Value) → Dict Ingress → Option (Dict Route)
get_all_routes json_loads ingresses = collect_routes json_loads (values ingresses) []
