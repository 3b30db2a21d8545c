-- ===== src/Lib.antt =====
-- KubeSpawner: the JupyterHub spawner that runs each user's server in a Kubernetes pod.
--
-- Text (Text.antt and its children) is Python's `str` as a list of code points, with UTF-8; Dict
-- (Dict.antt) is `dict` with text keys, in insertion order.
--
-- Slugs (Slugs.antt) is kubespawner/slugs.py: object names and label values from the names of users
-- and servers. `str.lower` and the SHA-256 digest are arguments (`lower`, `sha256_hex`); digests
-- are taken to be 64 lowercase hexadecimal digits (IsHexDigest) where a theorem says so.
--
-- Names (Names.antt) is `_expand_user_properties` of kubespawner/spawner.py, which fills templates
-- with those slugs, and `escape_slug`, whose call of the package escapism is the argument `escape`.
--
-- Reflector (Reflector.antt) is the class ResourceReflector of kubespawner/reflector.py: the local
-- copy of the pods or events that the spawner reads. One round of the loop of `_watch_and_update`
-- gets what the API server and the clock do as a value of Round: the reply to the list call, the
-- events of the stream, the exception that ends it, and when `stop` is called. A run is a list of
-- rounds, so that the loop needs no fuel. Delays are in tenths of a second.
--
-- Spawner is the class KubeSpawner of kubespawner/spawner.py. Its actions (Exec in
-- Spawner/Defs.antt) take the object and the world outside the hub to a result or an exception and
-- the object and the world after it; what was changed before a raise stays changed. The world is a
-- parameter with one operation for each call of the API (Cluster), and what the reflectors show is
-- a function of it. Spawner/Requests.antt has the handlers that are tried again until they give
-- True, Spawner/Start.antt `_start`, Spawner/Stop.antt `stop`, `poll` and `delete_forever`,
-- Spawner/Labels.antt the labels, the annotations and the environment, Spawner/Manifests.antt the
-- manifests with them, Spawner/Url.antt the pod's url and its comparison with the server's,
-- Spawner/State.antt what is saved and loaded, and Spawner/Events.antt the pod's own events, and
-- Spawner/Progress.antt their reports by `progress`, where floats are an argument.
-- `exponential_backoff` of JupyterHub is the argument `backoff`: IsBackoff says that it calls its
-- pass function until this gives True or raises, that the world outside may have become any other
-- one while it sleeps between two calls, and that it may raise TimeoutError after a False. A
-- function that tries three times, on a cluster that goes on while it sleeps, shows that this can
-- hold. `_start_watching_pods`, `_start_watching_events`, `load_user_options`, `get_pod_manifest`
-- and the hooks are arguments of the actions that await them.
--
-- Profiles (Profiles.antt) is the part of KubeSpawner that turns a form and the user options into
-- overrides: `_options_from_form` (Profiles/Form.antt), `_get_initialized_profile_list`,
-- `_validate_user_options`, `_get_profile`, `_load_profile` and `load_user_options`. What overrides
-- are, and how they are rendered and applied, either of which may raise, are arguments, which the
-- theorems take as they come, and so are `slugify` and `re.match`; Profiles/Overrides.antt and
-- Utils/Format.antt model the code that is passed, but for what an update that raises leaves
-- behind. User options are texts.
--
-- Reflector/Init.antt is what ResourceReflector.__init__ sets. Shared (Shared.antt) is the table of
-- reflectors that all spawners share: `_get_reflector_key`, `_start_reflector`,
-- `_start_watching_pods`, `_start_watching_events` and `_stop_all_reflectors`. Reflectors are
-- objects of a store, numbered as they are created, and a call is cut where it awaits, so that
-- calls can interleave (Shared/Steps.antt).
--
-- Json (Json.antt) is what Python has for JSON, with natural numbers. Utils is
-- kubespawner/utils.py: `generate_hashed_slug` (Utils/Slug.antt), `recursive_update`
-- (Utils/Update.antt), `host_matching` (Utils/Hosts.antt), and the models of the Kubernetes client
-- (Utils/Model.antt): an instance is what its attributes hold, a type is its `attribute_map`, and
-- `to_dict` is an argument. `recursive_format` (Utils/Format.antt) has the parser of templates as
-- an argument.
--
-- Objects is kubespawner/objects.py. Objects/Env.antt is the environment of `make_pod`; the loop
-- that orders it has as fuel one more than there are variables, which is enough, since a step that
-- does not end it takes a variable out. Objects/Security.antt and Objects/Pod.antt are the other
-- parts of `make_pod`, Objects/MakePod.antt puts them together, and Objects/Manifests.antt has the
-- claim, the secret, the service, the namespace and the owner reference, and Objects/Ingress.antt
-- `make_ingress`; `urlparse`, `ip_address`, JSON and files are arguments.
--
-- Proxy (Proxy.antt) is KubeIngressProxy of kubespawner/proxy.py, which makes the objects of
-- `make_ingress` for a route: templates (Proxy/Expand.antt), `add_route` and `delete_route`
-- (Proxy/Calls.antt) and `get_all_routes`. The calls of the API and the waits for the reflectors
-- are arguments that change a cluster `W`. IsCluster (Proxy/Added.antt) says what a Kubernetes
-- cluster does: objects are stored by name, a second creation answers 409, a patch merges, the
-- deletion of what is missing answers 404, and a reflector shows in time what is stored and has the
-- labels by which it selects (`reflector_labels`). The three deletions of `delete_route` run one
-- after another.
--
-- Clients (Clients.antt) is `shared_client` of kubespawner/clients.py, with clients and event loops
-- numbered; a client leaves the cache when its task ends.
--
-- Not modelled: `load_config` of kubespawner/clients.py, traitlets with their defaults and
-- deprecations, logging, and cancellation of the spawner's own actions.
pub mod Prelude
pub mod Text
pub mod Dict
pub mod Json
pub mod Utils
pub mod Objects
pub mod Clients
pub mod Proxy
pub mod Reflector
pub mod Names
pub mod Spawner
pub mod Profiles
pub mod Shared
pub mod Slugs
