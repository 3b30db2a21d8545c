-- ===== src/Spawner/Url.antt =====
-- `_get_pod_url`, and the part of `poll` that follows a pod whose url has changed.
use kubespawner.Prelude.{
  ℕ, Bool, true, false, ◌&&◌, Option, none, some, [], ◌∷◌, ◌++◌, ◌==◌, if◌then◌else◌, map,
}
use kubespawner.Text.{Text, codes, text_eq, to_lower_ascii, rstrip}
use kubespawner.Spawner.Defs.{
  Result, ok, err, Field, missing, null, value, Pod, Spawner, Config, Url, Exec, pure, raise,
  modify, value_error, key_error, gets, ◌>>=◌,
}

-- `ipaddress.ip_address(hostname)`: whether it is of version 6; `none` raises `ValueError`.
abbrev pub IpAddress : Type 0
IpAddress = Text → Option Bool

abbrev bracketed : Text → Option Bool → Result Text
bracketed ip none = err value_error
bracketed ip (some v6) = ok (if v6 then codes "[" ++ (ip ++ codes "]") else ip)

abbrev ip_hostname : IpAddress → Field Text → Result Text
ip_hostname is_v6 missing = err key_error
ip_hostname is_v6 null = err value_error
ip_hostname is_v6 (value ip) = bracketed ip (is_v6 ip)

abbrev connect_url : Config → (proto : Text) → Result Text → Result Url
connect_url c proto (err e) = err e
connect_url c proto (ok hostname) = ok (record {
  scheme = proto;
  hostname = elim c.connect_hostname [ none ↦ hostname | some h ↦ h ];
  port = some c.port;
})

-- `_get_pod_url` without a `get_pod_url` hook.
unfoldable pub get_pod_url : Config → IpAddress → Spawner → Pod → Result Url
get_pod_url c is_v6 p pod =
    if c.internal_ssl
    then connect_url c (codes "https") (ok p.dns_name)
    else if c.services_enabled
    then connect_url c (codes "http") (ok p.dns_name)
    else connect_url c (codes "http") (ip_hostname is_v6 pod.pod_ip)

-- `.hostname` of a parsed url: in lower case, and without the brackets of an IPv6 address.
unfoldable pub url_hostname : Text → Text
url_hostname [] = []
url_hostname (c ∷ h) = map to_lower_ascii (if c == b'[' then rstrip b']' h else c ∷ h)

-- `netloc=f"{url.hostname}:port"`
abbrev with_port : ℕ → Url → Url
with_port port url = record url { hostname = url_hostname url.hostname; port = some port }

-- `_normalize_url`; `urlparse` gives the scheme in lower case.
unfoldable pub normalize_url : Url → Url
normalize_url url = elim url.port [
  | some port ↦ url
  | none ↦
      if text_eq url.scheme (codes "https")
      then with_port 443 url
      else if text_eq url.scheme (codes "http")
      then with_port 80 url
      else url
]

abbrev port_eq : Option ℕ → Option ℕ → Bool
port_eq none none = true
port_eq (some a) (some b) = a == b
port_eq none (some b) = false
port_eq (some a) none = false

-- `netloc` of two urls: only the host and the port are compared.
unfoldable pub same_netloc : Url → Url → Bool
same_netloc a b = text_eq a.hostname b.hostname && port_eq a.port b.port

-- `self.server.ip` and `self.server.port` are set from the pod's url.
abbrev pub moved_server : Url → Url → Url
moved_server server url = record server { hostname = url_hostname url.hostname; port = url.port }

abbrev compared : Url → Url → Spawner → Spawner
compared server url p =
    if same_netloc (normalize_url server) (normalize_url url)
    then p
    else record p { server = some (moved_server server (normalize_url url)) }

unfoldable pub update_server : {W : Type 0} → Option Url → Result Url → Exec W (Unit {0})
update_server none url = pure tt
update_server (some server) (err e) = raise e
update_server (some server) (ok url) = modify (compared server url)

-- What `poll` does with a pod that is ready, if there is a server to compare with.
unfoldable pub update_url : {W : Type 0} → (Spawner → Pod → Result Url) → Pod → Exec W (Unit {0})
unfolding update_server same_netloc normalize_url
update_url pod_url pod = do p ← gets (λ s. s.spawner); update_server p.server (pod_url p pod)
