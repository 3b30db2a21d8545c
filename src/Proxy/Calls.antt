-- ===== src/Proxy/Calls.antt =====
-- `add_route` and `delete_route`.
use kubespawner.Prelude.{Option, none, some, ◌>>=◌}
use kubespawner.Text.{Text}
use kubespawner.Json.{Value, Fields, object}
use kubespawner.Slugs.{Lower, Hash}
use kubespawner.Objects.Ingress.{Url, Objects, make_ingress}
use kubespawner.Proxy.{Api, Outcome, invalid_route, apply_objects, delete_objects}
use kubespawner.Proxy.Expand.{Configuration, safe_name_for_routespec, ingress_options}

-- The calls, unless the route or the configuration is refused before them.
unfoldable pub or_invalid :
    {W : Type 0} → (Objects → W → Outcome W) → Option Objects → W → Outcome W
or_invalid calls none w = (some invalid_route, w)
or_invalid calls (some o) w = calls o w

module _ (lower : Lower) (sha256_hex : Hash) (escape escape_route : Text → Text) where
  -- `self._safe_name_for_routespec(routespec).lower()`
  unfoldable pub route_name : (routespec : Text) → Text
  route_name routespec =
      lower (safe_name_for_routespec lower sha256_hex escape escape_route routespec)

  -- The objects of a route.
  unfoldable pub route_objects :
      (urlparse : Text → Url) (ip_address : Option Text → Option Text) (json_dumps : Value → Text)
      → Configuration
      → (routespec target : Text) (data_ : Fields) → Option Objects
  route_objects urlparse ip_address json_dumps c routespec target data_ = do
    o ← ingress_options lower sha256_hex escape escape_route c routespec data_
    make_ingress urlparse ip_address json_dumps o (route_name routespec) routespec target
        (object data_)

  unfoldable pub add_route :
      {W : Type 0}
      → Api W
      → (urlparse : Text → Url) (ip_address : Option Text → Option Text) (json_dumps : Value → Text)
      → Configuration
      → (routespec target : Text) (data_ : Fields) → W
      → Outcome W
  add_route k urlparse ip_address json_dumps c routespec target data_ w =
      or_invalid (apply_objects k c.namespace (route_name routespec))
        (route_objects urlparse ip_address json_dumps c routespec target data_) w

  unfoldable pub delete_route : {W : Type 0} → Api W → (routespec : Text) → W → Outcome W
  delete_route k routespec w = delete_objects k (route_name routespec) w
