-- ===== src/Proxy/Routes.antt =====
-- `add_route` stores what `get_all_routes` reads.
use kubespawner.Prelude.{◌≡◌, ◌∙◌, refl, Option, none, some}
use kubespawner.Text.{Text, codes, text_eq}
use kubespawner.Json.{Value}
use kubespawner.Dict.{Dict, get, update, get-update_missing}
use kubespawner.Objects.Ingress.{
  Url, Metadata, Ingress, IngressOptions, proxy_annotations, ingress_of,
}
use kubespawner.Proxy.{Route, route_of}
use kubespawner.Proxy.Kinds.{stored}

-- The configured annotations, and the extra labels of the ingresses, are none of the proxy's.
pub record KeepsProxy (o : IngressOptions) : Type 0 where
  pub no_data : get (codes "hub.jupyter.org/proxy-data") o.ingress_extra_annotations ≡ none
  pub no_routespec :
      get (codes "hub.jupyter.org/proxy-routespec") o.ingress_extra_annotations ≡ none
  pub no_component : get (codes "component") o.ingress_extra_labels ≡ none
  pub no_route : get (codes "hub.jupyter.org/proxy-route") o.ingress_extra_labels ≡ none
  pub no_target : get (codes "hub.jupyter.org/proxy-target") o.ingress_extra_annotations ≡ none

-- The route that an ingress stands for, as `route_of` reads it.
abbrev pub Reads : (Text → Option Value) → Ingress → Route → Type 0
Reads json_loads i r = route_of json_loads i ≡ some r

route_of_lem :
    (json_loads : Text → Option Value) (i : Ingress) (routespec target text : Text) (d : Value)
    → get (codes "hub.jupyter.org/proxy-routespec") (Metadata.annotations i.metadata)
      ≡ some routespec
    → get (codes "hub.jupyter.org/proxy-target") (Metadata.annotations i.metadata) ≡ some target
    → get (codes "hub.jupyter.org/proxy-data") (Metadata.annotations i.metadata) ≡ some text
    → json_loads text ≡ some d
    → Reads json_loads i (record { routespec = routespec; target = target; data_ = d })
unfolding route_of
route_of_lem json_loads i routespec target text d a b c e = rw (a, b, c, e) refl

-- The annotations of a patched ingress are the new ones, and the old ones that are not among them.
abbrev pub IsMerge : (Ingress → Ingress → Ingress) → Type 0
IsMerge merge =
    (old new : Ingress) (k v : Text)
    → get k (Metadata.annotations new.metadata) ≡ some v
    → get k (Metadata.annotations (Ingress.metadata (merge old new))) ≡ some v

stored-get :
    (merge : Ingress → Ingress → Ingress)
    → IsMerge merge
    → (old : Option Ingress) (new : Ingress) (k v : Text)
    → get k (Metadata.annotations new.metadata) ≡ some v
    → get k (Metadata.annotations (Ingress.metadata (stored merge old new))) ≡ some v
stored-get merge merges none new k v h = h
stored-get merge merges (some old) new k v h = merges old new k v h

module _ (urlparse : Text → Url) (ip_address : Option Text → Option Text)
    (json_dumps : Value → Text) (json_loads : Text → Option Value)
    (merge : Ingress → Ingress → Ingress) (merges : IsMerge merge) where
  own_annotation :
      (routespec target : Text) (d : Value) (extra : Dict Text) (k v : Text)
      → get k (proxy_annotations json_dumps routespec target d) ≡ some v
      → get k extra ≡ none
      → get k (update (proxy_annotations json_dumps routespec target d) extra) ≡ some v
  own_annotation routespec target d extra k v h missing =
      get-update_missing k (proxy_annotations json_dumps routespec target d) extra missing ∙ h

  -- The annotations of an ingress are read back, whatever else the configuration adds, and also
  -- where the ingress is merged into an older one.
  pub route_of-stored :
      (o : IngressOptions)
      → KeepsProxy o
      → (name routespec target : Text) (d : Value) (service : Text) (old : Option Ingress)
      → json_loads (json_dumps d) ≡ some d
      → Reads json_loads
          (stored merge old
            (ingress_of urlparse ip_address json_dumps o name routespec target d service))
          (record { routespec = routespec; target = target; data_ = d })
  unfolding ingress_of proxy_annotations get text_eq
  route_of-stored o keeps name routespec target d service old loads =
      let i = ingress_of urlparse ip_address json_dumps o name routespec target d service in
      let extra = o.ingress_extra_annotations in
      route_of_lem json_loads (stored merge old i) routespec target (json_dumps d) d
        (stored-get merge merges old i (codes "hub.jupyter.org/proxy-routespec") routespec (
          own_annotation routespec target d extra (codes "hub.jupyter.org/proxy-routespec")
            routespec refl keeps.no_routespec))
        (stored-get merge merges old i (codes "hub.jupyter.org/proxy-target") target (
          own_annotation routespec target d extra (codes "hub.jupyter.org/proxy-target") target refl
            keeps.no_target))
        (stored-get merge merges old i (codes "hub.jupyter.org/proxy-data") (json_dumps d) (
          own_annotation routespec target d extra (codes "hub.jupyter.org/proxy-data")
            (json_dumps d) refl keeps.no_data))
        loads
