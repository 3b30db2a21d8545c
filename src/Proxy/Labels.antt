-- ===== src/Proxy/Labels.antt =====
-- The labels of the objects of a route, by which the reflectors select.
use kubespawner.Prelude.{◌≡◌, sym, ◌∙◌, ap, Option, none, some, [], ◌∷◌, bound}
use kubespawner.Text.{Text, codes, text_eq}
use kubespawner.Json.{Value, Fields}
use kubespawner.Dict.{Dict, get, insert, update, get-insert, get-update_missing}
use kubespawner.Slugs.{Lower, Hash}
use kubespawner.Objects.Ingress.{Url, IngressOptions, proxy_labels, ingress_of}
use kubespawner.Proxy.{reflector_labels}
use kubespawner.Proxy.Kinds.{IsSelected}
use kubespawner.Proxy.Routes.{KeepsProxy}
use kubespawner.Proxy.Named.{ingress_labels}
use kubespawner.Proxy.Expand.{
  Configuration, expand_dict, expand_specifications, expand_user_properties, ingress_options,
}

component_put :
    (component : Text) (labels : Dict Text)
    → get (codes "component") (
        update labels
          ((codes "app.kubernetes.io/component", component) ∷ (codes "component", component) ∷ []))
      ≡ some component
unfolding update text_eq
component_put component labels =
    get-insert (codes "component") (codes "component") component
      (insert (codes "app.kubernetes.io/component") component labels)

component_of : Option IngressOptions → Option Text
component_of none = none
component_of (some o) = get (codes "component") o.common_labels

-- Whatever the configured labels, the labels of a route have the proxy's component label.
pub ingress_options-component :
    (lower : Lower) (sha256_hex : Hash) (escape escape_route : Text → Text) (c : Configuration)
    (routespec : Text) (data_ : Fields) (o : IngressOptions)
    → ingress_options lower sha256_hex escape escape_route c routespec data_ ≡ some o
    → get (codes "component") o.common_labels ≡ some c.component_label
unfolding ingress_options component_of get
ingress_options-component lower sha256_hex escape escape_route c routespec data_ o h =
    let expand = expand_user_properties lower sha256_hex escape escape_route c routespec data_ in
    let (common, e1, h1) = bound (expand_dict expand c.common_labels) _ o h in
    let (labels, e2, h2) = bound (expand_dict expand c.ingress_extra_labels) _ o h1 in
    let (annotations, e3, h3) = bound (expand_dict expand c.ingress_extra_annotations) _ o h2 in
    let (specs, e4, h4) = bound (expand_specifications expand c.ingress_specifications) _ o h3 in
    sym (ap component_of h4) ∙ component_put c.component_label common

-- The labels with the proxy's mark are selected.
pub proxy_labels-IsSelected :
    (component : Text) (labels : Dict Text)
    → get (codes "component") labels ≡ some component
    → IsSelected (reflector_labels component) (proxy_labels labels)
unfolding reflector_labels proxy_labels text_eq
proxy_labels-IsSelected component labels h = (
  get-insert (codes "hub.jupyter.org/proxy-route") (codes "component") (codes "true") labels ∙ h,
  (
    get-insert (codes "hub.jupyter.org/proxy-route") (codes "hub.jupyter.org/proxy-route")
        (codes "true") labels,
    tt,
  ),
)

-- So are those of the ingress, when the extra labels are none of the two.
pub ingress_of-IsSelected :
    (urlparse : Text → Url) (ip_address : Option Text → Option Text) (json_dumps : Value → Text)
    (component : Text) (o : IngressOptions)
    → KeepsProxy o
    → get (codes "component") o.common_labels ≡ some component
    → (name routespec target : Text) (d : Value) (service : Text)
    → IsSelected (reflector_labels component) (
        ingress_labels
          (ingress_of urlparse ip_address json_dumps o name routespec target d service))
unfolding reflector_labels ingress_of
ingress_of-IsSelected urlparse ip_address json_dumps component o keeps h name routespec target d
      service =
    let own = proxy_labels o.common_labels in
    let selected = proxy_labels-IsSelected component o.common_labels h in
    (
      get-update_missing (codes "component") own o.ingress_extra_labels keeps.no_component
          ∙ selected.0,
      (
        get-update_missing (codes "hub.jupyter.org/proxy-route") own o.ingress_extra_labels
              keeps.no_route
            ∙ selected.1.0,
        tt,
      ),
    )
