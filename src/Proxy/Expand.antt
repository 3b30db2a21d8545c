-- ===== src/Proxy/Expand.antt =====
-- Templates in the proxy's configuration.
use kubespawner.Prelude.{Option, none, some, List, [], ◌∷◌, ◌++◌, ◌>>=◌, if◌then◌else◌, Bool}
use kubespawner.Text.{Text, codes, text_eq, rstrip}
use kubespawner.Json.{Value, null, boolean, number, text, list, object, Fields, find_field, truth}
use kubespawner.Dict.{Dict, update}
use kubespawner.Names.{Template, format, escape_slug}
use kubespawner.Slugs.{Lower, Hash}
use kubespawner.Utils.Slug.{generate_hashed_slug}
use kubespawner.Objects.Ingress.{Specification, IngressOptions}

-- `v or ''`; what is neither a text nor false is refused later, by `escape_slug`.
unfoldable pub text_or_empty : Option Value → Option Text
text_or_empty none = some []
text_or_empty (some (text t)) = some t
text_or_empty (some null) = some []
text_or_empty (some (boolean b)) = if truth (boolean b) then none else some []
text_or_empty (some (number n)) = if truth (number n) then none else some []
text_or_empty (some (list xs)) = if truth (list xs) then none else some []
text_or_empty (some (object d)) = if truth (object d) then none else some []

-- An element of `ingress_specifications` as it is configured.
pub record SpecificationTemplate : Type 0 where
  pub host : Template
  pub tls_secret : Option Template

-- The proxy's configuration.
pub record Configuration : Type 0 where
  pub namespace : Text
  pub namespace_default : Text
  pub component_label : Text
  pub common_labels : Dict Template
  pub ingress_extra_labels : Dict Template
  pub ingress_extra_annotations : Dict Template
  pub ingress_class_name : Text
  pub ingress_specifications : List SpecificationTemplate
  pub reuse_existing_services : Bool

-- `_expand_all` on a dictionary of texts, from what it makes of a text.
unfoldable pub expand_dict : (Template → Option Text) → Dict Template → Option (Dict Text)
expand_dict expand [] = some []
expand_dict expand ((k, t) ∷ d) = do v ← expand t; rest ← expand_dict expand d; some ((k, v) ∷ rest)

unfoldable pub expand_optional : (Template → Option Text) → Option Template → Option (Option Text)
expand_optional expand none = some none
expand_optional expand (some t) = do v ← expand t; some (some v)

-- `_expand_all` on the list of specifications.
unfoldable pub expand_specifications :
    (Template → Option Text) → List SpecificationTemplate → Option (List Specification)
expand_specifications expand [] = some []
expand_specifications expand (s ∷ specs) = do
  host ← expand s.host
  secret ← expand_optional expand s.tls_secret
  rest ← expand_specifications expand specs
  some (record { host = host; tls_secret = secret } ∷ rest)

-- `escape` is `escapism.escape` with the characters of `escape_slug`, and `escape_route` with
-- lowercase letters and digits as safe ones and `-` for the escape character.
module _ (lower : Lower) (sha256_hex : Hash) (escape escape_route : Text → Text) where
  unfoldable pub safe_name_for_routespec : (routespec : Text) → Text
  safe_name_for_routespec routespec =
      generate_hashed_slug lower sha256_hex
        (codes "jupyter-" ++ (escape_route routespec ++ codes "-route")) 63 6

  -- The arguments of `template.format`.
  unfoldable pub format_names :
      Configuration → (routespec : Text) (data_ : Fields) → Option (Dict Text)
  format_names c routespec data_ = do
    servername ← text_or_empty (find_field (codes "server_name") data_)
    username ← text_or_empty (find_field (codes "user") data_)
    servicename ← text_or_empty (find_field (codes "services") data_)
    some (
        (codes "username", escape_slug lower sha256_hex escape username)
        ∷ (codes "unescaped_username", username)
        ∷ (codes "servername", escape_slug lower sha256_hex escape servername)
        ∷ (codes "unescaped_servername", servername)
        ∷ (codes "servicename", escape_slug lower sha256_hex escape servicename)
        ∷ (codes "unescaped_servicename", servicename)
        ∷ (codes "routespec", safe_name_for_routespec routespec)
        ∷ (codes "unescaped_routespec", routespec)
        ∷ (
          codes "hubnamespace",
          if text_eq c.namespace_default (codes "default")
              then codes "user"
              else c.namespace_default,
        )
        ∷ [])

  unfoldable pub expand_user_properties :
      Configuration → (routespec : Text) (data_ : Fields) → Template → Option Text
  expand_user_properties c routespec data_ template = do
    ns ← format_names c routespec data_
    rendered ← format template ns
    some (rstrip b'-' rendered)

  -- What `add_route` passes to `make_ingress`.
  unfoldable pub ingress_options :
      Configuration → (routespec : Text) (data_ : Fields) → Option IngressOptions
  ingress_options c routespec data_ = do
    common ← expand_dict (expand_user_properties c routespec data_) c.common_labels
    labels ← expand_dict (expand_user_properties c routespec data_) c.ingress_extra_labels
    annotations ← expand_dict (expand_user_properties c routespec data_) c.ingress_extra_annotations
    specs ←
        expand_specifications (expand_user_properties c routespec data_) c.ingress_specifications
    some (record {
      namespace = c.namespace;
      common_labels = update common (
          (codes "app.kubernetes.io/component", c.component_label)
          ∷ (codes "component", c.component_label)
          ∷ []);
      ingress_extra_labels = labels;
      ingress_extra_annotations = annotations;
      ingress_class_name = some c.ingress_class_name;
      ingress_specifications = specs;
      reuse_existing_services = c.reuse_existing_services;
    })
