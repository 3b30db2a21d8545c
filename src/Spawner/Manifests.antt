-- ===== src/Spawner/Manifests.antt =====
-- The manifests of the claim, the secret and the service.
use kubespawner.Prelude.{Bool, if◌then◌else◌, [], ◌∷◌, List, ℕ, Option, some, ◌>>=◌}
use kubespawner.Text.{Text, codes}
use kubespawner.Json.{Value, text, object, Items, nil, cons, Fields, end, field, update_fields}
use kubespawner.Dict.{Dict}
use kubespawner.Objects.Pod.{Client}
use kubespawner.Objects.MakePod.{PodOptions, make_pod}
use kubespawner.Slugs.{Lower, Hash}
use kubespawner.Objects.Manifests.{make_pvc, make_secret, make_service}
use kubespawner.Spawner.Labels.{
  Described, expand_fields, build_common_labels, build_pod_labels, build_common_annotations,
  get_env,
}

-- What the manifests read of the spawner, beside its description.
pub record Configured : Type 0 where
  pub pod_name : Text
  pub pvc_name : Text
  pub secret_name : Text
  pub port : ℕ
  pub extra_labels : Fields
  pub extra_annotations : Fields
  pub storage_extra_labels : Fields
  pub storage_extra_annotations : Fields
  pub storage_selector : Fields
  pub storage_class : Option Text
  pub storage_access_modes : Items
  pub storage_capacity : Text
  pub keyfile : Text
  pub certfile : Text
  pub cafile : Text
  pub hub_ca : Text

module _ (lower : Lower) (sha256_hex : Hash) (expand : Text → Option Text) where
  -- `get_secret_manifest`; `read` reads a file and `b64` is `base64.b64encode`.
  unfoldable pub get_secret_manifest :
      (read : Text → Option Text) (b64 : List ℕ → Text)
      → Described
      → Configured
      → (owner_reference : Fields) → Option Fields
  get_secret_manifest read b64 s c owner_reference = do
    extra ← expand_fields expand c.extra_labels
    labels ← build_common_labels lower sha256_hex s extra
    extra_annotations ← expand_fields expand c.extra_annotations
    make_secret read b64 c.secret_name c.keyfile c.certfile c.cafile c.hub_ca
        (cons (object owner_reference) nil) labels (build_common_annotations s extra_annotations)

  -- `get_service_manifest`
  unfoldable pub get_service_manifest :
      Described → Configured → (owner_reference : Fields) → Option Fields
  get_service_manifest s c owner_reference = do
    extra ← expand_fields expand c.extra_labels
    labels ← build_common_labels lower sha256_hex s extra
    extra_annotations ← expand_fields expand c.extra_annotations
    selector ← build_pod_labels lower sha256_hex s extra
    some (
        make_service c.pod_name c.port selector (cons (object owner_reference) nil) labels
          (build_common_annotations s extra_annotations))

  -- `get_pvc_manifest`
  unfoldable pub get_pvc_manifest : Described → Configured → Option Fields
  get_pvc_manifest s c = do
    extra ← expand_fields expand c.storage_extra_labels
    labels ← build_common_labels lower sha256_hex s extra
    extra_annotations ← expand_fields expand c.storage_extra_annotations
    selector ← expand_fields expand c.storage_selector
    some (
        make_pvc c.pvc_name c.storage_class c.storage_access_modes selector c.storage_capacity
          (update_fields labels (
            field (codes "app.kubernetes.io/component") (text s.component_label)
              (field (codes "component") (text (codes "singleuser-storage")) end)))
          (build_common_annotations s extra_annotations))

abbrev entries : Fields → Dict Value
entries end = []
entries (field k v d) = (k, v) ∷ entries d

module _ (lower : Lower) (sha256_hex : Hash) (expand : Text → Option Text) where
  -- `get_pod_manifest`: the labels, the annotations, the environment and the certificates; `o` has
  -- the other arguments of `make_pod`, called and expanded.
  unfoldable pub get_pod_manifest :
      Client
      → Described
      → Configured
      → (internal_ssl : Bool) (parent_env environment : Fields) → PodOptions
      → Option Fields
  get_pod_manifest client s c internal_ssl parent_env environment o = do
    extra ← expand_fields expand c.extra_labels
    labels ← build_pod_labels lower sha256_hex s extra
    extra_annotations ← expand_fields expand c.extra_annotations
    env ← get_env expand parent_env o.image environment
    make_pod client (record o {
      name = c.pod_name;
      port = c.port;
      labels = labels;
      annotations = build_common_annotations s extra_annotations;
      env = entries env;
      ssl_secret_name = if internal_ssl then c.secret_name else [];
    })
