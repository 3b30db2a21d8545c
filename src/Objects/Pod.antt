-- ===== src/Objects/Pod.antt =====
-- The rest of `make_pod`.
use kubespawner.Prelude.{Bool, true, false, Option, none, some, List, [], ◌∷◌, ◌++◌, ◌>>=◌}
use kubespawner.Text.{Text, codes}
use kubespawner.Json.{
  Value, null, boolean, number, text, list, object, Items, nil, cons, Fields, end, field, put_field,
  update_fields,
}
use kubespawner.Dict.{Dict, insert}
use kubespawner.Utils.Model.{Given, dictionary, get_k8s_model}

-- What the client knows of its models: the attribute maps, by the names of the types, and `to_dict`.
pub record Client : Type 0 where
  pub attribute_map : Text → Dict Text
  pub to_dict : Fields → Fields

-- A list of objects, each as a model of the type.
unfoldable pub models : Client → (model_type : Text) → List Given → Option Items
models c model_type [] = some nil
models c model_type (g ∷ gs) = do
  m ← get_k8s_model (c.attribute_map model_type) g
  rest ← models c model_type gs
  some (cons (object m) rest)

-- The list, unless it is empty: then None.
unfoldable pub models_or_null : Client → (model_type : Text) → List Given → Option Value
models_or_null c model_type [] = some null
models_or_null c model_type (g ∷ gs) = do ms ← models c model_type (g ∷ gs); some (list ms)

-- An element of `image_pull_secrets`: a name or an object.
pub data SecretRef : Type 0 where
  secret_name : Text → SecretRef
  secret_object : Given → SecretRef

unfoldable pub secret_reference : Client → SecretRef → Option Fields
secret_reference c (secret_name name) = some (field (codes "name") (text name) end)
secret_reference c (secret_object g) =
    get_k8s_model (c.attribute_map (codes "V1LocalObjectReference")) g

unfoldable pub secret_references : Client → List SecretRef → Option Items
secret_references c [] = some nil
secret_references c (s ∷ ss) = do
  m ← secret_reference c s
  rest ← secret_references c ss
  some (cons (object m) rest)

-- The certificates for `internal_ssl`: the volume, the mount, and the environment with their files.
unfoldable pub certificate_volume : (ssl_secret_name : Text) → Given
certificate_volume ssl_secret_name = dictionary (
    field (codes "name") (text (codes "jupyterhub-internal-certs")) (
      field (codes "secret")
        (object (
          field (codes "secretName") (text ssl_secret_name)
            (field (codes "defaultMode") (number 511) end)))
        end))

unfoldable pub certificate_mount : (ssl_secret_mount_path : Text) → Given
certificate_mount ssl_secret_mount_path = dictionary (
    field (codes "name") (text (codes "jupyterhub-internal-certs"))
      (field (codes "mountPath") (text ssl_secret_mount_path) end))

unfoldable pub certificate_env : (ssl_secret_mount_path : Text) → Dict Value → Dict Value
certificate_env path env =
    insert (codes "JUPYTERHUB_SSL_CLIENT_CA") (text (path ++ codes "notebooks-ca_trust.crt")) (
      insert (codes "JUPYTERHUB_SSL_CERTFILE") (text (path ++ codes "ssl.crt"))
        (insert (codes "JUPYTERHUB_SSL_KEYFILE") (text (path ++ codes "ssl.key")) env))

-- A resource's requests or limits: `cpu` and `memory` count if they are true, then the extra ones.
unfoldable pub put_true : Text → Option Value → Fields → Fields
put_true k none d = d
put_true k (some v) d = put_field k v d

unfoldable pub resource_list : (cpu mem : Option Value) (extra : Fields) → Fields
resource_list cpu mem extra =
    update_fields (put_true (codes "memory") mem (put_true (codes "cpu") cpu end)) extra

-- `automount_service_account_token`: without an account, the token is not mounted unless asked for.
unfoldable pub automount :
    (automount_service_account_token : Option Bool) (service_account : Option Text) → Value
automount none none = boolean false
automount none (some account) = null
automount (some b) account = boolean b

unfoldable pub or_null_text : Option Text → Value
or_null_text none = null
or_null_text (some t) = text t

unfoldable pub is_given : List Given → Bool
is_given [] = false
is_given (g ∷ gs) = true

unfoldable pub affinity_fields : (preferred required : Value) → Fields
affinity_fields preferred required =
    field (codes "preferred_during_scheduling_ignored_during_execution") preferred
      (field (codes "required_during_scheduling_ignored_during_execution") required end)

-- `node_affinity`, None without preferred and required terms.
unfoldable pub node_affinity : Client → (preferred required : List Given) → Option Value
node_affinity c [] [] = some null
node_affinity c (p ∷ preferred) [] = do
  ps ← models c (codes "V1PreferredSchedulingTerm") (p ∷ preferred)
  some (object (affinity_fields (list ps) null))
node_affinity c preferred (r ∷ required) = do
  rs ← models c (codes "V1NodeSelectorTerm") (r ∷ required)
  ps ← models_or_null c (codes "V1PreferredSchedulingTerm") preferred
  some (object (affinity_fields ps (object (field (codes "node_selector_terms") (list rs) end))))

-- `pod_affinity` and `pod_anti_affinity`, None without terms.
unfoldable pub pod_affinity : Client → (preferred required : List Given) → Option Value
pod_affinity c [] [] = some null
pod_affinity c (p ∷ preferred) required = do
  ps ← models c (codes "V1WeightedPodAffinityTerm") (p ∷ preferred)
  rs ← models_or_null c (codes "V1PodAffinityTerm") required
  some (object (affinity_fields (list ps) rs))
pod_affinity c [] (r ∷ required) = do
  rs ← models c (codes "V1PodAffinityTerm") (r ∷ required)
  some (object (affinity_fields null (list rs)))

-- `affinity`, None if none of the three is given.
unfoldable pub affinity : (node pod anti : Value) → Value
affinity null null null = null
affinity node pod anti = object (
    field (codes "node_affinity") node
      (field (codes "pod_affinity") pod (field (codes "pod_anti_affinity") anti end)))
