-- ===== src/Objects/MakePod.antt =====
-- `make_pod`, from its parts.
use kubespawner.Prelude.{
  ℕ, Bool, Option, none, some, List, [], ◌∷◌, ◌++◌, if◌then◌else◌, ◌>>=◌, is_empty,
}
use kubespawner.Text.{Text, codes}
use kubespawner.Json.{
  Value, null, boolean, number, text, list, object, Items, nil, cons, Fields, end, field, put_field,
}
use kubespawner.Dict.{Dict}
use kubespawner.Utils.Model.{Given, get_k8s_model, update_k8s_model}
use kubespawner.Objects.Env.{EnvVar, make_env}
use kubespawner.Objects.Security.{pod_security_context, container_security_context}
use kubespawner.Objects.Manifests.{metadata_of}
use kubespawner.Objects.Pod.{
  Client, models, SecretRef, secret_references, certificate_volume, certificate_mount,
  certificate_env, resource_list, automount, or_null_text, node_affinity, pod_affinity, affinity,
}

-- The arguments of `make_pod`, with the empty value for what is not given.
pub record PodOptions : Type 0 where
  pub name : Text
  pub cmd : Value
  pub port : ℕ
  pub image : Text
  pub image_pull_policy : Value
  pub image_pull_secrets : Option (List SecretRef)
  pub node_selector : Fields
  pub run_as_uid : Option ℕ
  pub run_as_gid : Option ℕ
  pub fs_gid : Option ℕ
  pub supplemental_gids : List ℕ
  pub privileged : Bool
  pub allow_privilege_escalation : Option Bool
  pub container_context : Fields
  pub pod_context : Fields
  pub env : Dict Value
  pub working_dir : Value
  pub volumes : List Given
  pub volume_mounts : List Given
  pub labels : Fields
  pub annotations : Fields
  pub cpu_limit : Option Value
  pub cpu_guarantee : Option Value
  pub mem_limit : Option Value
  pub mem_guarantee : Option Value
  pub extra_resource_limits : Fields
  pub extra_resource_guarantees : Fields
  pub lifecycle_hooks : Option Given
  pub init_containers : List Given
  pub service_account : Option Text
  pub automount_service_account_token : Option Bool
  pub extra_container_config : Option Given
  pub extra_pod_config : Option Given
  pub extra_containers : List Given
  pub scheduler_name : Text
  pub tolerations : List Given
  pub node_affinity_preferred : List Given
  pub node_affinity_required : List Given
  pub pod_affinity_preferred : List Given
  pub pod_affinity_required : List Given
  pub pod_anti_affinity_preferred : List Given
  pub pod_anti_affinity_required : List Given
  pub priority_class_name : Text
  pub ssl_secret_name : Text
  pub ssl_secret_mount_path : Text

-- `if ssl_secret_name and ssl_secret_mount_path:`
unfoldable pub with_certificates : PodOptions → PodOptions
with_certificates o =
    if is_empty o.ssl_secret_name
    then o
    else if is_empty o.ssl_secret_mount_path
    then o
    else record o {
      volumes = o.volumes ++ certificate_volume o.ssl_secret_name ∷ [];
      env = certificate_env o.ssl_secret_mount_path o.env;
      volume_mounts = o.volume_mounts ++ certificate_mount o.ssl_secret_mount_path ∷ [];
    }

unfoldable pub env_items : List EnvVar → Items
env_items [] = nil
env_items (e ∷ es) =
    cons
      (object (
        field (codes "name") (text e.name)
          (field (codes "value") e.value (field (codes "value_from") e.value_from end))))
      (env_items es)

-- What is truthy is set.
unfoldable pub put_list : Text → Value → Fields → Fields
put_list k (list nil) d = d
put_list k (list (cons v xs)) d = put_field k (list (cons v xs)) d
put_list k null d = d
put_list k (boolean b) d = d
put_list k (number n) d = d
put_list k (text t) d = d
put_list k (object e) d = d

unfoldable pub put_named : Text → Text → Fields → Fields
put_named k [] d = d
put_named k (c ∷ t) d = put_field k (text (c ∷ t)) d

unfoldable pub put_object : Text → Fields → Fields → Fields
put_object k end d = d
put_object k (field j v e) d = put_field k (object (field j v e)) d

unfoldable pub put_present : Text → Value → Fields → Fields
put_present k null d = d
put_present k (object e) d = put_field k (object e) d
put_present k (list xs) d = put_field k (list xs) d
put_present k (boolean b) d = put_field k (boolean b) d
put_present k (number n) d = put_field k (number n) d
put_present k (text t) d = put_field k (text t) d

-- The model of optional hooks.
unfoldable pub lifecycle_of : Client → Option Given → Option Value
lifecycle_of c none = some null
lifecycle_of c (some g) = do
  m ← get_k8s_model (c.attribute_map (codes "V1Lifecycle")) g
  some (object m)

-- `update_k8s_model`, if there are changes.
unfoldable pub with_changes : Client → (model_type : Text) → Fields → Option Given → Option Fields
with_changes c model_type target none = some target
with_changes c model_type target (some changes) =
    update_k8s_model c.to_dict (c.attribute_map model_type) target changes

-- `notebook_container`
unfoldable pub notebook_container : Client → PodOptions → Option Fields
notebook_container c o = do
  lifecycle ← lifecycle_of c o.lifecycle_hooks
  csc ←
      container_security_context o.run_as_uid o.run_as_gid o.privileged o.allow_privilege_escalation
        o.container_context
  env ← make_env (c.attribute_map (codes "V1EnvVar")) o.env
  mounts ← models c (codes "V1VolumeMount") o.volume_mounts
  with_changes c (codes "V1Container")
      (field (codes "name") (text (codes "notebook")) (
        field (codes "image") (text o.image) (
          field (codes "working_dir") o.working_dir (
            field (codes "ports")
              (list (
                cons
                  (object (
                    field (codes "name") (text (codes "notebook-port"))
                      (field (codes "container_port") (number o.port) end)))
                  nil))
              (field (codes "env") (list (env_items env)) (
                field (codes "args") o.cmd (
                  field (codes "image_pull_policy") o.image_pull_policy (
                    field (codes "lifecycle") lifecycle (
                      field (codes "resources")
                        (object (
                          field (codes "requests")
                            (object (
                              resource_list o.cpu_guarantee o.mem_guarantee
                                o.extra_resource_guarantees))
                            (field (codes "limits")
                              (object
                                (resource_list o.cpu_limit o.mem_limit o.extra_resource_limits))
                              end)))
                        (field (codes "volume_mounts") (list mounts)
                          (field (codes "security_context") csc end)))))))))))
      o.extra_container_config

-- `image_pull_secrets`, None if they are not given.
unfoldable pub pull_secrets : Client → Option (List SecretRef) → Option Value
pull_secrets c none = some null
pull_secrets c (some refs) = do ss ← secret_references c refs; some (list ss)

unfoldable pub pod_spec : Client → PodOptions → Option Fields
pod_spec c o = do
  secrets ← pull_secrets c o.image_pull_secrets
  psc ← pod_security_context o.fs_gid o.supplemental_gids o.pod_context
  notebook ← notebook_container c o
  extra ← models c (codes "V1Container") o.extra_containers
  tolerations ← models c (codes "V1Toleration") o.tolerations
  init ← models c (codes "V1Container") o.init_containers
  volumes ← models c (codes "V1Volume") o.volumes
  node ← node_affinity c o.node_affinity_preferred o.node_affinity_required
  pod ← pod_affinity c o.pod_affinity_preferred o.pod_affinity_required
  anti ← pod_affinity c o.pod_anti_affinity_preferred o.pod_anti_affinity_required
  with_changes c (codes "V1PodSpec")
      (put_named (codes "priority_class_name") o.priority_class_name (
        put_present (codes "affinity") (affinity node pod anti) (
          put_named (codes "scheduler_name") o.scheduler_name (
            put_list (codes "init_containers") (list init) (
              put_list (codes "tolerations") (list tolerations) (
                put_present (codes "automount_service_account_token")
                  (automount o.automount_service_account_token o.service_account)
                  (put_present (codes "service_account_name") (or_null_text o.service_account) (
                    put_object (codes "node_selector") o.node_selector (
                      put_present (codes "image_pull_secrets") secrets (
                        field (codes "containers") (list (cons (object notebook) extra)) (
                          field (codes "restart_policy") (text (codes "OnFailure")) (
                            field (codes "security_context") psc
                              (field (codes "volumes") (list volumes) end)))))))))))))
      o.extra_pod_config

-- `make_pod`; `none` is an exception.
unfoldable pub make_pod : Client → PodOptions → Option Fields
make_pod c o = do
  spec ← pod_spec c (with_certificates o)
  some (
      field (codes "kind") (text (codes "Pod")) (
        field (codes "api_version") (text (codes "v1")) (
          field (codes "metadata") (object (metadata_of o.name o.labels o.annotations))
            (field (codes "spec") (object spec) end))))
