-- ===== src/Objects/Tests.antt =====
-- Runs of objects.py, and instances of the theorems.
use kubespawner.Prelude.{◌≡◌, refl, true, false, none, some, List, [], ◌∷◌, ◌++◌, map, all}
use kubespawner.Text.{Text, codes, text_eq, contains, starts_with}
use kubespawner.Json.{
  Value, boolean, update_fields, null, number, text, object, end, field, put_field,
}
use kubespawner.Dict.{Dict, insert, values}
use kubespawner.Spawner.Events.{text_lt}
use kubespawner.Objects.Env.{
  EnvVar, Entry, value_deps, get_env_var_deps, references, captured, closed, until_close, without,
  member, is_subset, normalized, collect_env, make_env, sort_env, after_step, extracted, remaining,
  sorted_entries, place_entry,
}
use kubespawner.Objects.EnvLoop.{Arranged, make_env-Arranged}
use kubespawner.Objects.Ingress.{Specification, rule_hosts, reused, service_dns_match}
use kubespawner.Objects.Hosts.{IsComplete, rule_hosts-IsComplete}
use kubespawner.Objects.Reuse.{reused_any_domain}
use kubespawner.Objects.Security.{
  pod_security_context, container_security_context, over_dedicated, has_underscore,
  dedicated_container, dedicated_pod, put_optional, optional_number, optional_boolean, if_true,
  or_null,
}

abbrev no_attributes : Dict Text
no_attributes = []

abbrev variable : Text → Text → EnvVar
variable name value = record { name = name; value = text value; value_from = null }

-- `A` refers to `B`, which stands on its own.
abbrev two_variables : Dict Value
two_variables = (codes "A", text (codes "x$(B)")) ∷ (codes "B", text (codes "y")) ∷ []

abbrev two_entries : Dict Entry
two_entries =
    (
      codes "A",
      record { deps = codes "B" ∷ []; key = codes "A"; env = variable (codes "A") (codes "x$(B)") },
    )
    ∷ (codes "B", record { deps = []; key = codes "B"; env = variable (codes "B") (codes "y") })
    ∷ []

two_collected : collect_env no_attributes two_variables [] ≡ some two_entries
unfolding collect_env normalized get_env_var_deps value_deps references captured closed until_close
    without text_eq insert
two_collected = refl

two_sorted :
    make_env no_attributes two_variables
    ≡ some (variable (codes "B") (codes "y") ∷ variable (codes "A") (codes "x$(B)") ∷ [])
unfolding make_env collect_env normalized get_env_var_deps value_deps references captured closed
    until_close without text_eq insert sort_env after_step extracted remaining sorted_entries
    place_entry is_subset member
two_sorted = refl

make_env-Arranged_example :
    (a : Arranged [] (values two_entries)) × (make_env no_attributes two_variables
      ≡ some (a.ordered ++ a.circular))
make_env-Arranged_example = make_env-Arranged no_attributes two_variables two_entries two_collected

-- `B` refers to a variable of the cluster, which is not in the configuration: `A`, which refers to
-- `B`, stands in front of it.
abbrev outside_variables : Dict Value
outside_variables = (codes "A", text (codes "x$(B)")) ∷ (codes "B", text (codes "$(HOST)")) ∷ []

outside_sorted :
    make_env no_attributes outside_variables
    ≡ some (variable (codes "A") (codes "x$(B)") ∷ variable (codes "B") (codes "$(HOST)") ∷ [])
unfolding make_env collect_env normalized get_env_var_deps value_deps references captured closed
    until_close without text_eq text_lt insert sort_env after_step extracted remaining
    sorted_entries place_entry is_subset member
outside_sorted = refl

abbrev specifications : List Specification
specifications =
    record { host = codes "*.example.com"; tls_secret = none }
    ∷ record { host = codes "hub.test"; tls_secret = none }
    ∷ []

rule_hosts-IsComplete_example :
    (hosts : List Text) × (rule_hosts (some (codes "user.example.com")) specifications
      ≡ map some hosts)
    × IsComplete (codes "user.example.com") specifications hosts
rule_hosts-IsComplete_example = rule_hosts-IsComplete (codes "user.example.com") specifications

reused_any_domain_example :
    reused true
      (codes "prod")
      (service_dns_match (codes "api" ++ (b'.' ∷ (codes "prod" ++ (b'.' ∷ codes "example.com")))))
    ≡ some (codes "api")
reused_any_domain_example =
    reused_any_domain (codes "api") (codes "prod") (codes "example.com") (unfold all in refl)
      (unfold all in refl) (λ e. cc e) (λ e. cc e)

uid_over_option :
    container_security_context
      (some 1000)
      none
      false
      (some false)
      (field (codes "runAsUser") (number 0) end)
    ≡ some (
        object (
          field
            (codes "runAsUser")
            (number 0)
            (field (codes "allowPrivilegeEscalation") (boolean false) end)))
unfolding container_security_context over_dedicated has_underscore dedicated_container put_optional
    optional_number optional_boolean if_true or_null update_fields put_field text_eq contains
    starts_with
uid_over_option = refl

snake_case_refused :
    pod_security_context none [] (field (codes "run_as_user") (number 0) end) ≡ none
unfolding pod_security_context over_dedicated has_underscore dedicated_pod contains starts_with
snake_case_refused = refl
