-- ===== src/Objects/Security.antt =====
-- The security contexts, the resources and the smaller objects of kubespawner/objects.py.
use kubespawner.Prelude.{
  ℕ, Bool, true, false, ◌||◌, Option, none, some, List, [], ◌∷◌, if◌then◌else◌,
}
use kubespawner.Text.{Text, codes, contains}
use kubespawner.Json.{
  Value, null, boolean, number, list, object, Items, nil, cons, Fields, end, field, put_field,
  update_fields,
}

-- `psc["…"] = …` if there is a value.
unfoldable pub put_optional : Text → Option Value → Fields → Fields
put_optional k none d = d
put_optional k (some v) d = put_field k v d

unfoldable pub numbers : List ℕ → Items
numbers [] = nil
numbers (n ∷ ns) = cons (number n) (numbers ns)

-- `supplemental_gids`, which counts only if there are any.
unfoldable pub gids : List ℕ → Option Value
gids [] = none
gids (g ∷ gs) = some (list (numbers (g ∷ gs)))

unfoldable pub optional_number : Option ℕ → Option Value
optional_number none = none
optional_number (some n) = some (number n)

unfoldable pub optional_boolean : Option Bool → Option Value
optional_boolean none = none
optional_boolean (some b) = some (boolean b)

-- `if privileged:`
unfoldable pub if_true : Bool → Option Value
if_true true = some (boolean true)
if_true false = none

-- `"_" in key`, for some key.
unfoldable pub has_underscore : Fields → Bool
has_underscore end = false
has_underscore (field k v d) = contains (codes "_") k || has_underscore d

-- `if not psc: psc = None`
unfoldable pub or_null : Fields → Value
or_null end = null
or_null (field k v d) = object (field k v d)

-- The dedicated options, then the configured context over them; `none` is the ValueError.
unfoldable pub over_dedicated : (dedicated configured : Fields) → Option Value
over_dedicated dedicated configured =
    if has_underscore configured then none else some (or_null (update_fields dedicated configured))

unfoldable pub dedicated_pod : (fs_gid : Option ℕ) (supplemental_gids : List ℕ) → Fields
dedicated_pod fs_gid supplemental_gids =
    put_optional (codes "supplementalGroups") (gids supplemental_gids)
      (put_optional (codes "fsGroup") (optional_number fs_gid) end)

-- `psc` of `make_pod`
unfoldable pub pod_security_context :
    (fs_gid : Option ℕ) (supplemental_gids : List ℕ) (configured : Fields) → Option Value
pod_security_context fs_gid supplemental_gids configured =
    over_dedicated (dedicated_pod fs_gid supplemental_gids) configured

unfoldable pub dedicated_container :
    (uid gid : Option ℕ) (privileged : Bool) (allow_privilege_escalation : Option Bool) → Fields
dedicated_container uid gid privileged allow_privilege_escalation =
    put_optional (codes "allowPrivilegeEscalation") (optional_boolean allow_privilege_escalation) (
      put_optional (codes "privileged") (if_true privileged) (
        put_optional (codes "runAsGroup") (optional_number gid)
          (put_optional (codes "runAsUser") (optional_number uid) end)))

-- `csc` of `make_pod`
unfoldable pub container_security_context :
    (uid gid : Option ℕ) (privileged : Bool) (allow_privilege_escalation : Option Bool)
    (configured : Fields)
    → Option Value
container_security_context uid gid privileged allow_privilege_escalation configured =
    over_dedicated (dedicated_container uid gid privileged allow_privilege_escalation) configured
