-- ===== src/Spawner/State.antt =====
-- `get_state`, `load_state` and `clear_state`: what survives a restart of the hub. The version and
-- the state of the base class are arguments.
use kubespawner.Prelude.{
  ◌≡◌, refl, Bool, true, false, ◌&&◌, Option, none, some, arith, if◌then◌else◌, is_empty,
  Bool-cases, inl, inr,
}
use kubespawner.Text.{Text, codes, text_eq}
use kubespawner.Dict.{Dict, get, insert, get-insert}
use kubespawner.Spawner.Defs.{Spawner, Config}

abbrev version_key : Text
version_key = codes "kubespawner_version"

unfoldable pub get_state : (version : Text) → Dict Text → Spawner → Dict Text
get_state version base p =
    let state = insert (codes "dns_name") p.dns_name (
      insert (codes "namespace") p.namespace
        (insert (codes "pod_name") p.pod_name (insert version_key version base))) in
    if p.pvc_exists then insert (codes "pvc_name") p.pvc_name state else state

-- `state[k] if k in state else v`
abbrev loaded : Option Text → Text → Text
loaded none v = v
loaded (some w) v = w

abbrev is_some : Option Text → Bool
is_some none = false
is_some (some v) = true

-- The version of a state without one is "unknown", unless there is no state at all.
abbrev loaded_version : Dict Text → Option Text → Option Text
loaded_version state (some v) = some v
loaded_version state none = if is_empty state then none else some (codes "unknown")

unfoldable pub load_state : Config → Dict Text → Spawner → Spawner
load_state c state p =
    let pvc = is_some (get (codes "pvc_name") state) && c.remember_pvc_name in
    record p {
      pod_name = loaded (get (codes "pod_name") state) p.pod_name;
      namespace = loaded (get (codes "namespace") state) p.namespace;
      dns_name = loaded (get (codes "dns_name") state) p.dns_name;
      pvc_name = if pvc then loaded (get (codes "pvc_name") state) p.pvc_name else p.pvc_name;
      pvc_exists = if pvc then true else p.pvc_exists;
      state_version = loaded_version state (get version_key state);
    }

-- `clear_state`, with `pod_name_template` expanded and `dns_name_template` as a function of the
-- namespace and the pod's name.
unfoldable pub clear_state : (pod_name : Text) (dns_name : Text → Text → Text) → Spawner → Spawner
clear_state pod_name dns_name p = record p {
  pod_name = pod_name;
  dns_name = dns_name p.namespace pod_name;
}

module _ (version : Text) (base : Dict Text) (p : Spawner) where
  saved_pod_name : get (codes "pod_name") (get_state version base p) ≡ some p.pod_name
  unfolding get_state text_eq
  saved_pod_name = elim (Bool-cases p.pvc_exists) [
    | inl e ↦ rw e (simp get-insert)
    | inr e ↦ rw e (simp get-insert)
  ]

  saved_namespace : get (codes "namespace") (get_state version base p) ≡ some p.namespace
  unfolding get_state text_eq
  saved_namespace = elim (Bool-cases p.pvc_exists) [
    | inl e ↦ rw e (simp get-insert)
    | inr e ↦ rw e (simp get-insert)
  ]

  saved_dns_name : get (codes "dns_name") (get_state version base p) ≡ some p.dns_name
  unfolding get_state text_eq
  saved_dns_name = elim (Bool-cases p.pvc_exists) [
    | inl e ↦ rw e (simp get-insert)
    | inr e ↦ rw e (simp get-insert)
  ]

  saved_version : get version_key (get_state version base p) ≡ some version
  unfolding get_state text_eq
  saved_version = elim (Bool-cases p.pvc_exists) [
    | inl e ↦ rw e (simp get-insert)
    | inr e ↦ rw e (simp get-insert)
  ]

  saved_pvc_name :
      get (codes "pvc_name") (get_state version base p)
      ≡ (if p.pvc_exists then some p.pvc_name else get (codes "pvc_name") base)
  unfolding get_state text_eq
  saved_pvc_name = elim (Bool-cases p.pvc_exists) [
    | inl e ↦ rw e (simp get-insert)
    | inr e ↦ rw e (simp get-insert)
  ]

-- A fresh spawner that loads the state that another one saved has its pod name, namespace and DNS
-- name and knows the version that saved it. It takes over the name of the volume claim, and that
-- the claim exists, exactly if the other knew that it exists and `remember_pvc_name` is set.
-- The state of the base class has no `pvc_name`.
pub load_state-get_state :
    (c : Config) (version : Text) (base : Dict Text) (p fresh : Spawner)
    → get (codes "pvc_name") base ≡ none
    → let q = load_state c (get_state version base p) fresh in
      (q.pod_name ≡ p.pod_name)
      × (q.namespace ≡ p.namespace)
      × (q.dns_name ≡ p.dns_name)
      × (q.state_version ≡ some version)
      × (q.pvc_name ≡ (if p.pvc_exists && c.remember_pvc_name then p.pvc_name else fresh.pvc_name))
      × (q.pvc_exists ≡ (if p.pvc_exists && c.remember_pvc_name then true else fresh.pvc_exists))
unfolding load_state
load_state-get_state c version base p fresh h =
    let pvc = saved_pvc_name version base p in
    rw
      (saved_pod_name version base p, saved_namespace version base p, saved_dns_name version base p)
      (rw (saved_version version base p)
        (rw (pvc, h) (refl, refl, refl, refl, ground arith, ground arith)))
