-- ===== src/Objects/Reuse.antt =====
-- Which services `make_ingress` takes for those of its namespace.
use kubespawner.Prelude.{◌≡◌, ◌≢◌, refl, true, some, List, [], ◌∷◌, ◌++◌}
use kubespawner.Text.{Text, text_eq_iff}
use kubespawner.Utils.Hosts.{IsPart, split_dots, split_dots-part}
use kubespawner.Objects.Ingress.{dns_groups, some_part, in_namespace, reused, service_dns_match}

two_groups :
    (s t : Text) (parts : List Text)
    → s ≢ []
    → t ≢ []
    → dns_groups (s ∷ t ∷ parts) ≡ some (s, some t)
unfolding dns_groups some_part
two_groups [] t parts h k = absurd (h refl)
two_groups (c ∷ s) [] parts h k = absurd (k refl)
two_groups (c ∷ s) (d ∷ t) parts h k = refl

-- With `reuse_existing_services`, a host whose first two labels are not empty, and whose second one
-- is the namespace, is taken for the service that its first label names, whatever follows: also a
-- host of another domain.
pub reused_any_domain :
    (service namespace rest : Text)
    → IsPart service
    → IsPart namespace
    → service ≢ []
    → namespace ≢ []
    → reused true namespace (service_dns_match (service ++ (b'.' ∷ (namespace ++ (b'.' ∷ rest)))))
      ≡ some service
unfolding reused service_dns_match in_namespace
reused_any_domain service namespace rest part_s part_n some_s some_n =
    rw
      (
        split_dots-part service (namespace ++ (b'.' ∷ rest)) part_s,
        split_dots-part namespace rest part_n,
        two_groups service namespace (split_dots rest) some_s some_n,
        (text_eq_iff namespace namespace).1 refl,
      )
      refl
