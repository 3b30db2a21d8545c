-- ===== src/Names/Tests.antt =====
-- Expansions of templates, and instances of the theorems, with ASCII `str.lower`, a constant digest
-- and no escaping.
use kubespawner.Prelude.{◌≤◌, refl, none, [], ◌∷◌, length, map, all, Returns}
use kubespawner.Text.{Text, codes, to_lower_ascii}
use kubespawner.Slugs.{Lower, Hash}
use kubespawner.Slugs.Valid.{is_hex, IsHexDigest}
use kubespawner.Names.{field, Identity, safe, expand_user_properties}
use kubespawner.Names.Length.{length-expand_user_server}

abbrev ascii : Lower
ascii = map to_lower_ascii

abbrev fixed : Hash
fixed b = codes "c0ffee42c0ffee42c0ffee42c0ffee42c0ffee42c0ffee42c0ffee42c0ffee42"

fixed-IsHexDigest : IsHexDigest fixed
unfolding all is_hex
fixed-IsHexDigest = record { digits = λ b. refl; size = λ b. refl }

abbrev unescaped : Text → Text
unescaped s = s

abbrev alex : Identity
alex = record {
  user_id = codes "7";
  user_name = codes "alex@example.org";
  server_name = codes "gpu";
  namespace_default = codes "jhub";
  pod_name = none;
  pvc_name = none;
  namespace = none;
}

length-expand_user_server_example :
    Returns
      (λ s. length s ≤ 48)
      (expand_user_properties ascii fixed unescaped safe (field (codes "user_server") ∷ []) alex)
length-expand_user_server_example =
    length-expand_user_server ascii fixed unescaped fixed-IsHexDigest alex
