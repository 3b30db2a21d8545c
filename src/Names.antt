-- ===== src/Names.antt =====
-- `KubeSpawner._expand_user_properties` (kubespawner/spawner.py): templates for the names of pods,
-- claims, secrets and namespaces. `escape` is the third-party `escapism.escape` with the safe
-- characters and the escape character of `escape_slug`. A template comes parsed, as
-- `string.Formatter` reads it: literal text and replacement fields. An exception is `none`.
pub mod Length
mod Tests
use kubespawner.Prelude.{
  ℕ, ◌+◌, Bool, true, false, not, ◌&&◌, Option, none, some, List, [], ◌∷◌, ◌++◌, ◌==◌, ltb,
  if◌then◌else◌, length, is_empty, ◌>>=◌,
}
use kubespawner.Text.{Text, codes, text_eq, last_sat, rstrip}
use kubespawner.Dict.{Dict, get}
use kubespawner.Slugs.{Lower, Hash, is_valid_default, safe_slug, multi_slug}

pub data Piece : Type 0 where
  literal : Text → Piece
  field : Text → Piece

abbrev pub Template : Type 0
Template = List Piece

-- `template.format(**ns)`; a field that `ns` lacks raises `KeyError`.
unfoldable pub format : Template → Dict Text → Option Text
format [] ns = some []
format (literal t ∷ pieces) ns = do rest ← format pieces ns; some (t ++ rest)
format (field k ∷ pieces) ns = do v ← get k ns; rest ← format pieces ns; some (v ++ rest)

-- `template.endswith("-")`: a replacement field ends with a brace.
unfoldable pub ends_with_hyphen : Template → Bool
ends_with_hyphen [] = false
ends_with_hyphen (literal t ∷ []) = last_sat (λ c. c == b'-') t
ends_with_hyphen (field k ∷ []) = false
ends_with_hyphen (p ∷ q ∷ pieces) = ends_with_hyphen (q ∷ pieces)

-- What the expansion reads of the spawner: the user, the server's name (empty for the default
-- server), the hub's namespace as `_namespace_default` finds it, and the names set so far.
pub record Identity : Type 0 where
  pub user_id : Text
  pub user_name : Text
  pub server_name : Text
  pub namespace_default : Text
  pub pod_name : Option Text
  pub pvc_name : Option Text
  pub namespace : Option Text

-- `slug_scheme`; any other value raises `ValueError`.
pub data SlugScheme : Type 0 where
  safe : SlugScheme
  escaped : SlugScheme
  unknown : SlugScheme

-- `_slug_max_length`
abbrev pub slug_max_length : ℕ
slug_max_length = 48

module _ (lower : Lower) (sha256_hex : Hash) (escape : Text → Text) where
  -- `escape_slug` of kubespawner/slugs.py
  unfoldable pub escape_slug : Text → Text
  escape_slug name = lower (escape name)

  unfoldable pub safe_username : Identity → Option Text
  safe_username i = safe_slug lower sha256_hex is_valid_default i.user_name (some slug_max_length)

  unfoldable pub safe_servername : Identity → Option Text
  safe_servername i =
      if is_empty i.server_name
      then some []
      else safe_slug lower sha256_hex is_valid_default i.server_name (some slug_max_length)

  -- The name of both, hashed again if they are too long together.
  unfoldable pub safe_user_server : Identity → Option Text
  safe_user_server i = do
    user ← safe_username i
    server ← safe_servername i
    if ltb slug_max_length (length user + length server + 2)
        then multi_slug lower sha256_hex (i.user_name ∷ i.server_name ∷ []) slug_max_length
        else if is_empty i.server_name
        then some user
        else some (user ++ (codes "--" ++ server))

  abbrev or_unavailable : Text → Option Text → Text
  or_unavailable attr none = attr ++ codes "_unavailable!"
  or_unavailable attr (some v) = v

  -- The scheme's `username`, `servername` and `user_server`.
  unfoldable pub scheme_names :
      SlugScheme → Identity → (user server user_server : Text) → Option (Text × Text × Text)
  scheme_names safe i user server user_server = some (user, server, user_server)
  scheme_names escaped i user server user_server =
      let u = escape_slug i.user_name in
      let s = escape_slug i.server_name in
      some (u, s, if is_empty s then u else u ++ (codes "--" ++ s))
  scheme_names unknown i user server user_server = none

  -- `ns`
  unfoldable pub format_names : SlugScheme → Identity → Option (Dict Text)
  format_names scheme i = do
    user ← safe_username i
    server ← safe_servername i
    both ← safe_user_server i
    names ← scheme_names scheme i user server both
    some (
        (codes "userid", i.user_id)
        ∷ (codes "unescaped_username", i.user_name)
        ∷ (codes "unescaped_servername", i.server_name)
        ∷ (
          codes "hubnamespace",
          if text_eq i.namespace_default (codes "default")
              then codes "user"
              else i.namespace_default,
        )
        ∷ (codes "username", names.0)
        ∷ (codes "servername", names.1)
        ∷ (codes "user_server", names.2)
        ∷ (codes "safe_username", user)
        ∷ (codes "safe_servername", server)
        ∷ (codes "safe_user_server", both)
        ∷ (codes "escaped_username", escape_slug i.user_name)
        ∷ (codes "escaped_servername", escape_slug i.server_name)
        ∷ (
          codes "escaped_user_server",
          escape_slug i.user_name ++ (codes "--" ++ escape_slug i.server_name),
        )
        ∷ (codes "pod_name", or_unavailable (codes "pod_name") i.pod_name)
        ∷ (codes "pvc_name", or_unavailable (codes "pvc_name") i.pvc_name)
        ∷ (codes "namespace", or_unavailable (codes "namespace") i.namespace)
        ∷ [])

  -- `_expand_user_properties`
  unfoldable pub expand_user_properties : SlugScheme → Template → Identity → Option Text
  expand_user_properties scheme template i = do
    ns ← format_names scheme i
    rendered ← format template ns
    some (if ends_with_hyphen template then rendered else rstrip b'-' rendered)
