-- ===== src/Names/Length.antt =====
-- The names of the `safe` scheme exist for every user and server, and fit.
use kubespawner.Prelude.{
  ◌+◌, ◌≤◌, ◌≡◌, refl, ap, append-nil, inl, inr, Option, none, some, [], ◌∷◌, ◌++◌, arith, ltb,
  length, is_empty, Returns, Returns-map, Bool-cases, Option-cases, length-append,
}
use kubespawner.Text.{Text, codes, text_eq}
use kubespawner.Text.Strip.{length-rstrip}
use kubespawner.Dict.{get}
use kubespawner.Slugs.{Lower, Hash, multi_slug}
use kubespawner.Slugs.Valid.{IsHexDigest}
use kubespawner.Slugs.Safe.{IsSlug, safe_slug-IsSlug}
use kubespawner.Slugs.Multi.{multi_slug-none_iff, length-multi_slug}
use kubespawner.Names.{
  field, Identity, safe, safe_username, safe_servername, safe_user_server, scheme_names,
  format_names, format, expand_user_properties, ends_with_hyphen,
}

Returns-some {ℓ} :
    {A : Type ℓ} {P : A → Type 0} (r : Option A) → Returns P r → (a : A) × (r ≡ some a) × P a
Returns-some none h = absurd h
Returns-some (some a) h = (a, refl, h)

module _ (lower : Lower) (sha256_hex : Hash) (escape : Text → Text)
    (hex : IsHexDigest sha256_hex) where
  safe_username-IsSlug :
      (i : Identity) → Returns (IsSlug 48) (safe_username lower sha256_hex escape i)
  unfolding safe_username
  safe_username-IsSlug i =
      safe_slug-IsSlug lower sha256_hex hex i.user_name (some 48) (omega arith, omega arith)

  length-safe_servername :
      (i : Identity) → Returns (λ s. length s ≤ 48) (safe_servername lower sha256_hex escape i)
  unfolding safe_servername
  length-safe_servername i = elim (Bool-cases (is_empty i.server_name)) [
    | inl e ↦ rw e (omega arith)
    | inr e ↦ rw e (
        Returns-map {P = IsSlug 48} (λ s h. h.fits_limit) _
          (safe_slug-IsSlug lower sha256_hex hex i.server_name (some 48)
            (omega arith, omega arith)))
  ]

  length-multi :
      (a b : Text) → Returns (λ s. length s ≤ 48) (multi_slug lower sha256_hex (a ∷ b ∷ []) 48)
  length-multi a b = elim (Option-cases (multi_slug lower sha256_hex (a ∷ b ∷ []) 48)) [
    | inl e ↦ elim ((multi_slug-none_iff lower sha256_hex (a ∷ b ∷ []) 48).0 e) [
      | inl no_names ↦ absurd (omega arith)
      | inr small ↦ absurd (omega arith)
    ]
    | inr (s, e) ↦ rw e (length-multi_slug lower sha256_hex (a ∷ b ∷ []) 48 hex e)
  ]

  -- For every user and server there is a `{safe_user_server}`, of 48 characters at most, if
  -- digests are 64 lowercase hexadecimal digits.
  pub length-safe_user_server :
      (i : Identity) → Returns (λ s. length s ≤ 48) (safe_user_server lower sha256_hex escape i)
  unfolding safe_user_server
  length-safe_user_server i =
      let (user, eu, hu) =
        Returns-some (safe_username lower sha256_hex escape i) (safe_username-IsSlug i) in
      let (server, es, hs) =
        Returns-some (safe_servername lower sha256_hex escape i) (length-safe_servername i) in
      rw (eu, es)
        (elim (Bool-cases (ltb 48 (length user + length server + 2))) [
          | inl long ↦ rw long (length-multi i.user_name i.server_name)
          | inr short ↦ elim (Bool-cases (is_empty i.server_name)) [
            | inl e ↦ rw (short, e) hu.fits_limit
            | inr e ↦ rw (short, e) (ground (arith, length-append {_} user (codes "--" ++ server)))
          ]
        ])

  -- With the `safe` scheme the template `{user_server}` expands, for every user and server, to 48
  -- characters at most, if digests are 64 lowercase hexadecimal digits.
  pub length-expand_user_server :
      (i : Identity)
      → Returns
          (λ s. length s ≤ 48)
          (expand_user_properties lower sha256_hex escape safe (field (codes "user_server") ∷ []) i)
  length-expand_user_server i =
      let (user, eu, hu) =
        Returns-some (safe_username lower sha256_hex escape i) (safe_username-IsSlug i) in
      let (server, es, hs) =
        Returns-some (safe_servername lower sha256_hex escape i) (length-safe_servername i) in
      let (both, eb, hb) =
        Returns-some (safe_user_server lower sha256_hex escape i) (length-safe_user_server i) in
      unfold expand_user_properties format_names scheme_names format ends_with_hyphen get text_eq in
      rw (eu, es, eb) (omega (arith, length-rstrip b'-' (both ++ []), ap length (append-nil both)))
