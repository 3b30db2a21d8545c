-- ===== src/Utils/Slug.antt =====
-- `generate_hashed_slug`
use kubespawner.Prelude.{
  ℕ, ◌-◌, ◌<◌, ◌≤◌, ◌≡◌, ◌≢◌, refl, inl, inr, ◌⊎◌, Bool, true, false, [], ◌∷◌, ◌++◌, length, take,
  ltb, ltb→lt, arith, if◌then◌else◌, Bool-cases, length-append, all, all-take, all-append,
  all_weaken, all_cons, map, ap, suc, sym, ◌∙◌, length-take_exact,
}
use mathlib.Core.List.{map-append}
use kubespawner.Text.{Text, codes, utf8, to_lower_ascii}
use kubespawner.Slugs.{Lower, Hash}
use kubespawner.Slugs.Valid.{is_hex, IsHexDigest}

-- `slug[: limit - hash_length - 1]`; the bounds that the source uses are not negative.
unfoldable pub generate_hashed_slug : Lower → Hash → (slug : Text) (limit hash_length : ℕ) → Text
generate_hashed_slug lower sha256_hex slug limit hash_length =
    if ltb (length slug) (limit - hash_length)
    then slug
    else lower (
        take (limit - hash_length - 1) slug
        ++ (codes "-" ++ take hash_length (sha256_hex (utf8 slug))))

abbrev pub is_ascii : ℕ → Bool
is_ascii c = ltb c 128

-- `str.lower` of an ASCII text.
abbrev pub LowersAscii : Lower → Type 0
LowersAscii lower = (s : Text) → all is_ascii s ≡ true → lower s ≡ map to_lower_ascii s

length-map_native : (s : Text) → length (map to_lower_ascii s) ≡ length s
length-map_native [] = refl
length-map_native (c ∷ s) = ap suc (length-map_native s)

hex_ascii : (c : ℕ) → is_hex c ≡ true → is_ascii c ≡ true
unfolding is_hex
hex_ascii c h = ground arith

split_append : (a b s t : Text) → a ++ s ≡ b ++ t → length a ≡ length b → (a ≡ b) × (s ≡ t)
split_append [] [] s t e h = (refl, e)
split_append [] (y ∷ b) s t e h = absurd (omega (arith, h))
split_append (x ∷ a) [] s t e h = absurd (omega (arith, h))
split_append (x ∷ a) (y ∷ b) s t e h =
    let (same, rest) = split_append a b s t (cc) (omega (arith, h)) in (cc, rest)

module _ (lower : Lower) (sha256_hex : Hash) (lowers : LowersAscii lower)
    (hex : IsHexDigest sha256_hex) (limit hash_length : ℕ) (fits : hash_length < limit)
    (short : hash_length ≤ 64) where
  -- The texts before and after the hyphen.
  abbrev kept : Text → Text
  kept slug = take (limit - hash_length - 1) slug

  abbrev digits : Text → Text
  digits slug = take hash_length (sha256_hex (utf8 slug))

  hashed_form :
      (slug : Text)
      → all is_ascii slug ≡ true
      → ltb (length slug) (limit - hash_length) ≡ false
      → generate_hashed_slug lower sha256_hex slug limit hash_length
        ≡ map to_lower_ascii (kept slug) ++ map to_lower_ascii (codes "-" ++ digits slug)
  unfolding generate_hashed_slug
  hashed_form slug ascii long =
      let tail : all is_ascii (codes "-" ++ digits slug) ≡ true =
        all_cons is_ascii b'-' (digits slug) refl (
          all-take is_ascii hash_length (sha256_hex (utf8 slug)) (
            all_weaken is_hex is_ascii hex_ascii (sha256_hex (utf8 slug))
              (hex.digits (utf8 slug)))) in
      let whole : all is_ascii (kept slug ++ (codes "-" ++ digits slug)) ≡ true =
        all-append is_ascii (kept slug) (codes "-" ++ digits slug)
        ∙ rw (all-take is_ascii (limit - hash_length - 1) slug ascii, tail) refl in
      rw long (
        lowers (kept slug ++ (codes "-" ++ digits slug)) whole
        ∙ map-append to_lower_ascii (kept slug) (codes "-" ++ digits slug))

  length-kept :
      (slug : Text)
      → ltb (length slug) (limit - hash_length) ≡ false
      → length (map to_lower_ascii (kept slug)) ≡ limit - hash_length - 1
  length-kept slug long =
      length-map_native (kept slug)
      ∙ length-take_exact (limit - hash_length - 1) slug (ground (arith, long))

  length-hashed :
      (slug : Text)
      → all is_ascii slug ≡ true
      → ltb (length slug) (limit - hash_length) ≡ false
      → length (generate_hashed_slug lower sha256_hex slug limit hash_length) ≡ limit
  length-hashed slug ascii long = rw (hashed_form slug ascii long) (
      omega (
        arith,
        length-append {_} (map to_lower_ascii (kept slug))
            (map to_lower_ascii (codes "-" ++ digits slug)),
        length-kept slug long,
        length-map_native (codes "-" ++ digits slug),
        length-take_exact hash_length (sha256_hex (utf8 slug)) (rw (hex.size (utf8 slug)) short),
      ))

  -- For an ASCII slug, digests of 64 lowercase hexadecimal digits, `str.lower` as it is on ASCII and
  -- a limit beyond the digits of the hash, of which there are at most 64, the name has at most
  -- `limit` characters.
  pub length-generate_hashed_slug :
      (slug : Text)
      → all is_ascii slug ≡ true
      → length (generate_hashed_slug lower sha256_hex slug limit hash_length) ≤ limit
  length-generate_hashed_slug slug ascii =
      elim (Bool-cases (ltb (length slug) (limit - hash_length))) [
        | inl e ↦
            unfold generate_hashed_slug in
            rw e (omega (arith, ltb→lt (length slug) (limit - hash_length) e))
        | inr e ↦ omega (arith, length-hashed slug ascii e)
      ]

  same_hashed :
      (a b : Text)
      → all is_ascii a ≡ true
      → all is_ascii b ≡ true
      → ltb (length a) (limit - hash_length) ≡ false
      → ltb (length b) (limit - hash_length) ≡ false
      → generate_hashed_slug lower sha256_hex a limit hash_length
        ≡ generate_hashed_slug lower sha256_hex b limit hash_length
      → (map to_lower_ascii (kept a) ≡ map to_lower_ascii (kept b))
        × (map to_lower_ascii (digits a) ≡ map to_lower_ascii (digits b))
  same_hashed a b ha hb la lb e =
      let (same, rest) =
        split_append (map to_lower_ascii (kept a)) (map to_lower_ascii (kept b))
          (map to_lower_ascii (codes "-" ++ digits a)) (map to_lower_ascii (codes "-" ++ digits b))
          (sym (hashed_form a ha la) ∙ (e ∙ hashed_form b hb lb))
          (length-kept a la ∙ sym (length-kept b lb)) in
      (same, cc rest)

  short_form :
      (slug : Text)
      → ltb (length slug) (limit - hash_length) ≡ true
      → generate_hashed_slug lower sha256_hex slug limit hash_length ≡ slug
  unfolding generate_hashed_slug
  short_form slug e = rw e refl

  unlike :
      (a b : Text)
      → all is_ascii a ≡ true
      → all is_ascii b ≡ true
      → ltb (length a) (limit - hash_length) ≡ true
      → ltb (length b) (limit - hash_length) ≡ false
      → generate_hashed_slug lower sha256_hex a limit hash_length
        ≢ generate_hashed_slug lower sha256_hex b limit hash_length
  unlike a b ha hb ea eb e =
      let same : length a ≡ limit = ap length (sym (short_form a ea) ∙ e) ∙ length-hashed b hb eb in
      absurd (omega (arith, ltb→lt (length a) (limit - hash_length) ea, same))

  -- Two ASCII slugs get the same name only if they are equal, or if both are too long and agree, up
  -- to case, in what is kept of them, and their digests in the digits that are kept: the name of a
  -- short slug is never that of a long one. Digests, `str.lower` and the limit are as above.
  pub generate_hashed_slug_collision :
      (a b : Text)
      → all is_ascii a ≡ true
      → all is_ascii b ≡ true
      → generate_hashed_slug lower sha256_hex a limit hash_length
        ≡ generate_hashed_slug lower sha256_hex b limit hash_length
      → (a ≡ b)
        ⊎ ((map to_lower_ascii (kept a) ≡ map to_lower_ascii (kept b))
            × (map to_lower_ascii (digits a) ≡ map to_lower_ascii (digits b)))
  generate_hashed_slug_collision a b ha hb e =
      let la = ltb (length a) (limit - hash_length) in
      let lb = ltb (length b) (limit - hash_length) in
      elim (Bool-cases la) [
        | inl ea ↦ elim (Bool-cases lb) [
          | inl eb ↦ inl (sym (short_form a ea) ∙ (e ∙ short_form b eb))
          | inr eb ↦ absurd (unlike a b ha hb ea eb e)
        ]
        | inr ea ↦ elim (Bool-cases lb) [
          | inl eb ↦ absurd (unlike b a hb ha eb ea (sym e))
          | inr eb ↦ inr (same_hashed a b ha hb ea eb e)
        ]
      ]
