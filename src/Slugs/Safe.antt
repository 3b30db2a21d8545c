-- ===== src/Slugs/Safe.antt =====
-- What `strip_and_hash` and `safe_slug` return: when they raise, and how long and how valid the
-- slug is.
use kubespawner.Prelude.{
  ℕ, zero, suc, ◌-◌, ◌≤◌, ◌<◌, ◌≡◌, ◌↔◌, ◌⊎◌, Returns-map, inl, inr, Bool, true, false, ◌&&◌, ◌++◌,
  Option, Returns, none, some, arith, ◌==◌, ltb, length, all, Bool-cases, all-take, length-append,
  length-take_exact, List, and_true, leb→le,
}
use kubespawner.Text.{Text, codes, utf8, contains}
use kubespawner.Slugs.{
  Lower, Hash, is_valid_default, extract_safe_name, short_hash, strip_and_hash, or_32, fits,
  safe_slug,
}
use kubespawner.Slugs.Shape.{extract_safe_name-IsSafeName, length-extract_safe_name}
use kubespawner.Slugs.Valid.{
  is_hex, IsHexDigest, IsDnsLabel, is_valid_object_name_iff, hashed-IsDnsLabel,
}

pub length-short_hash :
    (sha256_hex : Hash) (b : List ℕ) → IsHexDigest sha256_hex → length (short_hash sha256_hex b) ≡ 8
unfolding short_hash
length-short_hash sha256_hex b h = length-take_exact 8 (sha256_hex b) (rw h.size (omega arith))

pub short_hash-hex :
    (sha256_hex : Hash) (b : List ℕ)
    → IsHexDigest sha256_hex
    → all is_hex (short_hash sha256_hex b) ≡ true
unfolding short_hash
short_hash-hex sha256_hex b h = all-take is_hex 8 (sha256_hex b) (h.digits b)

-- `strip_and_hash` raises exactly when the limit is below 12.
pub strip_and_hash-none_iff :
    (lower : Lower) (sha256_hex : Hash) (name : Text) (max_length : ℕ)
    → (strip_and_hash lower sha256_hex name max_length ≡ none) ↔ (max_length < 12)
unfolding strip_and_hash
strip_and_hash-none_iff lower sha256_hex name n = ground arith

-- A slug that fits and is a DNS label.
pub record IsSlug (max_length : ℕ) (s : Text) : Type 0 where
  pub fits_limit : length s ≤ max_length
  pub dns_label : IsDnsLabel s

module _ (lower : Lower) (sha256_hex : Hash) (hex : IsHexDigest sha256_hex) where
  -- For every name and every limit from 13 to 63, `strip_and_hash` returns a DNS label within the
  -- limit, if digests are 64 lowercase hexadecimal digits.
  pub strip_and_hash-IsSlug :
      (name : Text) (n : ℕ)
      → 13 ≤ n
      → n ≤ 63
      → Returns (IsSlug n) (strip_and_hash lower sha256_hex name n)
  unfolding strip_and_hash
  strip_and_hash-IsSlug name n low high =
      let e : ltb n 12 ≡ false = ground arith in
      let m = n - 11 in
      let short = length-extract_safe_name lower name m (omega arith) in
      let hash = short_hash sha256_hex (utf8 name) in
      let eight = length-short_hash sha256_hex (utf8 name) hex in
      rw e (record {
        fits_limit = omega (
          arith,
          short,
          eight,
          length-append (extract_safe_name lower name m) (codes "---" ++ hash),
        );
        dns_label =
            hashed-IsDnsLabel (extract_safe_name lower name m) hash
              (extract_safe_name-IsSafeName lower name m)
              (short_hash-hex sha256_hex (utf8 name) hex) eight (omega (arith, short));
      })

-- The names that `safe_slug` leaves as they are.
pub record IsKept (is_valid : Text → Bool) (max_length : Option ℕ) (name : Text) : Type 0 where
  pub single : contains (codes "--") name ≡ false
  pub valid : is_valid name ≡ true
  pub short : fits max_length name ≡ true

module _ (lower : Lower) (sha256_hex : Hash) (is_valid : Text → Bool) (name : Text)
    (m : Option ℕ) where
  -- `safe_slug` returns the name itself, or what `strip_and_hash` returns.
  pub safe_slug_cases :
      (IsKept is_valid m name × (safe_slug lower sha256_hex is_valid name m ≡ some name))
      ⊎ (safe_slug lower sha256_hex is_valid name m
          ≡ strip_and_hash lower sha256_hex name (or_32 m))
  unfolding safe_slug
  safe_slug_cases = elim (Bool-cases (contains (codes "--") name)) [
    | inl double ↦ inr (rw double)
    | inr single ↦ elim (Bool-cases (is_valid name && fits m name)) [
      | inl kept ↦
          let (v, f) = and_true (is_valid name) (fits m name) kept in
          inl (record { single = single; valid = v; short = f }, rw (single, kept))
      | inr changed ↦ inr (rw (single, changed))
    ]
  ]

  -- Every name that `is_valid` accepts, that holds no `--` and that fits is left as it is.
  pub safe_slug_kept :
      IsKept is_valid m name → safe_slug lower sha256_hex is_valid name m ≡ some name
  unfolding safe_slug
  safe_slug_kept h = rw (h.single, h.valid, h.short)

-- The limit on a slug: 63 if `safe_slug` is given none.
abbrev pub limit_of : Option ℕ → ℕ
limit_of none = 63
limit_of (some n) = n

-- The limits at which `safe_slug` can return a DNS label for every name.
abbrev pub IsUsable : Option ℕ → Type 0
IsUsable none = Unit
IsUsable (some n) = (13 ≤ n) × (n ≤ 63)

fits-limit_of :
    (m : Option ℕ) (name : Text) → fits m name ≡ true → length name ≤ 63 → length name ≤ limit_of m
fits-limit_of none name f h = h
fits-limit_of (some n) name f h = leb→le _ _ f

module _ (lower : Lower) (sha256_hex : Hash) (hex : IsHexDigest sha256_hex) where
  pub or_32-IsSlug :
      (name : Text) (m : Option ℕ)
      → IsUsable m
      → Returns (IsSlug (limit_of m)) (strip_and_hash lower sha256_hex name (or_32 m))
  or_32-IsSlug name none u =
      Returns-map {P = IsSlug 32}
        (λ s h. record { fits_limit = h.dns_label.size; dns_label = h.dns_label }) _
        (strip_and_hash-IsSlug lower sha256_hex hex name 32 (omega arith) (omega arith))
  or_32-IsSlug name (some zero) u = absurd (omega arith)
  or_32-IsSlug name (some (suc n)) u =
      let positive : (suc n == 0) ≡ false = ground arith in
      rw positive (strip_and_hash-IsSlug lower sha256_hex hex name (suc n) u.0 u.1)

  -- For every name, with no limit or one from 13 to 63, `safe_slug` with its default check returns
  -- a DNS label within the limit, if digests are 64 lowercase hexadecimal digits.
  pub safe_slug-IsSlug :
      (name : Text) (m : Option ℕ)
      → IsUsable m
      → Returns (IsSlug (limit_of m)) (safe_slug lower sha256_hex is_valid_default name m)
  safe_slug-IsSlug name m u = elim (safe_slug_cases lower sha256_hex is_valid_default name m) [
    | inl (kept, e) ↦
        let d = (is_valid_object_name_iff name).0 (unfold is_valid_default in kept.valid) in
        rw e (record { fits_limit = fits-limit_of m name kept.short d.size; dns_label = d })
    | inr e ↦ rw e (or_32-IsSlug name m u)
  ]
