-- ===== src/Slugs/Multi.antt =====
-- `multi_slug`: what it hashes tells lists of names apart, and its slug fits.
use kubespawner.Prelude.{
  ℕ, ◌+◌, ◌-◌, ◌*◌, ◌/◌, ◌≤◌, ◌<◌, ◌≡◌, ◌↔◌, refl, true, [], ◌∷◌, ◌++◌, none, some, arith, length,
  all, all-uncons, length-append, List, map, Option-cases, ◌⊎◌, inl, inr,
}
use kubespawner.Text.{Text, codes, join}
use kubespawner.Text.Join.{join_rest}
use kubespawner.Text.Encode.{IsDelimited, is_encodable, utf8_delimited}
use kubespawner.Slugs.{
  Lower, Hash, extract_safe_name, short_hash, hash_input, hash_input_rest, name_max_length,
  multi_slug,
}
use kubespawner.Slugs.Shape.{length-extract_safe_name}
use kubespawner.Slugs.Valid.{IsHexDigest}
use kubespawner.Slugs.Safe.{length-short_hash}

hash_input_rest-IsDelimited : (names : List Text) → IsDelimited (hash_input_rest names)
unfolding hash_input_rest
hash_input_rest-IsDelimited [] = tt
hash_input_rest-IsDelimited (name ∷ names) = refl

hash_input_rest_injective :
    (names names' : List Text)
    → all is_encodable names ≡ true
    → all is_encodable names' ≡ true
    → hash_input_rest names ≡ hash_input_rest names'
    → names ≡ names'
unfolding hash_input_rest
hash_input_rest_injective [] [] e e' h = refl
hash_input_rest_injective [] (b ∷ bs) e e' h = cc
hash_input_rest_injective (a ∷ as') [] e e' h = cc
hash_input_rest_injective (a ∷ as') (b ∷ bs) e e' h =
    let (ea, eas) = all-uncons is_encodable a as' e in
    let (eb, ebs) = all-uncons is_encodable b bs e' in
    let (same, rest) =
      utf8_delimited a b (hash_input_rest as') (hash_input_rest bs) ea eb
        (hash_input_rest-IsDelimited as') (hash_input_rest-IsDelimited bs) (cc) in
    cc (same, hash_input_rest_injective as' bs eas ebs rest)

-- Different lists of at least one name, all of code points below the end of Unicode, give
-- different input to the hash: the delimiter keeps names apart that only their boundary tells
-- apart.
pub hash_input_injective :
    (a b : Text) (names names' : List Text)
    → all is_encodable (a ∷ names) ≡ true
    → all is_encodable (b ∷ names') ≡ true
    → hash_input (a ∷ names) ≡ hash_input (b ∷ names')
    → a ∷ names ≡ b ∷ names'
unfolding hash_input
hash_input_injective a b names names' e e' h =
    let (ea, en) = all-uncons is_encodable a names e in
    let (eb, en') = all-uncons is_encodable b names' e' in
    let (same, rest) =
      utf8_delimited a b (hash_input_rest names) (hash_input_rest names') ea eb
        (hash_input_rest-IsDelimited names) (hash_input_rest-IsDelimited names') h in
    cc (same, hash_input_rest_injective names names' en en' rest)

-- Each name of a joined list and its separator take `n + 2` characters at most.
length-join_rest :
    (lower : Lower) (n : ℕ) (names : List Text)
    → 2 ≤ n
    → length (join_rest (codes "--") (map (λ name. extract_safe_name lower name n) names))
      ≤ length names * (n + 2)
unfolding join_rest
length-join_rest lower n [] two = omega arith
length-join_rest lower n (a ∷ names) two = omega (
  arith,
  length-append {_} (extract_safe_name lower a n)
      (join_rest (codes "--") (map (λ name. extract_safe_name lower name n) names)),
  length-extract_safe_name lower a n two,
  length-join_rest lower n names two,
)

length-joined :
    (lower : Lower) (n : ℕ) (names : List Text)
    → 2 ≤ n
    → 0 < length names
    → length (join (codes "--") (map (λ name. extract_safe_name lower name n) names)) + 2
      ≤ length names * (n + 2)
unfolding join
length-joined lower n [] two pos = absurd (omega arith)
length-joined lower n (a ∷ names) two pos = omega (
  arith,
  length-append {_} (extract_safe_name lower a n)
      (join_rest (codes "--") (map (λ name. extract_safe_name lower name n) names)),
  length-extract_safe_name lower a n two,
  length-join_rest lower n names two,
)

-- A share that is given leaves room for every name, its separator and the hash.
name_max_length_fits :
    (count max_length : ℕ) {n : ℕ}
    → name_max_length count max_length ≡ some n
    → (0 < count) × (2 ≤ n) × (count * (n + 2) + 9 ≤ max_length)
unfolding name_max_length
name_max_length_fits count max_length {n} h = grind arith

-- `multi_slug` raises exactly if there is no name, or if each name's share of the limit less 9 is
-- below 4.
pub multi_slug-none_iff :
    (lower : Lower) (sha256_hex : Hash) (names : List Text) (max_length : ℕ)
    → (multi_slug lower sha256_hex names max_length ≡ none)
      ↔ ((length names ≡ 0) ⊎ ((max_length - 9) / length names < 4))
unfolding multi_slug name_max_length
multi_slug-none_iff lower sha256_hex names max_length = ground arith

-- A slug of `multi_slug` is no longer than its limit, if digests are 64 hexadecimal digits.
pub length-multi_slug :
    (lower : Lower) (sha256_hex : Hash) (names : List Text) (max_length : ℕ) {s : Text}
    → IsHexDigest sha256_hex
    → multi_slug lower sha256_hex names max_length ≡ some s
    → length s ≤ max_length
unfolding multi_slug
length-multi_slug lower sha256_hex names max_length {s} hex h =
    elim (Option-cases (name_max_length (length names) max_length)) [
      | inl e ↦ ground arith
      | inr (n, e) ↦
          let joined = join (codes "--") (map (λ name. extract_safe_name lower name n) names) in
          let hash = short_hash sha256_hex (hash_input names) in
          let shape : s ≡ joined ++ (codes "---" ++ hash) = ground arith in
          let (some_names, two, room) = name_max_length_fits (length names) max_length e in
          rw shape (
            omega (
              arith,
              room,
              length-append {_} joined (codes "---" ++ hash),
              length-short_hash sha256_hex (hash_input names) hex,
              length-joined lower n names two some_names,
            ))
    ]
