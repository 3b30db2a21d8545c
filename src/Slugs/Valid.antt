-- ===== src/Slugs/Valid.antt =====
-- Every slug is a valid object name and label, whatever the name.
use kubespawner.Prelude.{
  ℕ, ◌≤◌, ◌≡◌, ◌↔◌, and_true, all_cons, all-uncons, all_weaken, ◌∙◌, refl, Bool, true, ◌&&◌, ◌||◌,
  [], ◌∷◌, ◌++◌, none, some, arith, leb, length, all, all-append, length-append, List,
}
use kubespawner.Text.{
  Text, codes, is_lower, is_digit, is_alphanum_lower, is_safe, head_sat, last_sat,
}
use kubespawner.Text.Chars.{last_sat-append, head_sat-append, last_sat-all}
use kubespawner.Slugs.{
  Hash, only, pattern_plus, object_pattern, is_valid_general, is_valid_object_name,
}
use kubespawner.Slugs.Shape.{IsSafeName}

-- Lowercase hexadecimal digits.
unfoldable pub is_hex : ℕ → Bool
unfolding is_digit
is_hex c = is_digit c || (leb b'a' c && leb c b'f')

-- What `hexdigest` of SHA-256 promises: 64 lowercase hexadecimal digits.
pub record IsHexDigest (sha256_hex : Hash) : Type 0 where
  pub digits : (b : List ℕ) → all is_hex (sha256_hex b) ≡ true
  pub size : (b : List ℕ) → length (sha256_hex b) ≡ 64

-- A text of safe characters, with a letter first, a letter or digit last, and 63 at most.
pub record IsDnsLabel (s : Text) : Type 0 where
  pub all_safe : all is_safe s ≡ true
  pub starts : head_sat is_lower s ≡ true
  pub ends : last_sat is_alphanum_lower s ≡ true
  pub size : length s ≤ 63

pub only_safe : (p : ℕ → Bool) (s : Text) → all p s ≡ true → only p s ≡ true
unfolding only all
only_safe p [] h = refl
only_safe p (c ∷ s) h = ground (arith, only_safe p s)

alphanum_safe : (c : ℕ) → is_alphanum_lower c ≡ true → is_safe c ≡ true
unfolding is_safe
alphanum_safe c h = ground arith

pub only-cons :
    (p : ℕ → Bool) (c d : ℕ) (s : Text)
    → only p (c ∷ d ∷ s) ≡ true
    → (p c ≡ true) × (only p (d ∷ s) ≡ true)
unfolding only
only-cons p c d s h = ground (arith, and_true (p c) (only p (d ∷ s)))

safe_only :
    (s : Text) → only is_safe s ≡ true → last_sat is_alphanum_lower s ≡ true → all is_safe s ≡ true
safe_only [] h e = unfold all in refl
safe_only (c ∷ []) h e = unfold all in rw (alphanum_safe c e)
safe_only (c ∷ d ∷ s) h e =
    let (hc, hs) = only-cons is_safe c d s h in
    all_cons is_safe c (d ∷ s) hc (safe_only (d ∷ s) hs e)

pub pattern_plus-only :
    (p : ℕ → Bool) (c : ℕ) (s : Text) → pattern_plus p (c ∷ s) ≡ true → only p (c ∷ s) ≡ true
unfolding pattern_plus only
pattern_plus-only p c s h = ground arith

pub pattern_only :
    (p : ℕ → Bool) (c : ℕ) (s : Text) → p c ≡ true → pattern_plus p (c ∷ s) ≡ only p s
unfolding pattern_plus
pattern_only p c s h = rw h

-- The tests of `_is_valid_general` as one conjunction, for callers that test no minimum but 1.
pub general_iff :
    (starts ends : ℕ → Bool) (pattern : Text → Bool) (s : Text)
    → (is_valid_general starts ends pattern none (some 63) s ≡ true) ↔ (
        (length s ≤ 63)
        × (head_sat starts s ≡ true)
        × (last_sat ends s ≡ true)
        × (pattern s ≡ true))
unfolding is_valid_general
general_iff starts ends pattern s = ground arith

general_one_iff :
    (starts ends : ℕ → Bool) (pattern : Text → Bool) (s : Text)
    → (is_valid_general starts ends pattern (some 1) (some 63) s ≡ true) ↔ (
        (length s ≤ 63)
        × (head_sat starts s ≡ true)
        × (last_sat ends s ≡ true)
        × (pattern s ≡ true))
unfolding is_valid_general
general_one_iff starts ends pattern [] = ground arith
general_one_iff starts ends pattern (c ∷ s) = ground arith

object_pattern_safe :
    (s : Text)
    → last_sat is_alphanum_lower s ≡ true
    → object_pattern s ≡ true
    → all is_safe s ≡ true
object_pattern_safe [] e h = unfold all in refl
object_pattern_safe (c ∷ s) e h =
    safe_only (c ∷ s) (pattern_plus-only is_safe c s (unfold object_pattern in h)) e

safe_object_pattern :
    (s : Text) → head_sat is_lower s ≡ true → all is_safe s ≡ true → object_pattern s ≡ true
unfolding object_pattern
safe_object_pattern [] h a = ground arith
safe_object_pattern (c ∷ s) h a =
    let (hc, hs) = all-uncons is_safe c s a in pattern_only is_safe c s hc ∙ only_safe is_safe s hs

-- `is_valid_object_name` accepts a text exactly if it is a DNS label of RFC 1035: 63 characters
-- at most, all lowercase letters, digits or hyphens, a letter first, and no hyphen last.
pub is_valid_object_name_iff : (s : Text) → (is_valid_object_name s ≡ true) ↔ IsDnsLabel s
unfolding is_valid_object_name
is_valid_object_name_iff s =
    let (accepted, accepts) = general_one_iff is_lower is_alphanum_lower object_pattern s in
    (
      (λ h.
          let (size, starts, ends, pattern) = accepted h in
          record {
            all_safe = object_pattern_safe s ends pattern;
            starts = starts;
            ends = ends;
            size = size;
          }),
      (λ d. accepts (d.size, d.starts, d.ends, safe_object_pattern s d.starts d.all_safe)),
    )

hash_char_safe : (c : ℕ) → is_hex c ≡ true → is_alphanum_lower c ≡ true
unfolding is_hex is_alphanum_lower
hash_char_safe c h = ground arith

all_hyphens : (hash : Text) → all is_safe hash ≡ true → all is_safe (codes "---" ++ hash) ≡ true
unfolding all is_safe
all_hyphens hash h = h

last_hash :
    (hash : Text)
    → all is_hex hash ≡ true
    → length hash ≡ 8
    → last_sat is_alphanum_lower (codes "---" ++ hash) ≡ true
last_hash [] h e = absurd (omega arith)
last_hash (c ∷ s) h e =
    let a = all_weaken is_hex is_alphanum_lower hash_char_safe (c ∷ s) h in
    last_sat-all is_alphanum_lower c s a

-- A name, the delimiter and the hash make a DNS label, if they are not too long.
pub hashed-IsDnsLabel :
    (name hash : Text)
    → IsSafeName name
    → all is_hex hash ≡ true
    → length hash ≡ 8
    → length name ≤ 52
    → IsDnsLabel (name ++ (codes "---" ++ hash))
hashed-IsDnsLabel name hash h digits eight size = record {
  all_safe = ground (
    arith,
    h.all_safe,
    all-append is_safe name (codes "---" ++ hash),
    all_hyphens hash,
    all_weaken is_hex is_safe (λ c hc. alphanum_safe c (hash_char_safe c hc)) hash digits,
  );
  starts = head_sat-append is_lower name _ h.starts;
  ends =
      last_sat-append is_alphanum_lower name b'-' (codes "--" ++ hash)
      ∙ last_hash hash digits eight;
  size = omega (arith, length-append name (codes "---" ++ hash));
}
