-- ===== src/Slugs/Tests.antt =====
-- Runs of slugs.py, with ASCII `str.lower` and a constant digest, and instances of the theorems.
use kubespawner.Prelude.{
  ◌≡◌, ◌↔◌, refl, ◌⊎◌, true, [], ◌∷◌, ◌++◌, none, some, arith, length, all, map, Returns, ◌<◌, ◌/◌,
  ◌-◌,
}
use kubespawner.Text.{
  Text, codes, to_lower_ascii, utf8, is_lower, is_digit, is_alphanum_lower, is_safe, contains,
  lstrip, rstrip, slice_to, join,
}
use kubespawner.Slugs.{
  Lower, Hash, is_valid_default, is_valid_label, is_valid_object_name, is_valid_general,
  object_pattern, pattern_plus, only, sub_runs, stripped_name, prefixed_name, extract_safe_name,
  short_hash, strip_and_hash, safe_slug, name_max_length, multi_slug,
}
use kubespawner.Slugs.Ends.{strip_and_hash_four_hyphens}
use kubespawner.Slugs.Valid.{is_hex, IsHexDigest, IsDnsLabel, is_valid_object_name_iff}
use kubespawner.Slugs.Safe.{IsSlug, limit_of, safe_slug-IsSlug}
use kubespawner.Slugs.Collisions.{safe_slug_collision}
use kubespawner.Slugs.Multi.{hash_input_injective, multi_slug-none_iff}
use kubespawner.Slugs.Labels.{IsLabelValue, is_valid_label_iff}

abbrev ascii_lower : Lower
ascii_lower = map to_lower_ascii

abbrev digest : Hash
digest b = codes "c0ffee42c0ffee42c0ffee42c0ffee42c0ffee42c0ffee42c0ffee42c0ffee42"

digest-IsHexDigest : IsHexDigest digest
unfolding all is_hex
digest-IsHexDigest = record { digits = λ b. refl; size = λ b. refl }

-- `tests/test_slugs.py`
slug_plain :
    safe_slug ascii_lower digest is_valid_default (codes "jupyter-alex") none
    ≡ some (codes "jupyter-alex")
unfolding safe_slug contains is_valid_default is_valid_object_name is_valid_general object_pattern
    pattern_plus only is_lower is_alphanum_lower is_safe
slug_plain = refl

slug_upper :
    safe_slug ascii_lower digest is_valid_default (codes "jupyter-Alex") none
    ≡ some (codes "jupyter-alex---c0ffee42")
unfolding safe_slug contains is_valid_default is_valid_object_name is_valid_general object_pattern
    pattern_plus only is_lower is_alphanum_lower is_safe strip_and_hash extract_safe_name
    stripped_name prefixed_name sub_runs lstrip rstrip slice_to short_hash to_lower_ascii
slug_upper = refl

abbrev nine_alex : Text
nine_alex = codes "9lex-Ada"

extract_digit : extract_safe_name ascii_lower nine_alex 20 ≡ codes "x-9lex-ada"
unfolding extract_safe_name stripped_name prefixed_name sub_runs lstrip rstrip slice_to
    to_lower_ascii is_lower is_alphanum_lower
extract_digit = refl

-- The limit is 15 and the name reads `9-a`, so that `w` is empty.
strip_and_hash_four_hyphens_example :
    strip_and_hash ascii_lower digest (codes "9-A") 15
    ≡ some (codes "x-9----" ++ short_hash digest (utf8 (codes "9-A")))
unfolding to_lower_ascii is_digit is_alphanum_lower all
strip_and_hash_four_hyphens_example =
    strip_and_hash_four_hyphens b'9' [] b'a' [] refl refl refl ascii_lower digest (codes "9-A") refl

is_valid_object_name_iff_example : (is_valid_object_name nine_alex ≡ true) ↔ IsDnsLabel nine_alex
is_valid_object_name_iff_example = is_valid_object_name_iff nine_alex

safe_slug-IsSlug_example :
    Returns
      (IsSlug (limit_of (some 48)))
      (safe_slug ascii_lower digest is_valid_default nine_alex (some 48))
safe_slug-IsSlug_example =
    safe_slug-IsSlug ascii_lower digest digest-IsHexDigest nine_alex (some 48)
      (omega arith, omega arith)

safe_slug_collision_example :
    (codes "jupyter-Alex" ≡ codes "jupyter-aLex")
    ⊎ (short_hash digest (utf8 (codes "jupyter-Alex"))
        ≡ short_hash digest (utf8 (codes "jupyter-aLex")))
unfolding safe_slug contains is_valid_default is_valid_object_name is_valid_general object_pattern
    pattern_plus only is_lower is_alphanum_lower is_safe strip_and_hash extract_safe_name
    stripped_name prefixed_name sub_runs lstrip rstrip slice_to short_hash to_lower_ascii
safe_slug_collision_example =
    safe_slug_collision ascii_lower digest digest-IsHexDigest is_valid_default is_valid_default none
      none (codes "jupyter-Alex") (codes "jupyter-aLex") slug_upper refl

hash_input_injective_example : codes "ab" ∷ codes "c" ∷ [] ≡ codes "ab" ∷ codes "c" ∷ []
unfolding all
hash_input_injective_example =
    hash_input_injective (codes "ab") (codes "ab") (codes "c" ∷ []) (codes "c" ∷ []) refl refl refl

multi_slug-none_iff_example :
    (multi_slug ascii_lower digest (codes "a" ∷ codes "b" ∷ []) 16 ≡ none)
    ↔ ((length (codes "a" ∷ codes "b" ∷ []) ≡ 0) ⊎ ((16 - 9) / 2 < 4))
multi_slug-none_iff_example = multi_slug-none_iff ascii_lower digest (codes "a" ∷ codes "b" ∷ []) 16

multi_run :
    multi_slug ascii_lower digest (codes "Ada" ∷ codes "9lives" ∷ []) 28
    ≡ some (codes "ada--x-9live---c0ffee42")
unfolding multi_slug name_max_length extract_safe_name stripped_name prefixed_name sub_runs lstrip
    rstrip slice_to short_hash to_lower_ascii is_lower is_alphanum_lower join
multi_run = refl

is_valid_label_iff_example :
    (is_valid_label (codes "A_1") ≡ true) ↔ ((codes "A_1" ≡ []) ⊎ IsLabelValue (codes "A_1"))
unfolding all
is_valid_label_iff_example = is_valid_label_iff (codes "A_1") refl
