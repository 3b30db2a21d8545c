-- ===== src/Slugs.antt =====
-- kubespawner/slugs.py. `lower` is Python's `str.lower` (its Unicode tables are not modelled) and
-- `sha256_hex` is `hashlib.sha256(_).hexdigest()`; both are arguments. `ValueError` is `none`.
pub mod Shape
pub mod Ends
pub mod Valid
pub mod Safe
pub mod Multi
pub mod Labels
mod Tests
pub mod Collisions
use kubespawner.Prelude.{
  ℕ, suc, ◌+◌, ◌-◌, ◌/◌, Bool, true, false, not, ◌&&◌, ◌||◌, Option, none, some, List, [], ◌∷◌,
  ◌++◌, map, ltb, leb, ◌==◌, if◌then◌else◌, length, take, drop, is_empty, all,
}
use kubespawner.Text.{
  Text, codes, is_lower, is_upper, is_digit, is_alphanum_lower, is_alphanum, is_safe, head_sat,
  last_sat, slice_to, lstrip, rstrip, contains, join, utf8,
}

-- `s.lower()`, `hashlib.sha256(b).hexdigest()`
abbrev pub Lower : Type 0
Lower = Text → Text

abbrev pub Hash : Type 0
Hash = List ℕ → Text

-- `_hash_length`
abbrev pub hash_length : ℕ
hash_length = 8

-- `$` also matches before a newline that ends the text.
unfoldable pub only : (ℕ → Bool) → Text → Bool
only p [] = true
only p (c ∷ s) = (p c && only p s) || (c == 10 && is_empty s)

-- `re.compile(r'^[…]+$').match(s)` for a class of characters.
unfoldable pub pattern_plus : (ℕ → Bool) → Text → Bool
unfolding only
pattern_plus p [] = false
pattern_plus p (c ∷ s) = p c && only p s

-- `_object_pattern`
unfoldable pub object_pattern : Text → Bool
object_pattern = pattern_plus is_safe

-- `[a-z0-9\.\-_]` under `re.IGNORECASE`, where `[a-z]` matches four letters outside ASCII too.
unfoldable pub is_label_char : ℕ → Bool
unfolding is_alphanum
is_label_char c =
    is_alphanum c
    || c == b'.'
    || c == b'-'
    || c == b'_'
    || c == 0x130
    || c == 0x131
    || c == 0x17f
    || c == 0x212a

-- `_label_pattern`
unfoldable pub label_pattern : Text → Bool
label_pattern = pattern_plus is_label_char

-- A length bound that is `None` or 0 is not tested.
abbrev too_short : Option ℕ → Text → Bool
too_short none s = false
too_short (some n) s = not (n == 0) && ltb (length s) n

abbrev too_long : Option ℕ → Text → Bool
too_long none s = false
too_long (some n) s = not (n == 0) && ltb n (length s)

-- `_is_valid_general`, with every test of its callers given but the two lengths.
unfoldable pub is_valid_general :
    (starts_with ends_with : ℕ → Bool) (pattern : Text → Bool) (min_length max_length : Option ℕ)
    → Text
    → Bool
is_valid_general starts_with ends_with pattern min_length max_length s =
    if too_short min_length s
    then false
    else if too_long max_length s
    then false
    else if not (head_sat starts_with s)
    then false
    else if not (last_sat ends_with s)
    then false
    else if not (pattern s)
    then false
    else true

unfoldable pub is_valid_object_name : Text → Bool
is_valid_object_name = is_valid_general is_lower is_alphanum_lower object_pattern (some 1) (some 63)

unfoldable pub is_valid_label : Text → Bool
is_valid_label s =
    if is_empty s
    then true
    else is_valid_general is_alphanum is_alphanum label_pattern none (some 63) s

unfoldable pub is_valid_default : Text → Bool
unfolding is_valid_object_name
is_valid_default s = is_valid_object_name s

-- `_non_alphanum_pattern.sub("-", s)`; the flag says that the character before was replaced.
unfoldable pub sub_runs : Bool → Text → Text
unfolding is_alphanum_lower
sub_runs in_run [] = []
sub_runs in_run (c ∷ s) = elim (is_alphanum_lower c) [
  | true ↦ c ∷ sub_runs false s
  | false ↦ elim in_run [ true ↦ sub_runs true s | false ↦ b'-' ∷ sub_runs true s ]
]

-- `safe_name` after the first two assignments of `_extract_safe_name`.
unfoldable pub stripped_name : Text → ℕ → Text
stripped_name lowered max_length =
    rstrip b'-' (take max_length (lstrip b'-' (sub_runs false lowered)))

unfoldable pub prefixed_name : Text → ℕ → Text
prefixed_name safe_name max_length =
    if not (is_empty safe_name) && not (head_sat is_lower safe_name)
    then codes "x-" ++ slice_to safe_name max_length 2
    else safe_name

-- `_extract_safe_name`
unfoldable pub extract_safe_name : Lower → Text → ℕ → Text
extract_safe_name lower name max_length =
    let safe_name = prefixed_name (stripped_name (lower name) max_length) max_length in
    if is_empty safe_name then codes "x" else safe_name

-- `hashlib.sha256(…).hexdigest()[:_hash_length]`
unfoldable pub short_hash : Hash → List ℕ → Text
short_hash sha256_hex bytes = take hash_length (sha256_hex bytes)

-- `max_length - (_hash_length + 3) < 1` is tested on the integers.
unfoldable pub strip_and_hash : Lower → Hash → Text → ℕ → Option Text
strip_and_hash lower sha256_hex name max_length =
    if ltb max_length (hash_length + 3 + 1)
    then none
    else some (
        extract_safe_name lower name (max_length - (hash_length + 3))
        ++ (codes "---" ++ short_hash sha256_hex (utf8 name)))

-- `max_length or 32`
abbrev pub or_32 : Option ℕ → ℕ
or_32 none = 32
or_32 (some n) = if n == 0 then 32 else n

abbrev pub fits : Option ℕ → Text → Bool
fits none name = true
fits (some n) name = leb (length name) n

unfoldable pub safe_slug : Lower → Hash → (Text → Bool) → Text → Option ℕ → Option Text
safe_slug lower sha256_hex is_valid name max_length =
    if contains (codes "--") name
    then strip_and_hash lower sha256_hex name (or_32 max_length)
    else if is_valid name && fits max_length name
    then some name
    else strip_and_hash lower sha256_hex name (or_32 max_length)

-- The bytes that `multi_slug` feeds to its hasher; `update` calls in turn hash their concatenation.
unfoldable pub hash_input_rest : List Text → List ℕ
hash_input_rest [] = []
hash_input_rest (name ∷ names) = 0xff ∷ utf8 name ++ hash_input_rest names

unfoldable pub hash_input : List Text → List ℕ
hash_input [] = []
hash_input (name ∷ names) = utf8 name ++ hash_input_rest names

-- The share of each name. `names[0]` raises on an empty list, which no caller passes: `none`.
-- `per_name - 2 < 2` is tested on the integers; where `available_chars` is negative there, it is
-- 0 here, and both quotients are below 4.
unfoldable pub name_max_length : ℕ → ℕ → Option ℕ
name_max_length count max_length =
    let per_name = (max_length - (hash_length + 1)) / count in
    if count == 0 then none else if ltb per_name 4 then none else some (per_name - 2)

unfoldable pub multi_slug : Lower → Hash → List Text → ℕ → Option Text
multi_slug lower sha256_hex names max_length = elim (name_max_length (length names) max_length) [
  | none ↦ none
  | some n ↦ some (
      join (codes "--") (map (λ name. extract_safe_name lower name n) names)
      ++ (codes "---" ++ short_hash sha256_hex (hash_input names)))
]
