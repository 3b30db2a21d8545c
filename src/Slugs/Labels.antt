-- ===== src/Slugs/Labels.antt =====
-- `is_valid_label` against the syntax of Kubernetes label values.
use kubespawner.Prelude.{
  ℕ, ◌≤◌, ◌≡◌, ◌↔◌, refl, ◌∙◌, ◌⊎◌, inl, inr, Bool, true, false, ◌||◌, [], ◌∷◌, Returns,
  Returns-map, none, arith, ◌==◌, ltb, length, all, all-uncons, all_cons, all_weaken,
}
use kubespawner.Text.{Text, is_lower, is_alphanum_lower, is_alphanum, is_safe, head_sat, last_sat}
use kubespawner.Text.Chars.{last_weaken}
use kubespawner.Slugs.{Lower, Hash, only, label_pattern, is_label_char, is_valid_label, safe_slug}
use kubespawner.Slugs.Valid.{
  IsHexDigest, IsDnsLabel, general_iff, only_safe, only-cons, pattern_only, pattern_plus-only,
}
use kubespawner.Slugs.Safe.{IsSlug, or_32-IsSlug, safe_slug_cases}

-- A character of a label value: a letter, a digit, `.`, `-` or `_`.
unfoldable pub is_value_char : ℕ → Bool
unfolding is_alphanum
is_value_char c = is_alphanum c || c == b'.' || c == b'-' || c == b'_'

-- A label value that is not empty: 63 characters at most, a letter or digit at both ends.
pub record IsLabelValue (s : Text) : Type 0 where
  pub all_value : all is_value_char s ≡ true
  pub starts : head_sat is_alphanum s ≡ true
  pub ends : last_sat is_alphanum s ≡ true
  pub size : length s ≤ 63

abbrev pub is_ascii : ℕ → Bool
is_ascii c = ltb c 128

value_label : (c : ℕ) → is_value_char c ≡ true → is_label_char c ≡ true
unfolding is_value_char is_label_char
value_label c h = ground arith

label_value : (c : ℕ) → is_ascii c ≡ true → is_label_char c ≡ true → is_value_char c ≡ true
unfolding is_value_char is_label_char
label_value c a h = ground arith

alphanum_value : (c : ℕ) → is_alphanum c ≡ true → is_value_char c ≡ true
unfolding is_value_char
alphanum_value c h = ground arith

safe_value : (c : ℕ) → is_safe c ≡ true → is_value_char c ≡ true
unfolding is_value_char is_safe is_alphanum_lower
safe_value c h = ground arith

lower_alphanum : (c : ℕ) → is_alphanum_lower c ≡ true → is_alphanum c ≡ true
unfolding is_alphanum is_alphanum_lower
lower_alphanum c h = ground arith

only_value :
    (s : Text)
    → all is_ascii s ≡ true
    → last_sat is_alphanum s ≡ true
    → only is_label_char s ≡ true
    → all is_value_char s ≡ true
only_value [] a e h = unfold all in refl
only_value (c ∷ []) a e h = all_cons is_value_char c [] (alphanum_value c e) (unfold all in refl)
only_value (c ∷ d ∷ s) a e h =
    let (hc, hs) = only-cons is_label_char c d s h in
    let (ac, as') = all-uncons is_ascii c (d ∷ s) a in
    all_cons is_value_char c (d ∷ s) (label_value c ac hc) (only_value (d ∷ s) as' e hs)

value_pattern : (c : ℕ) (s : Text) → all is_value_char (c ∷ s) ≡ true → label_pattern (c ∷ s) ≡ true
unfolding label_pattern
value_pattern c s h =
    let (hc, hs) = all-uncons is_value_char c s h in
    pattern_only is_label_char c s (value_label c hc)
    ∙ only_safe is_label_char s (all_weaken is_value_char is_label_char value_label s hs)

-- Among ASCII texts, `is_valid_label` accepts exactly the empty text and the label values of
-- Kubernetes.
pub is_valid_label_iff :
    (s : Text) → all is_ascii s ≡ true → (is_valid_label s ≡ true) ↔ ((s ≡ []) ⊎ IsLabelValue s)
unfolding is_valid_label
is_valid_label_iff [] a = (λ h. inl refl, λ h. refl)
is_valid_label_iff (c ∷ s) a =
    let (accepted, accepts) = general_iff is_alphanum is_alphanum label_pattern (c ∷ s) in
    (
      (λ h.
          let (size, starts, ends, pattern) = accepted h in
          let o = pattern_plus-only is_label_char c s (unfold label_pattern in pattern) in
          inr (record {
            all_value = only_value (c ∷ s) a ends o;
            starts = starts;
            ends = ends;
            size = size;
          })),
      (λ h. elim h [
        | inl e ↦ cc
        | inr v ↦ accepts (v.size, v.starts, v.ends, value_pattern c s v.all_value)
      ]),
    )

folded_label :
    (c : ℕ)
    → (c ≡ 0x130) ⊎ (c ≡ 0x131) ⊎ (c ≡ 0x17f) ⊎ (c ≡ 0x212a)
    → (is_label_char c ≡ true) × (is_value_char c ≡ false)
unfolding is_label_char is_value_char
folded_label c h = ground arith

alphanum_label : (c : ℕ) → is_alphanum c ≡ true → is_label_char c ≡ true
unfolding is_label_char
alphanum_label c h = ground arith

all_pair : (p : ℕ → Bool) {a b : ℕ} → p a ≡ true → p b ≡ true → all p (a ∷ b ∷ []) ≡ true
unfolding all
all_pair p ha hb = ground arith

-- `is_valid_label` accepts a letter or digit, one of the four letters outside ASCII that
-- `re.IGNORECASE` adds to `[a-z]`, and a letter or digit; it is no label value of Kubernetes.
pub is_valid_label_folded :
    (a c b : ℕ)
    → is_alphanum a ≡ true
    → is_alphanum b ≡ true
    → (c ≡ 0x130) ⊎ (c ≡ 0x131) ⊎ (c ≡ 0x17f) ⊎ (c ≡ 0x212a)
    → (is_valid_label (a ∷ c ∷ b ∷ []) ≡ true) × ¬ IsLabelValue (a ∷ c ∷ b ∷ [])
unfolding is_valid_label
is_valid_label_folded a c b ha hb h =
    let label = folded_label c h in
    let (accepted, accepts) = general_iff is_alphanum is_alphanum label_pattern (a ∷ c ∷ b ∷ []) in
    let rest =
      only_safe is_label_char (c ∷ b ∷ []) (all_pair is_label_char label.0 (alphanum_label b hb)) in
    (
      accepts (
        omega arith,
        ha,
        hb,
        unfold label_pattern in
            (pattern_only is_label_char a (c ∷ b ∷ []) (alphanum_label a ha) ∙ rest),
      ),
      λ v. cc (
        label.1,
        (all-uncons is_value_char c (b ∷ [])
            (all-uncons is_value_char a (c ∷ b ∷ []) v.all_value).1).0,
      ),
    )

head_weaken : (s : Text) → head_sat is_lower s ≡ true → head_sat is_alphanum s ≡ true
unfolding is_lower is_alphanum
head_weaken [] h = ground arith
head_weaken (c ∷ s) h = ground arith

dns_value : {s : Text} → IsDnsLabel s → IsLabelValue s
dns_value {s} d = record {
  all_value = all_weaken is_safe is_value_char safe_value s d.all_safe;
  starts = head_weaken s d.starts;
  ends = last_weaken is_alphanum_lower is_alphanum lower_alphanum s d.ends;
  size = d.size;
}

-- For every ASCII name, the slug for a label is a label value or empty, if digests are 64
-- lowercase hexadecimal digits.
pub safe_slug-IsLabelValue :
    (lower : Lower) (sha256_hex : Hash) (name : Text)
    → IsHexDigest sha256_hex
    → all is_ascii name ≡ true
    → Returns (λ s. (s ≡ []) ⊎ IsLabelValue s) (safe_slug lower sha256_hex is_valid_label name none)
safe_slug-IsLabelValue lower sha256_hex name hex a =
    elim (safe_slug_cases lower sha256_hex is_valid_label name none) [
      | inl (kept, e) ↦ rw e ((is_valid_label_iff name a).0 kept.valid)
      | inr e ↦ rw e (
          Returns-map {P = IsSlug 63} (λ s h. inr (dns_value h.dns_label)) _
            (or_32-IsSlug lower sha256_hex hex name none tt))
    ]
