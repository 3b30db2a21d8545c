-- ===== src/Slugs/Ends.antt =====
-- How the result of `_extract_safe_name` ends. The docstring says that it always ends with a
-- lowercase letter or a digit; the cut that makes room for `x-` can leave a hyphen there.
use kubespawner.Prelude.{
  ℕ, zero, suc, ◌+◌, ◌-◌, ◌≡◌, refl, ap, leb, ltb, ◌∙◌, inl, inr, Bool, true, false, [], ◌∷◌, ◌++◌,
  some, arith, length, take, is_empty, all, Bool-cases, take_past, append_assoc,
}
use kubespawner.Text.{
  Text, codes, is_lower, is_digit, is_alphanum_lower, head_sat, last_sat, slice_to, lstrip, rstrip,
  utf8,
}
use kubespawner.Text.Chars.{head_alphanum, last_alphanum}
use kubespawner.Text.Strip.{last-rstrip, head-rstrip, is_empty-rstrip, rstrip-append}
use kubespawner.Text.Find.{is_hyphen, alphanum_not_hyphen}
use kubespawner.Slugs.{
  Lower, Hash, sub_runs, stripped_name, prefixed_name, extract_safe_name, short_hash,
  strip_and_hash,
}
use kubespawner.Slugs.Shape.{stripped_name-IsPiece}

-- A name reduced to hyphens, lowercase letters and digits, before it is cut.
abbrev pub reduced : Text → Text
reduced lowered = lstrip b'-' (sub_runs false lowered)

head-take :
    (p : ℕ → Bool) (n : ℕ) (s : Text)
    → is_empty (take n s) ≡ false
    → head_sat p (take n s) ≡ head_sat p s
head-take p zero s h = ground arith
head-take p (suc n) [] h = refl
head-take p (suc n) (c ∷ s) h = refl

head-stripped_name :
    (p : ℕ → Bool) (lowered : Text) (n : ℕ)
    → is_empty (stripped_name lowered n) ≡ false
    → head_sat p (stripped_name lowered n) ≡ head_sat p (reduced lowered)
unfolding stripped_name
head-stripped_name p lowered n h = cc (
  head-rstrip p b'-' (take n (reduced lowered)) h,
  head-take p n (reduced lowered) (is_empty-rstrip b'-' (take n (reduced lowered)) h),
)

last-stripped_name : (lowered : Text) (n : ℕ) → last_sat is_hyphen (stripped_name lowered n) ≡ false
unfolding stripped_name
last-stripped_name lowered n = last-rstrip b'-' (take n (reduced lowered))

letter_first :
    (s : Text)
    → head_sat is_alphanum_lower s ≡ true
    → head_sat is_digit s ≡ false
    → head_sat is_lower s ≡ true
unfolding is_alphanum_lower
letter_first [] h d = h
letter_first (c ∷ s) h d = ground arith

-- If the reduced form of a name does not begin with a digit, the result of `_extract_safe_name`
-- ends with a lowercase letter or a digit.
pub extract_safe_name_ends :
    (lower : Lower) (name : Text) (max_length : ℕ)
    → head_sat is_digit (reduced (lower name)) ≡ false
    → last_sat is_alphanum_lower (extract_safe_name lower name max_length) ≡ true
unfolding extract_safe_name prefixed_name
extract_safe_name_ends lower name n h =
    let s = stripped_name (lower name) n in
    elim (Bool-cases (is_empty s)) [
      | inl e ↦ rw (e, e) (unfold is_alphanum_lower in refl)
      | inr e ↦
          let piece = stripped_name-IsPiece (lower name) n in
          let first =
            letter_first s (head_alphanum s piece.all_safe e piece.no_hyphen_first)
              (head-stripped_name is_digit (lower name) n e ∙ h) in
          rw (e, first, e) (last_alphanum s piece.all_safe e (last-stripped_name (lower name) n))
    ]

sub_runs-alphanum :
    (b : Bool) (c : ℕ) (w t : Text)
    → is_alphanum_lower c ≡ true
    → all is_alphanum_lower w ≡ true
    → sub_runs b (c ∷ (w ++ t)) ≡ c ∷ (w ++ sub_runs false t)
unfolding sub_runs all
sub_runs-alphanum b c [] t hc hw = ground arith
sub_runs-alphanum b c (d ∷ w) t hc hw = ground (arith, sub_runs-alphanum false d w t)

sub_runs-hyphen :
    (c : ℕ) (t : Text)
    → is_alphanum_lower c ≡ true
    → sub_runs false (b'-' ∷ c ∷ t) ≡ b'-' ∷ c ∷ sub_runs false t
unfolding sub_runs is_alphanum_lower
sub_runs-hyphen c t h = ground arith

rstrip_hyphen :
    (a : Text) (c : ℕ) (t : Text)
    → is_alphanum_lower c ≡ true
    → rstrip b'-' (a ++ b'-' ∷ c ∷ t) ≡ a ++ b'-' ∷ c ∷ rstrip b'-' t
rstrip_hyphen a c t h = cc (
  append_assoc a (b'-' ∷ []) (c ∷ t),
  append_assoc a (b'-' ∷ []) (c ∷ rstrip b'-' t),
  rstrip-append b'-' (a ++ b'-' ∷ []) c t (alphanum_not_hyphen c h),
)

lstrip_digit : (d : ℕ) (t : Text) → is_digit d ≡ true → lstrip b'-' (d ∷ t) ≡ d ∷ t
unfolding lstrip is_digit
lstrip_digit d t h = ground arith

digit_alphanum : (d : ℕ) → is_digit d ≡ true → is_alphanum_lower d ≡ true
unfolding is_alphanum_lower
digit_alphanum d h = ground arith

digit_not_lower : (d : ℕ) → is_digit d ≡ true → is_lower d ≡ false
unfolding is_digit is_lower
digit_not_lower d h = ground arith

-- A digit, more letters and digits, a hyphen, and one more letter or digit.
module _ (d : ℕ) (w : Text) (c : ℕ) (rest : Text) (digit : is_digit d ≡ true)
    (letters : all is_alphanum_lower w ≡ true) (after : is_alphanum_lower c ≡ true) where
  reduced_hyphen : reduced (d ∷ (w ++ b'-' ∷ c ∷ rest)) ≡ (d ∷ w) ++ b'-' ∷ c ∷ sub_runs false rest
  reduced_hyphen =
      rw
        (
          sub_runs-alphanum false d w (b'-' ∷ c ∷ rest) (digit_alphanum d digit) letters,
          sub_runs-hyphen c rest after,
        )
        (lstrip_digit d _ digit)

  stripped_name_hyphen :
      (t : Text) × (stripped_name (d ∷ (w ++ b'-' ∷ c ∷ rest)) (length w + 4)
        ≡ (d ∷ w) ++ b'-' ∷ c ∷ t)
  unfolding stripped_name
  stripped_name_hyphen =
      let four : length w + 4 ≡ length (d ∷ w) + 3 = omega arith in
      (
        rstrip b'-' (take 1 (sub_runs false rest)),
        rw (reduced_hyphen, four, take_past (d ∷ w) (b'-' ∷ c ∷ sub_runs false rest) 3)
            (rstrip_hyphen (d ∷ w) c (take 1 (sub_runs false rest)) after),
      )

  prefixed_name_hyphen :
      (t : Text)
      → prefixed_name ((d ∷ w) ++ b'-' ∷ c ∷ t) (length w + 4)
        ≡ codes "x-" ++ ((d ∷ w) ++ b'-' ∷ [])
  unfolding prefixed_name slice_to
  prefixed_name_hyphen t =
      let two : length w + 4 - 2 ≡ length (d ∷ w) + 1 = omega arith in
      let enough : leb 2 (length w + 4) ≡ true = ground arith in
      rw (digit_not_lower d digit, enough, two, take_past (d ∷ w) (b'-' ∷ c ∷ t) 1)

  extract_safe_name_hyphen :
      (lower : Lower) (name : Text)
      → lower name ≡ d ∷ (w ++ b'-' ∷ c ∷ rest)
      → extract_safe_name lower name (length w + 4) ≡ codes "x-" ++ ((d ∷ w) ++ b'-' ∷ [])
  unfolding extract_safe_name
  extract_safe_name_hyphen lower name h =
      rw (h, stripped_name_hyphen.1, prefixed_name_hyphen stripped_name_hyphen.0)

  -- Let a name begin, in lower case, with a digit, letters and digits `w`, a hyphen and a letter
  -- or digit, and let the limit be 15 more than the length of `w`. Then the slug of
  -- `strip_and_hash` has four hyphens before its hash: `x-`, the digit, `w`, `----`, the hash.
  pub strip_and_hash_four_hyphens :
      (lower : Lower) (sha256_hex : Hash) (name : Text)
      → lower name ≡ d ∷ (w ++ b'-' ∷ c ∷ rest)
      → strip_and_hash lower sha256_hex name (length w + 15)
        ≡ some (codes "x-" ++ ((d ∷ w) ++ (codes "----" ++ short_hash sha256_hex (utf8 name))))
  unfolding strip_and_hash
  strip_and_hash_four_hyphens lower sha256_hex name h =
      let room : ltb (length w + 15) 12 ≡ false = ground arith in
      let four : length w + 15 - 11 ≡ length w + 4 = omega arith in
      rw (room, four, extract_safe_name_hyphen lower name h)
        (ap (λ (t : Text). some (codes "x-" ++ d ∷ t)) (append_assoc w (b'-' ∷ []) _))
