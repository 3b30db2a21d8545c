-- ===== src/Slugs/Shape.antt =====
-- What `_extract_safe_name` guarantees for every name, and every `str.lower`.
use kubespawner.Prelude.{
  ℕ, ◌≤◌, ◌≡◌, refl, sym, ◌⊎◌, inl, inr, Bool, true, false, [], ◌∷◌, ◌++◌, arith, length, take,
  is_empty, all, Bool-cases, all-take, length-take-le,
}
use kubespawner.Text.{Text, codes, is_lower, is_safe, head_sat, lstrip, rstrip, contains}
use kubespawner.Text.Chars.{slice_to-eq-take, length-slice_to}
use kubespawner.Text.Strip.{head-lstrip, length-rstrip, all-lstrip, all-rstrip}
use kubespawner.Text.Find.{
  is_hyphen, has_double, has_double-cons, has_double-lstrip, has_double-take, has_double-rstrip,
  has_double_nil, head_hyphen-take, head_hyphen-rstrip, alphanum_not_hyphen,
}
use kubespawner.Slugs.{Lower, sub_runs, stripped_name, prefixed_name, extract_safe_name}

all_safe-sub_runs : (in_run : Bool) (s : Text) → all is_safe (sub_runs in_run s) ≡ true
unfolding sub_runs all is_safe
all_safe-sub_runs in_run [] = refl
all_safe-sub_runs in_run (c ∷ s) =
    ground (arith, all_safe-sub_runs false s, all_safe-sub_runs true s)

-- Behind a replaced character no second hyphen is written.
sub_runs_single :
    (in_run : Bool) (s : Text)
    → (has_double (sub_runs in_run s) ≡ false)
      × (in_run ≡ true → head_sat is_hyphen (sub_runs in_run s) ≡ false)
unfolding sub_runs
sub_runs_single in_run [] = (has_double_nil, λ h. refl)
sub_runs_single in_run (c ∷ s) = ground (
  arith,
  sub_runs_single true s,
  sub_runs_single false s,
  has_double-cons c (sub_runs false s),
  has_double-cons b'-' (sub_runs true s),
  alphanum_not_hyphen c,
)

-- A text of safe characters with no `--`, which does not begin with a hyphen.
pub record IsPiece (s : Text) : Type 0 where
  pub all_safe : all is_safe s ≡ true
  pub single : has_double s ≡ false
  pub no_hyphen_first : head_sat is_hyphen s ≡ false

IsPiece-take : (n : ℕ) {s : Text} → IsPiece s → IsPiece (take n s)
IsPiece-take n {s} h = record {
  all_safe = all-take is_safe n s h.all_safe;
  single = has_double-take n s h.single;
  no_hyphen_first = head_hyphen-take n s h.no_hyphen_first;
}

IsPiece-rstrip : {s : Text} → IsPiece s → IsPiece (rstrip b'-' s)
IsPiece-rstrip {s} h = record {
  all_safe = all-rstrip is_safe b'-' s h.all_safe;
  single = has_double-rstrip s h.single;
  no_hyphen_first = head_hyphen-rstrip s h.no_hyphen_first;
}

sub_runs-IsPiece : (lowered : Text) → IsPiece (lstrip b'-' (sub_runs false lowered))
sub_runs-IsPiece lowered = record {
  all_safe = all-lstrip is_safe b'-' _ (all_safe-sub_runs false lowered);
  single = has_double-lstrip _ (sub_runs_single false lowered).0;
  no_hyphen_first = head-lstrip b'-' (sub_runs false lowered);
}

pub stripped_name-IsPiece : (lowered : Text) (n : ℕ) → IsPiece (stripped_name lowered n)
unfolding stripped_name
stripped_name-IsPiece lowered n = IsPiece-rstrip (IsPiece-take n (sub_runs-IsPiece lowered))

pub length-stripped_name : (lowered : Text) (n : ℕ) → length (stripped_name lowered n) ≤ n
unfolding stripped_name
length-stripped_name lowered n = omega (
  arith,
  length-rstrip b'-' (take n (lstrip b'-' (sub_runs false lowered))),
  length-take-le n (lstrip b'-' (sub_runs false lowered)),
)

-- What the docstring of `_extract_safe_name` says of a result, but for its length and its end.
pub record IsSafeName (s : Text) : Type 0 where
  pub all_safe : all is_safe s ≡ true
  pub single : has_double s ≡ false
  pub starts : head_sat is_lower s ≡ true

-- `x-` in front of a piece is a safe name.
x_hyphen-IsSafeName : {s : Text} → IsPiece s → IsSafeName (codes "x-" ++ s)
x_hyphen-IsSafeName {s} h = record {
  all_safe = unfold all is_safe in h.all_safe;
  single =
      ground (
        arith,
        h.single,
        h.no_hyphen_first,
        has_double-cons b'x' (b'-' ∷ s),
        has_double-cons b'-' s,
      );
  starts = unfold is_lower in refl;
}

x-IsSafeName : IsSafeName (codes "x")
x-IsSafeName = record {
  all_safe = unfold all is_safe in refl;
  single = unfold contains in refl;
  starts = unfold is_lower in refl;
}

IsSafeName-nonempty : (s : Text) → IsSafeName s → is_empty s ≡ false
IsSafeName-nonempty [] h = sym h.starts
IsSafeName-nonempty (c ∷ s) h = refl

prefixed_name-IsSafeName :
    (s : Text) (n : ℕ)
    → IsPiece s
    → (is_empty (prefixed_name s n) ≡ true) ⊎ IsSafeName (prefixed_name s n)
unfolding prefixed_name
prefixed_name-IsSafeName [] n h = inl refl
prefixed_name-IsSafeName (c ∷ s) n h =
    let (m, cut) = slice_to-eq-take (c ∷ s) n 2 in
    elim (Bool-cases (is_lower c)) [
      | inl lower ↦
          rw lower (inr (record { all_safe = h.all_safe; single = h.single; starts = lower }))
      | inr other ↦ rw other (inr (rw cut (x_hyphen-IsSafeName (IsPiece-take m h))))
    ]

-- For every name, length limit and `str.lower`, the result of `_extract_safe_name` holds only
-- lowercase letters, digits and hyphens, has no two hyphens in a row, and begins with a lowercase
-- letter, so it is not empty.
pub extract_safe_name-IsSafeName :
    (lower : Lower) (name : Text) (max_length : ℕ)
    → IsSafeName (extract_safe_name lower name max_length)
unfolding extract_safe_name
extract_safe_name-IsSafeName lower name n =
    let s = prefixed_name (stripped_name (lower name) n) n in
    elim (prefixed_name-IsSafeName (stripped_name (lower name) n) n (stripped_name-IsPiece _ n)) [
      | inl e ↦ rw e x-IsSafeName
      | inr h ↦ rw (IsSafeName-nonempty s h) h
    ]

length-prefixed_name : (s : Text) (n : ℕ) → length s ≤ n → 2 ≤ n → length (prefixed_name s n) ≤ n
unfolding prefixed_name
length-prefixed_name s n h two = ground (arith, length-slice_to s n 2)

-- The result is no longer than the limit, if the limit is at least 2.
pub length-extract_safe_name :
    (lower : Lower) (name : Text) (max_length : ℕ)
    → 2 ≤ max_length
    → length (extract_safe_name lower name max_length) ≤ max_length
unfolding extract_safe_name
length-extract_safe_name lower name n two = ground (
  arith,
  length-prefixed_name (stripped_name (lower name) n) n,
  length-stripped_name (lower name) n,
)
