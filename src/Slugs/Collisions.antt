-- ===== src/Slugs/Collisions.antt =====
-- Two names share a slug only if their short hashes are the same.
use kubespawner.Prelude.{
  ℕ, ◌-◌, ◌≡◌, ◌∙◌, sym, ap, ◌⊎◌, inl, inr, Bool, true, false, [], ◌∷◌, ◌++◌, Option, some, List,
  arith, length, length-append, append_assoc,
}
use kubespawner.Text.{Text, codes, contains, utf8}
use kubespawner.Text.Find.{has_double-append_hyphens}
use kubespawner.Slugs.{Lower, Hash, extract_safe_name, short_hash, strip_and_hash, or_32, safe_slug}
use kubespawner.Slugs.Valid.{IsHexDigest}
use kubespawner.Slugs.Safe.{safe_slug_cases, length-short_hash}

-- A hashed slug holds `--`, which no name that is left as it is does.
hashed_has_double :
    (name hash : Text) → contains (codes "--") (name ++ (codes "---" ++ hash)) ≡ true
hashed_has_double name hash = has_double-append_hyphens name (b'-' ∷ hash)

-- A hashed slug is a text that ends with the hash and holds `--`.
record IsHashed (hash : Text) (s : Text) : Type 0 where
  prefix : Text
  split : s ≡ prefix ++ hash
  double : contains (codes "--") s ≡ true

strip_and_hash-IsHashed :
    (lower : Lower) (sha256_hex : Hash) (name : Text) (n : ℕ) {s : Text}
    → strip_and_hash lower sha256_hex name n ≡ some s
    → IsHashed (short_hash sha256_hex (utf8 name)) s
unfolding strip_and_hash
strip_and_hash-IsHashed lower sha256_hex name n {s} h =
    let safe_name = extract_safe_name lower name (n - 11) in
    let hash = short_hash sha256_hex (utf8 name) in
    let e : s ≡ safe_name ++ (codes "---" ++ hash) = ground arith in
    record {
      prefix = safe_name ++ codes "---";
      split = e ∙ sym (append_assoc safe_name (codes "---") hash);
      double = rw e (hashed_has_double safe_name hash);
    }

-- Texts of the same length at the end of one text are the same.
append_right_unique {ℓ} :
    {A : Type ℓ} (a b s t : List A) → length s ≡ length t → a ++ s ≡ b ++ t → s ≡ t
append_right_unique [] [] s t e h = h
append_right_unique [] (y ∷ b) s t e h = absurd (omega (arith, ap length h, length-append {_} b t))
append_right_unique (x ∷ a) [] s t e h = absurd (omega (arith, ap length h, length-append {_} a s))
append_right_unique (x ∷ a) (y ∷ b) s t e h = append_right_unique a b s t e (cc)

IsHashed-unique : {f g s : Text} → length f ≡ length g → IsHashed f s → IsHashed g s → f ≡ g
IsHashed-unique {f} {g} {s} e h k =
    append_right_unique h.prefix k.prefix f g e (sym h.split ∙ k.split)

kept_not_hashed :
    {name s hash : Text}
    → contains (codes "--") name ≡ false
    → some name ≡ some s
    → IsHashed hash s
    → ⊥
kept_not_hashed single e h = cc (single, e, h.double)

module _ (lower : Lower) (sha256_hex : Hash) (hex : IsHexDigest sha256_hex) where
  -- If `safe_slug` returns the same slug for two names, under any checks and limits, the names are
  -- equal or the first eight digits of their hashes are.
  pub safe_slug_collision :
      (is_valid is_valid' : Text → Bool) (m m' : Option ℕ) (a b : Text) {s : Text}
      → safe_slug lower sha256_hex is_valid a m ≡ some s
      → safe_slug lower sha256_hex is_valid' b m' ≡ some s
      → (a ≡ b) ⊎ (short_hash sha256_hex (utf8 a) ≡ short_hash sha256_hex (utf8 b))
  safe_slug_collision is_valid is_valid' m m' a b {s} p q =
      elim (safe_slug_cases lower sha256_hex is_valid a m) [
        | inl (ka, ea) ↦ elim (safe_slug_cases lower sha256_hex is_valid' b m') [
          | inl (kb, eb) ↦ inl (cc (p, q, ea, eb))
          | inr eb ↦ absurd (
              kept_not_hashed ka.single (sym ea ∙ p)
                (strip_and_hash-IsHashed lower sha256_hex b (or_32 m') (sym eb ∙ q)))
        ]
        | inr ea ↦ elim (safe_slug_cases lower sha256_hex is_valid' b m') [
          | inl (kb, eb) ↦ absurd (
              kept_not_hashed kb.single (sym eb ∙ q)
                (strip_and_hash-IsHashed lower sha256_hex a (or_32 m) (sym ea ∙ p)))
          | inr eb ↦ inr (
              IsHashed-unique
                (cc (
                  length-short_hash sha256_hex (utf8 a) hex,
                  length-short_hash sha256_hex (utf8 b) hex,
                ))
                (strip_and_hash-IsHashed lower sha256_hex a (or_32 m) (sym ea ∙ p))
                (strip_and_hash-IsHashed lower sha256_hex b (or_32 m') (sym eb ∙ q)))
        ]
      ]
