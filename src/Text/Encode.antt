-- ===== src/Text/Encode.antt =====
-- `name.encode("utf8")`. A text with lone surrogates, on which Python raises, is outside the model.
use kubespawner.Prelude.{
  all, all-uncons, append_assoc, refl, sym, ◌∙◌, true, ltb→lt, ℕ, ◌+◌, ◌/◌, ◌%◌, ◌<◌, ◌≡◌, Bool,
  List, [], ◌∷◌, ◌++◌, arith, ltb, if◌then◌else◌,
}
use kubespawner.Text.Chars.{Text}

unfoldable pub utf8_char : ℕ → List ℕ
utf8_char c =
    if ltb c 0x80
    then c ∷ []
    else if ltb c 0x800
    then (0xc0 + c / 64) ∷ (0x80 + c % 64) ∷ []
    else if ltb c 0x1_0000
    then (0xe0 + c / 4096) ∷ (0x80 + c / 64 % 64) ∷ (0x80 + c % 64) ∷ []
    else (0xf0 + c / 0x4_0000)
      ∷ (0x80 + c / 4096 % 64)
      ∷ (0x80 + c / 64 % 64)
      ∷ (0x80 + c % 64)
      ∷ []

unfoldable pub utf8 : Text → List ℕ
unfolding utf8_char
utf8 [] = []
utf8 (c ∷ s) = utf8_char c ++ utf8 s

-- Below the end of Unicode.
abbrev pub is_code_point : ℕ → Bool
is_code_point c = ltb c 0x11_0000

-- No character's bytes are the beginning of another's.
pub utf8_char_prefix :
    (c d : ℕ) (r t : List ℕ)
    → c < 0x11_0000
    → d < 0x11_0000
    → utf8_char c ++ r ≡ utf8_char d ++ t
    → (c ≡ d) × (r ≡ t)
unfolding utf8_char
utf8_char_prefix c d r t hc hd h = ground arith

-- A delimiter that no text contains stands behind the text, or nothing does.
abbrev pub IsDelimited : List ℕ → Type 0
IsDelimited [] = Unit
IsDelimited (b ∷ r) = b ≡ 0xff

utf8_char_not_delimited :
    (c : ℕ) (r t : List ℕ) → c < 0x11_0000 → IsDelimited t → t ≡ utf8_char c ++ r → ⊥
unfolding utf8_char
utf8_char_not_delimited c r [] hc d h = ground arith
utf8_char_not_delimited c r (b ∷ t) hc d h = ground arith

-- Below the end of Unicode, for every character.
abbrev pub is_encodable : Text → Bool
is_encodable = all is_code_point

-- A text and a delimited rest are read back from their bytes.
pub utf8_delimited :
    (s t : Text) (r u : List ℕ)
    → is_encodable s ≡ true
    → is_encodable t ≡ true
    → IsDelimited r
    → IsDelimited u
    → utf8 s ++ r ≡ utf8 t ++ u
    → (s ≡ t) × (r ≡ u)
unfolding utf8
utf8_delimited [] [] r u es et dr du h = (refl, h)
utf8_delimited [] (d ∷ t) r u es et dr du h =
    let (hd, ht) = all-uncons is_code_point d t et in
    absurd (
      utf8_char_not_delimited d (utf8 t ++ u) r (ltb→lt _ _ hd) dr
        (h ∙ append_assoc (utf8_char d) (utf8 t) u))
utf8_delimited (c ∷ s) [] r u es et dr du h =
    let (hc, hs) = all-uncons is_code_point c s es in
    absurd (
      utf8_char_not_delimited c (utf8 s ++ r) u (ltb→lt _ _ hc) du
        (sym h ∙ append_assoc (utf8_char c) (utf8 s) r))
utf8_delimited (c ∷ s) (d ∷ t) r u es et dr du h =
    let (hc, hs) = all-uncons is_code_point c s es in
    let (hd, ht) = all-uncons is_code_point d t et in
    let (same, rest) =
      utf8_char_prefix c d (utf8 s ++ r) (utf8 t ++ u) (ltb→lt _ _ hc) (ltb→lt _ _ hd)
        (sym (append_assoc (utf8_char c) (utf8 s) r) ∙ h ∙ append_assoc (utf8_char d) (utf8 t) u) in
    let (tails, left) = utf8_delimited s t r u hs ht dr du rest in (cc (same, tails), left)
