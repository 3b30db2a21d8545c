-- ===== src/Utils/Hosts.antt =====
-- `host_matching`: a host against a host or a wildcard.
use kubespawner.Prelude.{
  ℕ, ◌≡◌, ◌↔◌, ◌≢◌, ==_iff, ◌∙◌, sym, ap, refl, Bool, true, false, not, List, [], ◌∷◌, ◌++◌, ◌==◌,
  if◌then◌else◌, ◌&&◌, drop, arith, all, all-uncons,
}
use kubespawner.Text.{Text, codes, text_eq, text_eq_iff, starts_with}

abbrev split_onto : Bool → ℕ → List Text → List Text
split_onto true c parts = [] ∷ parts
split_onto false c [] = (c ∷ []) ∷ []
split_onto false c (p ∷ parts) = (c ∷ p) ∷ parts

-- `s.split(".")`; there is always a part.
unfoldable pub split_dots : Text → List Text
split_dots [] = [] ∷ []
split_dots (c ∷ s) = split_onto (c == b'.') c (split_dots s)

unfoldable pub texts_eq : List Text → List Text → Bool
texts_eq [] [] = true
texts_eq [] (t ∷ ts) = false
texts_eq (s ∷ ss) [] = false
texts_eq (s ∷ ss) (t ∷ ts) = text_eq s t && texts_eq ss ts

unfoldable pub host_matching : (host wildcard : Text) → Bool
host_matching host wildcard =
    if not (starts_with (codes "*.") wildcard)
    then text_eq host wildcard
    else texts_eq (drop 1 (split_dots host)) (drop 1 (split_dots wildcard))

-- A label of a host name: a text without dots.
abbrev pub IsPart : Text → Type 0
IsPart s = all (λ c. not (c == b'.')) s ≡ true

pub texts_eq_iff : (ss ts : List Text) → (texts_eq ss ts ≡ true) ↔ (ss ≡ ts)
unfolding texts_eq
texts_eq_iff [] [] = ground arith
texts_eq_iff [] (t ∷ ts) = ground arith
texts_eq_iff (s ∷ ss) [] = ground arith
texts_eq_iff (s ∷ ss) (t ∷ ts) = ground (arith, texts_eq_iff ss ts, text_eq_iff s t)

pub split_dots-part : (s t : Text) → IsPart s → split_dots (s ++ (b'.' ∷ t)) ≡ s ∷ split_dots t
unfolding split_dots all
split_dots-part [] t h = refl
split_dots-part (c ∷ s) t h =
    let (plain, rest) = all-uncons (λ d. not (d == b'.')) c s h in
    let other : (c == b'.') ≡ false = ground (arith, plain) in
    rw (other, split_dots-part s t rest) refl

-- The parts with the dots between them.
abbrev joined : List Text → Text
joined [] = []
joined (p ∷ []) = p
joined (p ∷ q ∷ parts) = p ++ (b'.' ∷ joined (q ∷ parts))

joined-split_onto :
    (b : Bool) (c : ℕ) (parts : List Text)
    → parts ≢ []
    → (b ≡ true → c ≡ b'.')
    → joined (split_onto b c parts) ≡ c ∷ joined parts
joined-split_onto b c [] h dot = absurd (h refl)
joined-split_onto true c (p ∷ parts) h dot = ap (λ d. d ∷ joined (p ∷ parts)) (sym (dot refl))
joined-split_onto false c (p ∷ []) h dot = refl
joined-split_onto false c (p ∷ q ∷ parts) h dot = refl

split_onto-ne : (b : Bool) (c : ℕ) (parts : List Text) → split_onto b c parts ≢ []
split_onto-ne true c parts e = cc e
split_onto-ne false c [] e = cc e
split_onto-ne false c (p ∷ parts) e = cc e

split_dots-ne : (s : Text) → split_dots s ≢ []
unfolding split_dots
split_dots-ne [] e = cc e
split_dots-ne (c ∷ s) e = split_onto-ne (c == b'.') c (split_dots s) e

joined-split_dots : (s : Text) → joined (split_dots s) ≡ s
unfolding split_dots
joined-split_dots [] = refl
joined-split_dots (c ∷ s) =
    joined-split_onto (c == b'.') c (split_dots s) (split_dots-ne s) (λ e. (==_iff c b'.').0 e)
    ∙ ap (λ t. c ∷ t) (joined-split_dots s)

split_dots_injective : (s t : Text) → split_dots s ≡ split_dots t → s ≡ t
split_dots_injective s t e = sym (joined-split_dots s) ∙ (ap joined e ∙ joined-split_dots t)

-- The wildcard `*.domain` matches a host `label.name`, with a label without dots, exactly if the
-- name is the domain: it stands for one label, not for several.
pub host_matching-wildcard :
    (label domain name : Text)
    → IsPart label
    → (host_matching (label ++ (b'.' ∷ name)) (codes "*." ++ domain) ≡ true) ↔ (name ≡ domain)
unfolding host_matching starts_with
host_matching-wildcard label domain name h =
    let parts : split_dots (codes "*." ++ domain) ≡ codes "*" ∷ split_dots domain =
      split_dots-part (codes "*") domain (unfold all in refl) in
    let test = texts_eq_iff (split_dots name) (split_dots domain) in
    rw (split_dots-part label name h, parts)
      (λ e. split_dots_injective name domain (test.0 e), λ e. test.1 (ap split_dots e))
