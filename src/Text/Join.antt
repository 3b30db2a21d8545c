-- ===== src/Text/Join.antt =====
-- `sep.join(parts)` and `s.split(sep)` for a separator of one character.
use kubespawner.Prelude.{List, [], ◌∷◌, ◌++◌}
use kubespawner.Text.Chars.{Text}

unfoldable pub join_rest : Text → List Text → Text
join_rest sep [] = []
join_rest sep (p ∷ ps) = sep ++ (p ++ join_rest sep ps)

unfoldable pub join : Text → List Text → Text
unfolding join_rest
join sep [] = []
join sep (p ∷ ps) = p ++ join_rest sep ps
