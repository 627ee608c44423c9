-- ===== src/Base/Texts.antt =====
-- Texts put together.
use Prim.Native.String.{String, ◌++◌}
use mathlib.Core.List.{List}

-- `strings.Join(parts, "")`, and Go's `+` on strings.
unfoldable pub joined : List String → String
joined List.[] = ""
joined (List.◌∷◌ s r) = s ++ joined r
