-- ===== src/Prelude/Texts.antt =====
-- Python's str.split, join and prefixes of texts.
use mathlib.Core.Bool.{Bool, true, false}
use mathlib.Core.List.{List, [], ◌∷◌}
use Prim.Native.String.{String, ◌++◌}
use Prim.Native.Char.{code}
use text.Mathlib.Text.{◌==◌ as str_eq}
use lumine_hedge_fund.Prelude.Tests.{◌==◌, if◌then◌else◌}

unfoldable pub longer : String → List String → List String
longer c [] = c ∷ []
longer c (part ∷ parts) = (c ++ part) ∷ parts

-- `text.split(separator)`, for a separator of one character.
unfoldable pub split : String → String → List String
unfolding longer
split separator String.[] = "" ∷ []
split separator (String.◌∷◌ c text) =
    let parts = split separator text in
    if str_eq (String.◌∷◌ c String.[]) separator
    then "" ∷ parts
    else longer (String.◌∷◌ c String.[]) parts

-- `separator.join(parts)`
unfoldable pub join : String → List String → String
join separator [] = ""
join separator (part ∷ []) = part
join separator (part ∷ (next ∷ parts)) = part ++ separator ++ join separator (next ∷ parts)

-- `text.startswith(prefix)`
unfoldable pub starts_with : String → String → Bool
starts_with String.[] text = true
starts_with (String.◌∷◌ p prefix) String.[] = false
starts_with (String.◌∷◌ p prefix) (String.◌∷◌ c text) =
    let rest = starts_with prefix text in if code p == code c then rest else false

-- `text[1:]`
unfoldable pub after_first : String → String
after_first String.[] = ""
after_first (String.◌∷◌ c text) = text
