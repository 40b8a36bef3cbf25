-- ===== src/Shared/Strings.antt =====
-- Go's `strings.Split` at a separator of one character.
use mathlib.Core.Path.{◌≡◌, refl}
use mathlib.Core.Bool.{Bool, true, false}
use mathlib.Core.List.{List}
use Prim.Native.Char.{Char}
use Prim.Native.String.{String, [], ◌∷◌, ◌++◌}
use Prim.Native.String.append
use evgo.Shared.Tests.{if◌then◌else◌}

abbrev longer : Char → List String → List String
longer c List.[] = List.[]
longer c (List.◌∷◌ p ps) = List.◌∷◌ (c ∷ p) ps

unfoldable pub split : (Char → Bool) → String → List String
split is_sep [] = List.◌∷◌ "" List.[]
split is_sep (c ∷ s) =
    let rest = split is_sep s in if is_sep c then List.◌∷◌ "" rest else longer c rest

-- No character of the string is a separator.
abbrev pub HasNone : (Char → Bool) → String → Type 0
HasNone is_sep [] = Unit
HasNone is_sep (c ∷ s) = (is_sep c ≡ false) × HasNone is_sep s

pub split-one :
    (is_sep : Char → Bool) (s : String) → HasNone is_sep s → split is_sep s ≡ List.◌∷◌ s List.[]
unfolding split
split-one is_sep [] h = refl
split-one is_sep (c ∷ s) h = rw (h.0, split-one is_sep s h.1) refl

pub split-append :
    (is_sep : Char → Bool) (c : Char) (s t : String)
    → is_sep c ≡ true
    → HasNone is_sep s
    → split is_sep (s ++ (c ∷ t)) ≡ List.◌∷◌ s (split is_sep t)
unfolding split
split-append is_sep d [] t separates h = rw (append.nil (d ∷ t), separates) refl
split-append is_sep d (c ∷ s) t separates h =
    rw (append.cons c s (d ∷ t), h.0, split-append is_sep d s t separates h.1) refl
