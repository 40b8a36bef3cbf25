-- ===== src/FileStorage/Range.antt =====
-- pkg/filestorage/filedata_service/filedata_controller.go, `ParseRange`: the range of bytes that a
-- request asks for. Neither bound has a minus sign, since the text is split at these, so that numbers are
-- natural; strconv.ParseInt, which gives 0 for a text that is no number, is a parameter.
pub mod Inside
use evgo.Shared.{
  ℕ, ◌+◌, ◌-◌, ◌≡◌, Bool, true, false, ◌&&◌, ◌||◌, Option, none, some, String, string_eq, ◌==◌, ltb,
  leb, nat_beq, if◌then◌else◌, split,
}
use mathlib.Core.List.{List}
use Prim.Native.Char.{Char, code}
use Prim.Native.String.{[], ◌∷◌}

-- `strings.HasPrefix` with `strings.TrimPrefix`
unfoldable pub strip_prefix : String → String → Option String
strip_prefix [] s = some s
strip_prefix (p ∷ ps) [] = none
strip_prefix (p ∷ ps) (c ∷ s) =
    let rest = strip_prefix ps s in if nat_beq (code p) (code c) then rest else none

abbrev pub is_dash : Char → Bool
is_dash c = nat_beq (code c) b'-'

-- `strings.Split(s, "-")`
unfoldable pub split_dash : String → List String
split_dash s = split is_dash s

-- unicode.IsSpace, as far as Latin-1
abbrev is_space : Char → Bool
is_space c =
    (leb 9 (code c) && leb (code c) 13)
    || nat_beq (code c) 32
    || nat_beq (code c) 133
    || nat_beq (code c) 160

unfoldable pub trim_left : String → String
trim_left [] = ""
trim_left (c ∷ s) = let rest = trim_left s in if is_space c then rest else c ∷ s

unfoldable pub trim_right : String → String
trim_right [] = ""
trim_right (c ∷ s) = let rest = trim_right s in if is_space c && rest == "" then "" else c ∷ rest

unfoldable pub trim_space : String → String
trim_space s = trim_right (trim_left s)

-- the checks of the result
unfoldable pub check_range : ℕ → ℕ → Option (ℕ × ℕ)
check_range offset length = if nat_beq length 0 then none else some (offset, length)

-- the end of a range is the byte behind the last one
unfoldable pub range_end : ℕ → ℕ → ℕ
range_end end total_size = if leb total_size end then total_size else end + 1

module _ (parse_int : String → ℕ) where
  -- the three formats; a length below 0, which is refused, is 0 here
  unfoldable pub range_of : String → String → ℕ → Option (ℕ × ℕ)
  range_of start end total_size =
      if start == ""
      then if end == ""
        then none
        else check_range (total_size - parse_int end) (total_size - (total_size - parse_int end))
      else if end == ""
      then check_range (parse_int start) (total_size - parse_int start)
      else check_range (parse_int start) (range_end (parse_int end) total_size - parse_int start)

  abbrev pub range_of_parts : ℕ → List String → Option (ℕ × ℕ)
  range_of_parts total_size (List.◌∷◌ start (List.◌∷◌ end List.[])) =
      range_of (trim_space start) (trim_space end) total_size
  range_of_parts total_size _ = none

  abbrev pub range_of_spec : ℕ → Option String → Option (ℕ × ℕ)
  range_of_spec total_size none = none
  range_of_spec total_size (some spec) = range_of_parts total_size (split_dash spec)

  unfoldable pub parse_range : String → ℕ → Option (ℕ × ℕ)
  parse_range header total_size = range_of_spec total_size (strip_prefix "bytes=" header)
