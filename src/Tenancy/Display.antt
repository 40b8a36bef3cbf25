-- ===== src/Tenancy/Display.antt =====
-- The display of a tenancy, customer/role, and its parts (pkg/multitenancy/tenancy.go).
use evgo.Shared.{
  ◌≡◌, refl, Bool, false, Option, none, some, String, string_eq, ◌==◌, if◌then◌else◌, nat_beq,
  split, split-one, split-append, HasNone,
}
use mathlib.Core.List.{List}
use Prim.Native.Char.{Char, code}
use Prim.Native.String.{[], ◌∷◌, ◌++◌}
use Prim.Native.String.append

abbrev slash : Char
slash = "/"

abbrev pub is_slash : Char → Bool
is_slash c = nat_beq (code c) b'/'

-- `strings.Split(s, "/")`
unfoldable pub split_slash : String → List String
split_slash s = split is_slash s

abbrev two_parts : List String → Option (String × String)
two_parts (List.◌∷◌ a (List.◌∷◌ b List.[])) = some (a, b)
two_parts _ = none

-- `ParseTenancyDisplay`
unfoldable pub parse_tenancy_display : String → Option (String × String)
parse_tenancy_display display = two_parts (split_slash display)

-- `TenancySelector`
unfoldable pub tenancy_selector : String → String → String
tenancy_selector customer role = customer ++ ("/" ++ role)

-- `TenancyDisplay` on the display of the customer, the role, the id and the path
unfoldable pub tenancy_display : String → String → String → String → String
tenancy_display customer role id path =
    if customer == "" then (if id == "" then path else id) else tenancy_selector customer role

slash-append : (t : String) → ("/" ++ t) ≡ (slash ∷ t)
slash-append t = rw (append.cons slash [] t, append.nil t) refl

-- The display of a tenancy with a customer whose display is not empty, where neither it nor the
-- role has a slash, is parsed into that customer and that role.
pub parse-display :
    (customer role id path : String)
    → HasNone is_slash customer
    → HasNone is_slash role
    → (customer == "") ≡ false
    → parse_tenancy_display (tenancy_display customer role id path) ≡ some (customer, role)
unfolding parse_tenancy_display tenancy_display tenancy_selector split_slash
parse-display customer role id path hc hr given =
    rw
      (
        given,
        slash-append role,
        split-append is_slash slash customer role refl hc,
        split-one is_slash role hr,
      )
      refl
