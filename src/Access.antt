-- ===== src/Access.antt =====
-- pkg/access_control: masks of access types (access.go), and the search of the rule that decides an
-- access (access_control.go). The rules (acl.go), resources and subjects are interfaces there, and
-- parameters here.
pub mod Masks
pub mod Decision
use evgo.Shared.{
  ℕ, zero, suc, ◌+◌, ◌*◌, ◌/◌, ◌%◌, Bool, true, false, not, ◌&&◌, ◌||◌, Option, none, some, List,
  [], ◌∷◌, ◌++◌, String, string_eq, ◌==◌, if◌then◌else◌, nat_beq,
}
use evgo.Auth.Context.{Result, ok, err}

abbrev pub odd : ℕ → Bool
odd a = nat_beq (a % 2) 1

abbrev pub from_bit : Bool → ℕ
from_bit true = 1
from_bit false = 0

-- a bitwise operation on numbers of `w` bits
unfoldable pub zip_bits : (Bool → Bool → Bool) → ℕ → ℕ → ℕ → ℕ
zip_bits f zero a b = 0
zip_bits f (suc w) a b = from_bit (f (odd a) (odd b)) + 2 * zip_bits f w (a / 2) (b / 2)

abbrev pub both : Bool → Bool → Bool
both a b = a && b

abbrev pub either : Bool → Bool → Bool
either a b = a || b

abbrev pub without : Bool → Bool → Bool
without a b = a && not b

-- AccessType, a uint32
abbrev pub read : ℕ
read = 1

abbrev pub create : ℕ
create = 2

abbrev pub update_replace : ℕ
update_replace = 4

abbrev pub update_partial : ℕ
update_partial = 8

abbrev pub delete : ℕ
delete = 16

-- AccessBase holds the mask alone; the methods return it changed.
unfoldable pub grant : ℕ → ℕ → ℕ
grant mask access_type = zip_bits either 32 mask access_type

unfoldable pub revoke : ℕ → ℕ → ℕ
revoke mask access_type = zip_bits without 32 mask access_type

unfoldable pub check : ℕ → ℕ → Bool
check mask access_type = not (nat_beq (zip_bits both 32 mask access_type) 0)

unfoldable pub http_method_to_access : String → ℕ
http_method_to_access method =
    if method == "GET"
    then read
    else if method == "POST"
    then create
    else if method == "PUT"
    then update_replace
    else if method == "PATCH"
    then update_partial
    else if method == "DELETE"
    then delete
    else 0

unfoldable pub access_to_http_method : ℕ → String
access_to_http_method access =
    if check access read
    then "GET"
    else if check access create
    then "POST"
    else if check access update_replace
    then "PUT"
    else if check access update_partial
    then "PATCH"
    else if check access delete
    then "DELETE"
    else ""

unfoldable pub http_content_in_query : ℕ → Bool
http_content_in_query access_type = check access_type read || check access_type delete

-- The interface Access, as far as the search uses it: whether an access type is allowed.
abbrev pub Access : Type 0
Access = ℕ → Bool

-- A resource, for one subject: its paths, the most specific last; whether the subject owns it; and
-- the access of an owner.
pub record Resource : Type 0 where
  pub paths : List String
  pub is_owner : Bool
  pub owner_access : Access

-- ResourceManager.ResourceTags and Acl.FindRule, which gives the access of the rule
pub record Rules : Type 0 where
  pub resource_tags : String → Result (List String)
  pub find_rule : String → String → String → Result (Option Access)

module _ (rules : Rules) where
  abbrev add_row :
      String
      → Result (List String)
      → Result (List (String × List String))
      → Result (List (String × List String))
  add_row path (ok tags) (ok rows) = ok (rows ++ (path, tags) ∷ [])
  add_row path (ok tags) err = err
  add_row path err rows = err

  -- The tags of each path, the most specific path first.
  unfoldable pub collect_tags : List String → Result (List (String × List String))
  collect_tags [] = ok []
  collect_tags (path ∷ paths) = add_row path (rules.resource_tags path) (collect_tags paths)

  -- the loop over the roles of the subject; a rule or an error ends it
  unfoldable pub search_roles : String → String → List String → Result (Option Access)
  search_roles path tag [] = ok none
  search_roles path tag (role ∷ roles) = elim (rules.find_rule path tag role) [
    | err ↦ err
    | ok (some access) ↦ ok (some access)
    | ok none ↦ search_roles path tag roles
  ]

  unfoldable pub search_tags : String → List String → List String → Result (Option Access)
  search_tags path roles [] = ok none
  search_tags path roles (tag ∷ tags) = elim (search_roles path tag roles) [
    | err ↦ err
    | ok (some access) ↦ ok (some access)
    | ok none ↦ search_tags path roles tags
  ]

  -- the loop over the tags of the path and of the paths above it
  unfoldable pub search_levels :
      String → List String → List (String × List String) → Result (Option Access)
  search_levels path roles [] = ok none
  search_levels path roles ((above, tags) ∷ rows) =
      elim (search_tags path roles (tags ++ "" ∷ [])) [
        | err ↦ err
        | ok (some access) ↦ ok (some access)
        | ok none ↦ search_levels path roles rows
      ]

  -- the loop over the paths, from the most specific one
  unfoldable pub search_paths : List String → List (String × List String) → Result (Option Access)
  search_paths roles [] = ok none
  search_paths roles ((path, tags) ∷ rows) = elim (search_levels path roles ((path, tags) ∷ rows)) [
    | err ↦ err
    | ok (some access) ↦ ok (some access)
    | ok none ↦ search_paths roles rows
  ]

  abbrev pub decide : Access → ℕ → Result (Option Access) → Result Bool
  decide default_access access_type err = err
  decide default_access access_type (ok none) = ok (default_access access_type)
  decide default_access access_type (ok (some access)) = ok (access access_type)

  -- `AccessControlBase.CheckAccess` for a subject with the given roles
  unfoldable pub check_access : Access → Resource → List String → ℕ → Result Bool
  check_access default_access resource roles access_type =
      if resource.is_owner && resource.owner_access access_type
      then ok true
      else elim (collect_tags resource.paths) [
        | err ↦ err
        | ok rows ↦ decide default_access access_type (search_paths roles rows)
      ]
