-- ===== src/Access/Decision.antt =====
-- AccessControlBase.CheckAccess: the order of its search, and the rule that decides.
use mathlib.Core.Path.{ap₂}
use evgo.Shared.{
  ℕ, ◌≡◌, refl, ap, sym, ◌∙◌, false, ◌&&◌, Option, none, some, List, [], ◌∷◌, ◌++◌, String, All,
}
use evgo.Auth.Context.{Result, ok, err}
use evgo.Access.{
  Access, Resource, Rules, collect_tags, search_roles, search_tags, search_levels, search_paths,
  decide, check_access,
}

-- path, tag and role
abbrev pub Candidate : Type 0
Candidate = String × String × String

abbrev pub for_roles : String → String → List String → List Candidate
for_roles path tag [] = []
for_roles path tag (role ∷ roles) = (path, tag, role) ∷ for_roles path tag roles

abbrev pub for_tags : String → List String → List String → List Candidate
for_tags path roles [] = []
for_tags path roles (tag ∷ tags) = for_roles path tag roles ++ for_tags path roles tags

-- the tags of each level, and then no tag
abbrev pub for_levels : String → List String → List (String × List String) → List Candidate
for_levels path roles [] = []
for_levels path roles ((above, tags) ∷ rows) =
    for_tags path roles (tags ++ "" ∷ []) ++ for_levels path roles rows

-- All candidates: the more specific path first, for a path the tags of the more specific level
-- first, and for a tag the roles in their order.
abbrev pub candidates : List String → List (String × List String) → List Candidate
candidates roles [] = []
candidates roles ((path, tags) ∷ rows) =
    for_levels path roles ((path, tags) ∷ rows) ++ candidates roles rows

-- the paths with their tags, in the given order
abbrev pub levels : (String → List String) → List String → List (String × List String)
levels tags_of [] = []
levels tags_of (path ∷ paths) = (path, tags_of path) ∷ levels tags_of paths

-- the paths from the last one, which is the most specific
abbrev pub reverse : List String → List String
reverse [] = []
reverse (path ∷ paths) = reverse paths ++ path ∷ []

levels-append :
    (tags_of : String → List String) (ps qs : List String)
    → levels tags_of (ps ++ qs) ≡ levels tags_of ps ++ levels tags_of qs
levels-append tags_of [] qs = refl
levels-append tags_of (p ∷ ps) qs = ap ((p, tags_of p) ∷◌) (levels-append tags_of ps qs)

module _ (rules : Rules) where
  collect_tags_lem :
      (tags_of : String → List String) (paths : List String)
      → All (λ path. rules.resource_tags path ≡ ok (tags_of path)) paths
      → collect_tags rules paths ≡ ok (levels tags_of (reverse paths))
  unfolding collect_tags
  collect_tags_lem tags_of [] h = refl
  collect_tags_lem tags_of (path ∷ paths) h =
      rw
        (h.0, collect_tags_lem tags_of paths h.1, levels-append tags_of (reverse paths) (path ∷ []))
        refl

  abbrev pub rule_of : Candidate → Result (Option Access)
  rule_of (path, tag, role) = rules.find_rule path tag role

  abbrev or_else : Result (Option Access) → Result (Option Access) → Result (Option Access)
  or_else err other = err
  or_else (ok (some access)) other = ok (some access)
  or_else (ok none) other = other

  abbrev pub first_rule : List Candidate → Result (Option Access)
  first_rule [] = ok none
  first_rule (c ∷ cs) = or_else (rule_of c) (first_rule cs)

  or_else_assoc :
      (a b c : Result (Option Access)) → or_else (or_else a b) c ≡ or_else a (or_else b c)
  or_else_assoc err b c = refl
  or_else_assoc (ok (some access)) b c = refl
  or_else_assoc (ok none) b c = refl

  first_rule-append :
      (xs ys : List Candidate) → first_rule (xs ++ ys) ≡ or_else (first_rule xs) (first_rule ys)
  first_rule-append [] ys = refl
  first_rule-append (x ∷ xs) ys =
      ap (or_else (rule_of x)) (first_rule-append xs ys)
      ∙ sym (or_else_assoc (rule_of x) (first_rule xs) (first_rule ys))

  -- an `or_else` written as in the loops
  as_or_else :
      (a b : Result (Option Access))
      → (elim a [ err ↦ err | ok (some access) ↦ ok (some access) | ok none ↦ b ]) ≡ or_else a b
  as_or_else err b = refl
  as_or_else (ok (some access)) b = refl
  as_or_else (ok none) b = refl

  search_roles_lem :
      (path tag : String) (roles : List String)
      → search_roles rules path tag roles ≡ first_rule (for_roles path tag roles)
  unfolding search_roles
  search_roles_lem path tag [] = refl
  search_roles_lem path tag (role ∷ roles) =
      as_or_else (rules.find_rule path tag role) (search_roles rules path tag roles)
      ∙ ap (or_else (rules.find_rule path tag role)) (search_roles_lem path tag roles)

  search_tags_lem :
      (path : String) (roles tags : List String)
      → search_tags rules path roles tags ≡ first_rule (for_tags path roles tags)
  unfolding search_tags
  search_tags_lem path roles [] = refl
  search_tags_lem path roles (tag ∷ tags) =
      as_or_else (search_roles rules path tag roles) (search_tags rules path roles tags)
      ∙ ap₂ or_else (search_roles_lem path tag roles) (search_tags_lem path roles tags)
      ∙ sym (first_rule-append (for_roles path tag roles) (for_tags path roles tags))

  search_levels_lem :
      (path : String) (roles : List String) (rows : List (String × List String))
      → search_levels rules path roles rows ≡ first_rule (for_levels path roles rows)
  unfolding search_levels
  search_levels_lem path roles [] = refl
  search_levels_lem path roles ((above, tags) ∷ rows) =
      as_or_else (search_tags rules path roles (tags ++ "" ∷ []))
        (search_levels rules path roles rows)
      ∙ ap₂ or_else (search_tags_lem path roles (tags ++ "" ∷ []))
          (search_levels_lem path roles rows)
      ∙ sym (first_rule-append (for_tags path roles (tags ++ "" ∷ [])) (for_levels path roles rows))

  -- The nested loops with their breaks find the rule of the first candidate that has one.
  search_paths_lem :
      (roles : List String) (rows : List (String × List String))
      → search_paths rules roles rows ≡ first_rule (candidates roles rows)
  unfolding search_paths
  search_paths_lem roles [] = refl
  search_paths_lem roles ((path, tags) ∷ rows) =
      let levels = (path, tags) ∷ rows in
      as_or_else (search_levels rules path roles levels) (search_paths rules roles rows)
      ∙ ap₂ or_else (search_levels_lem path roles levels) (search_paths_lem roles rows)
      ∙ sym (first_rule-append (for_levels path roles levels) (candidates roles rows))

  first_rule-none :
      (cs : List Candidate) → All (λ c. rule_of c ≡ ok none) cs → first_rule cs ≡ ok none
  first_rule-none [] h = refl
  first_rule-none (c ∷ cs) h = ap (λ r. or_else r (first_rule cs)) h.0 ∙ first_rule-none cs h.1

  module _ (default_access : Access) (resource : Resource) (roles : List String)
      (access_type : ℕ) where
    check_access_lem :
        (rows : List (String × List String))
        → (resource.is_owner && resource.owner_access access_type) ≡ false
        → collect_tags rules resource.paths ≡ ok rows
        → check_access rules default_access resource roles access_type
          ≡ decide rules default_access access_type (first_rule (candidates roles rows))
    unfolding check_access
    check_access_lem rows not_owner collected =
        rw (not_owner, collected)
          (ap (decide rules default_access access_type) (search_paths_lem roles rows))

    -- For a subject that does not get the access as an owner, and tags that are all found, the
    -- first candidate that has a rule decides the access; the candidates are the more specific path
    -- first, which is the later one of the resource, for a path the tags of the more specific
    -- levels first with no tag after the tags of each level, and for a tag the roles in their
    -- order.
    pub check_access_first :
        (tags_of : String → List String) (before after : List Candidate) (c : Candidate)
        (access : Access)
        → (resource.is_owner && resource.owner_access access_type) ≡ false
        → All (λ path. rules.resource_tags path ≡ ok (tags_of path)) resource.paths
        → candidates roles (levels tags_of (reverse resource.paths)) ≡ before ++ c ∷ after
        → All (λ b. rule_of b ≡ ok none) before
        → rule_of c ≡ ok (some access)
        → check_access rules default_access resource roles access_type ≡ ok (access access_type)
    check_access_first tags_of before after c access not_owner tagged split missing found =
        check_access_lem (levels tags_of (reverse resource.paths)) not_owner
          (collect_tags_lem tags_of resource.paths tagged)
        ∙ ap (decide rules default_access access_type) (
            ap first_rule split
            ∙ first_rule-append before (c ∷ after)
            ∙ ap₂ or_else (first_rule-none before missing)
                (ap (λ r. or_else r (first_rule after)) found))

    -- For a subject that does not get the access as an owner, and tags that are all found, the
    -- default access decides if no candidate of path, tag and role has a rule.
    pub check_access_default :
        (tags_of : String → List String)
        → (resource.is_owner && resource.owner_access access_type) ≡ false
        → All (λ path. rules.resource_tags path ≡ ok (tags_of path)) resource.paths
        → All
            (λ c. rule_of c ≡ ok none)
            (candidates roles (levels tags_of (reverse resource.paths)))
        → check_access rules default_access resource roles access_type
          ≡ ok (default_access access_type)
    check_access_default tags_of not_owner tagged missing =
        check_access_lem (levels tags_of (reverse resource.paths)) not_owner
          (collect_tags_lem tags_of resource.paths tagged)
        ∙ ap (decide rules default_access access_type)
            (first_rule-none (candidates roles (levels tags_of (reverse resource.paths))) missing)
