-- ===== src/Tenancy/Addresses.antt =====
-- The addresses of tenancies in the tenancy manager
-- (pkg/multitenancy/tenancy_manager/tenancy_manager.go).
use evgo.Shared.{
  ◌≡◌, refl, sym, ◌∙◌, ap, inl, inr, Bool, true, false, ◌&&◌, ◌||◌, Option, none, some, List, [],
  ◌∷◌, String, string_eq, ◌==◌, if◌then◌else◌, get, put, get-put, get-put_same, get-put_other,
  beq_refl, Bool-cases,
}
use evgo.Auth.Context.{ok}
use evgo.Crud.Rows.{any}
use evgo.Tenancy.{
  TenancyDb, Tenancy, TenancyManager, TenancyIpAddress, TagAddresses, Environment, init, or_empty,
  is_some, in_tags, add_addresses, with_addresses, keep, load_tenancy_from_data,
  has_ip_address_by_path,
}
use evgo.Tenancy.Indexes.{init-row}

abbrev pub is_address : String → String → TenancyIpAddress → Bool
is_address ip tag a = (a.tag == tag) && (a.ip == ip)

put-in_tags :
    (a : TenancyIpAddress) (tags : TagAddresses) (ip tag : String)
    → in_tags ip tag (put a.tag (put a.ip true (or_empty (get a.tag tags))) tags)
      ≡ (is_address ip tag a || in_tags ip tag tags)
put-in_tags a tags ip tag = elim (Bool-cases (a.tag == tag)) [
  | inl same ↦
      let here : a.tag ≡ tag = (string_eq.eqb_iff a.tag tag).0 same in
      ap (λ x. is_some (get ip (or_empty x)))
        (get-put_same a.tag tag (put a.ip true (or_empty (get a.tag tags))) tags same)
      ∙ ap is_some (get-put a.ip ip true (or_empty (get a.tag tags)))
      ∙ ip_or (a.ip == ip) (get ip (or_empty (get a.tag tags)))
      ∙ rw (same, here) refl
  | inr other ↦
      ap (λ x. is_some (get ip (or_empty x)))
        (get-put_other a.tag tag (put a.ip true (or_empty (get a.tag tags))) tags other)
      ∙ rw (other) refl
]
  where
    ip_or : (b : Bool) (o : Option Bool) → is_some (if b then some true else o) ≡ (b || is_some o)
    ip_or true o = refl
    ip_or false o = refl

add_addresses-in_tags :
    (addresses : List TenancyIpAddress) (tags : TagAddresses) (ip tag : String)
    → in_tags ip tag (add_addresses addresses tags)
      ≡ (in_tags ip tag tags || any (is_address ip tag) addresses)
unfolding add_addresses
add_addresses-in_tags [] tags ip tag = or_false (in_tags ip tag tags)
  where
    or_false : (b : Bool) → b ≡ (b || false)
    or_false true = refl
    or_false false = refl
add_addresses-in_tags (a ∷ addresses) tags ip tag =
    add_addresses-in_tags addresses (put a.tag (put a.ip true (or_empty (get a.tag tags))) tags) ip
      tag
    ∙ rw (put-in_tags a tags ip tag)
        (or_swap (is_address ip tag a) (in_tags ip tag tags) (any (is_address ip tag) addresses))
  where
    or_swap : (a b c : Bool) → ((a || b) || c) ≡ (b || (a || c))
    or_swap true true c = refl
    or_swap true false c = refl
    or_swap false b c = refl

with_addresses-path :
    (t : Tenancy) (addresses : List TenancyIpAddress) (m : List (String × TagAddresses))
    (ip tag : String)
    → get t.tenancy_db.path m ≡ none
    → in_tags ip tag (or_empty (get t.tenancy_db.path (with_addresses t addresses m)))
      ≡ any (is_address ip tag) addresses
unfolding get
with_addresses-path t [] m ip tag fresh = ap (λ x. in_tags ip tag (or_empty x)) fresh ∙ empty_tags
  where
    empty_tags : in_tags ip tag [] ≡ false
    empty_tags = refl
with_addresses-path t (a ∷ addresses) m ip tag fresh =
    elim (Bool-cases (t.tenancy_db.shadow_path == t.tenancy_db.path)) [
      | inl same ↦
          ap (λ x. in_tags ip tag (or_empty x))
            (get-put_same t.tenancy_db.shadow_path t.tenancy_db.path tags
              (put t.tenancy_db.path tags m) same)
          ∙ all_of
      | inr other ↦
          ap (λ x. in_tags ip tag (or_empty x))
            (get-put_other t.tenancy_db.shadow_path t.tenancy_db.path tags
                (put t.tenancy_db.path tags m) other
              ∙ get-put_same t.tenancy_db.path t.tenancy_db.path tags m
                  (beq_refl t.tenancy_db.path))
          ∙ all_of
    ]
  where
    tags : TagAddresses
    tags = add_addresses (a ∷ addresses) []

    all_of :
        in_tags ip tag (add_addresses (a ∷ addresses) []) ≡ any (is_address ip tag) (a ∷ addresses)
    all_of = add_addresses-in_tags (a ∷ addresses) [] ip tag

-- After a tenancy is loaded, whose start succeeds and whose addresses are listed, and where no
-- addresses stood under its path before, an address has a tag at its path exactly if that pair is
-- in the list.
pub load-has_ip_address :
    (env : Environment) (row : TenancyDb) (m : TenancyManager) (t : Tenancy)
    (addresses : List TenancyIpAddress) (ip tag : String)
    → init env row ≡ ok t
    → env.list_ip_addresses row.id ≡ ok addresses
    → get row.path m.tenancy_ip_addresses ≡ none
    → has_ip_address_by_path row.path ip tag (load_tenancy_from_data env row m).0
      ≡ any (is_address ip tag) addresses
unfolding load_tenancy_from_data has_ip_address_by_path keep
load-has_ip_address env row m t addresses ip tag started listed fresh =
    rw (started, listed, sym (ap (λ x. x.path) (init-row env row t started)))
      (with_addresses-path t addresses m.tenancy_ip_addresses ip tag
        (ap (λ x. get x.path m.tenancy_ip_addresses) (init-row env row t started) ∙ fresh))
