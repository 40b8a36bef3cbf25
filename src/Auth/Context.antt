-- ===== src/Auth/Context.antt =====
-- pkg/auth and pkg/op_context/default_op_context: the part of a request's context that the
-- authentication handlers read and write, and the cache that they use (pkg/cache/cache.go), whose
-- storage is a library.
use evgo.Shared.{ℕ, ◌≡◌, refl, ◌⊎◌, inl, inr, ◌≢◌, Option, none, some, List, String, string_eq, put}

pub data Result {ℓ} (A : Type ℓ) : Type ℓ where
  ok : A → Result A
  err : Result A

pub record AuthContext (U : Type 0) : Type 0 where
  pub generic_error : Option String
  pub auth_user : Option U
  pub auth_parameters : List (String × String)

-- The first code that is set stays, unless it is overridden, which the handlers do not do.
unfoldable pub set_generic_error_code : {U : Type 0} → String → AuthContext U → AuthContext U
set_generic_error_code code ctx = elim ctx.generic_error [
  | none ↦ record ctx { generic_error = some code }
  | some old ↦ ctx
]

unfoldable pub set_auth_parameter : {U : Type 0} → String → String → AuthContext U → AuthContext U
set_auth_parameter name value ctx = record ctx {
  auth_parameters = put name value ctx.auth_parameters;
}

unfoldable pub set_auth_user : {U : Type 0} → Option U → AuthContext U → AuthContext U
set_auth_user user ctx = record ctx { auth_user = user }

-- The cache of a request at its time: a value that has expired is not there. A write may fail. The
-- error of `Unset`, which the handlers ignore, is not told: an unset that fails is one that keeps the value.
pub record Cache (V : Type 0) : Type 1 where
  pub Store : Type 0
  pub get : Store → String → Result (Option V)
  pub set : Store → String → V → ℕ → Result Store
  pub unset : Store → String → Store

-- What the handlers rely on: a value that was written is read back, and a key that was unset is not,
-- so that no unset fails.
pub record CacheLaws {V : Type 0} (c : Cache V) : Type 1 where
  pub get-set :
      (s s' : c.Store) (k : String) (v : V) (ttl : ℕ)
      → c.set s k v ttl ≡ ok s'
      → c.get s' k ≡ ok (some v)
  pub get-unset : (s : c.Store) (k : String) → c.get (c.unset s k) k ≡ ok none
  pub get-set_ne :
      (s s' : c.Store) (k j : String) (v : V) (ttl : ℕ)
      → k ≢ j
      → c.set s k v ttl ≡ ok s'
      → c.get s' j ≡ c.get s j
  pub get-unset_ne : (s : c.Store) (k j : String) → k ≢ j → c.get (c.unset s k) j ≡ c.get s j

pub Result-cases {ℓ} : {A : Type ℓ} (r : Result A) → (r ≡ err) ⊎ ((a : A) × (r ≡ ok a))
Result-cases (ok a) = inr (a, refl)
Result-cases err = inl refl
