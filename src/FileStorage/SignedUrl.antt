-- ===== src/FileStorage/SignedUrl.antt =====
-- pkg/filestorage/signed_url.go: URLs that carry the time of their expiry and a keyed hash. A URL is
-- modelled as it is after `url.Parse`, whose error is `none`. The keyed hash and strconv are parameters.
pub mod Expiry
use evgo.Shared.{
  ℕ, ◌+◌, ◌≡◌, Bool, true, false, not, Option, none, some, List, [], ◌∷◌, String, string_eq, ◌==◌,
  ltb, nat_beq, if◌then◌else◌, get, put,
}
use Prim.Native.String.{◌++◌}

pub record Url : Type 0 where
  pub host : String
  pub path : String
  pub query : List (String × String)

-- SignedUrlConfig; the times are seconds
pub record SignedUrlConfig : Type 0 where
  pub secret : String
  pub expiration : ℕ
  pub expiry_param : String
  pub signature_param : String

-- strconv.FormatInt and ParseInt, which give 0 for a text that is no number, and the keyed hash with
-- its comparison
pub record Coding : Type 0 where
  pub format_int : ℕ → String
  pub parse_int : String → ℕ
  pub calc_hmac : String → String → String
  pub check_hmac : String → String → String → Bool

-- `SignUrlValues`
pub record SignUrlValues : Type 0 where
  pub method : String
  pub content_length : String

unfoldable pub values : SignUrlValues → List String
values v = if v.content_length == "" then v.method ∷ [] else v.method ∷ v.content_length ∷ []

-- `strings.Join(parameters, "\n")`
unfoldable pub join_lines : List String → String
join_lines [] = ""
join_lines (s ∷ []) = s
join_lines (s ∷ t ∷ rest) = s ++ ("\n" ++ join_lines (t ∷ rest))

-- `url.Values.Get`
unfoldable pub query_get : String → List (String × String) → String
query_get k query = value (get k query)
  where
    value : Option String → String
    value none = ""
    value (some v) = v

-- what the keyed hash is taken of
unfoldable pub signed_text : SignUrlValues → String → String → String
signed_text parameters expiry path =
    join_lines (values parameters) ++ ("\n" ++ (expiry ++ ("\n" ++ path)))

module _ (coding : Coding) (config : SignedUrlConfig) where
  -- `calcHmac`
  unfoldable pub calc_url_hmac : Url → SignUrlValues → String
  calc_url_hmac u parameters =
      coding.calc_hmac config.secret
        (signed_text parameters (query_get config.expiry_param u.query) u.path)

  unfoldable pub with_expiry : ℕ → Url → Url
  with_expiry now u = if nat_beq config.expiration 0 then u else record u {
    query = put config.expiry_param (coding.format_int (now + config.expiration)) u.query;
  }

  unfoldable pub with_signature : SignUrlValues → Url → Url
  with_signature parameters u = record u {
    query = put config.signature_param (calc_url_hmac u parameters) u.query;
  }

  unfoldable pub sign_url : ℕ → Option Url → SignUrlValues → Option Url
  sign_url now none parameters = none
  sign_url now (some u) parameters = some (with_signature parameters (with_expiry now u))

-- the errors of a check
pub data UrlError : Type 0 where
  not_a_url : UrlError
  expired : UrlError
  invalid_hmac : UrlError

module _ (coding : Coding) (config : SignedUrlConfig) where
  -- `checkHmac`
  unfoldable pub check_url_hmac : Url → SignUrlValues → String → String → Option UrlError
  check_url_hmac u parameters expiry signature =
      if coding.check_hmac config.secret (signed_text parameters expiry u.path) signature
      then none
      else some invalid_hmac

  unfoldable pub is_expired : ℕ → String → Bool
  is_expired now expiry = if expiry == "" then false else ltb (coding.parse_int expiry) now

  -- `CheckUrl`
  unfoldable pub check_url : ℕ → Url → SignUrlValues → Option UrlError
  check_url now u parameters =
      let expiry = query_get config.expiry_param u.query in
      if is_expired now expiry
      then some expired
      else check_url_hmac u parameters expiry (query_get config.signature_param u.query)

  unfoldable pub check_url_string : ℕ → Option Url → SignUrlValues → Option UrlError
  check_url_string now none parameters = some not_a_url
  check_url_string now (some u) parameters = check_url now u parameters
