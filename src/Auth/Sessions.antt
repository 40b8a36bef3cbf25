-- ===== src/Auth/Sessions.antt =====
-- pkg/auth/auth_session/session.go and session_controller.go: the sessions of users and their
-- clients. The database that the CRUD object stands for is a parameter.
pub mod Invalidation
use evgo.Shared.{
  ℕ, ◌≡◌, Bool, true, false, ◌&&◌, Option, none, some, String, string_eq, ◌==◌, if◌then◌else◌,
}
use evgo.Auth.Context.{Result, ok, err, AuthContext, set_generic_error_code}

pub record Session : Type 0 where
  pub id : String
  pub user_id : String
  pub user_login : String
  pub valid : Bool
  pub expiration : ℕ

pub record SessionClient : Type 0 where
  pub id : String
  pub session_id : String
  pub client_ip : String
  pub user_agent : String
  pub client_hash : String
  pub user_id : String

-- the zero value, which a read that finds nothing leaves
abbrev pub new_session : Session
new_session = record { id = ""; user_id = ""; user_login = ""; valid = false; expiration = 0 }

-- the conditions that the controller gives to `UpdateMulti`
pub data Fields : Type 0 where
  id_and_user : String → String → Fields
  of_user : String → Fields
  everything : Fields

abbrev pub matches : Fields → Session → Bool
matches (id_and_user id user_id) session = session.id == id && session.user_id == user_id
matches (of_user user_id) session = session.user_id == user_id
matches everything session = true

-- the CRUD object on the tables of sessions and of clients; `invalidate` is
-- `UpdateMulti` with "valid": false
pub record SessionCrud : Type 1 where
  pub Db : Type 0
  pub read_session : Db → String → Result (Option Session)
  pub create_session : Db → Session → Result Db
  pub update_expiration : Db → Session → Result Db
  pub invalidate : Db → Fields → Result Db
  pub read_client : Db → String → String → Result (Option SessionClient)
  pub create_client : Db → SessionClient → Result Db
  pub touch_client : Db → SessionClient → ℕ → Result Db

abbrev pub invalid_if : Fields → Option Session → Option Session
invalid_if fields none = none
invalid_if fields (some session) =
    some (if matches fields session then record session { valid = false } else session)

-- What the code relies on: an update of many rows reaches the rows that match and no others, and the
-- rows of clients are not those of sessions.
pub record SessionCrudLaws (crud : SessionCrud) : Type 0 where
  pub read-invalidate :
      (db db' : crud.Db) (fields : Fields) (id : String) (found : Option Session)
      → crud.read_session db id ≡ ok found
      → crud.invalidate db fields ≡ ok db'
      → crud.read_session db' id ≡ ok (invalid_if fields found)
  pub read_id :
      (db : crud.Db) (id : String) (session : Session)
      → crud.read_session db id ≡ ok (some session)
      → session.id ≡ id
  pub read-create_client :
      (db db' : crud.Db) (client : SessionClient) (id : String)
      → crud.create_client db client ≡ ok db'
      → crud.read_session db' id ≡ crud.read_session db id
  pub read-touch_client :
      (db db' : crud.Db) (client : SessionClient) (now : ℕ) (id : String)
      → crud.touch_client db client now ≡ ok db'
      → crud.read_session db' id ≡ crud.read_session db id

-- What `UpdateSessionClient` reads of the request, with the hash of the client and the id that
-- `InitObject` makes for a new one.
pub record ClientRequest : Type 0 where
  pub client_ip : String
  pub user_agent : String
  pub client_hash : String
  pub new_id : String
  pub now : ℕ

abbrev pub error_internal : String
error_internal = "internal_server_error"

abbrev pub or_new_session : Option Session → Session
or_new_session none = new_session
or_new_session (some session) = session

module _ (crud : SessionCrud) where
  unfoldable pub create_session :
      crud.Db → String → String → String → ℕ → Result (crud.Db × Session)
  create_session db new_id user_id user_login expiration =
      let session : Session = record {
        id = new_id;
        user_id = user_id;
        user_login = user_login;
        valid = true;
        expiration = expiration;
      } in
      elim (crud.create_session db session) [ err ↦ err | ok db' ↦ ok (db', session) ]

module _ (crud : SessionCrud) {U : Type 0} where
  -- An id that is not found leaves the new session as it was made, which is not valid.
  unfoldable pub find_session : crud.Db → String → AuthContext U → AuthContext U × Result Session
  find_session db session_id ctx = elim (crud.read_session db session_id) [
    | err ↦ (set_generic_error_code error_internal ctx, err)
    | ok found ↦ (ctx, ok (or_new_session found))
  ]

  abbrev pub with_error : AuthContext U → crud.Db → Result crud.Db → AuthContext U × crud.Db × Bool
  with_error ctx db err = (set_generic_error_code error_internal ctx, db, false)
  with_error ctx db (ok db') = (ctx, db', true)

  -- The three ways to invalidate sessions, and a new expiration: the context, the database, and
  -- whether there was no error.
  unfoldable pub invalidate_session :
      String → String → AuthContext U → crud.Db → AuthContext U × crud.Db × Bool
  invalidate_session user_id session_id ctx db =
      with_error ctx db (crud.invalidate db (id_and_user session_id user_id))

  unfoldable pub invalidate_user_sessions :
      String → AuthContext U → crud.Db → AuthContext U × crud.Db × Bool
  invalidate_user_sessions user_id ctx db = with_error ctx db (crud.invalidate db (of_user user_id))

  unfoldable pub invalidate_all_sessions : AuthContext U → crud.Db → AuthContext U × crud.Db × Bool
  invalidate_all_sessions ctx db = with_error ctx db (crud.invalidate db everything)

  unfoldable pub update_session_expiration :
      Session → AuthContext U → crud.Db → AuthContext U × crud.Db × Bool
  update_session_expiration session ctx db = with_error ctx db (crud.update_expiration db session)

  abbrev pub touch :
      SessionClient → ℕ → AuthContext U → crud.Db → AuthContext U × crud.Db × Option String
  touch client now ctx db = elim (crud.touch_client db client now) [
    | err ↦ (set_generic_error_code error_internal ctx, db, none)
    | ok db' ↦ (ctx, db', some client.id)
  ]

  -- `UpdateSessionClient`: the id of the client, or `none` after an error. Where the creation fails,
  -- as it does when another request has just created the client, the new object is updated.
  unfoldable pub update_session_client :
      ClientRequest
      → String
      → String
      → AuthContext U
      → crud.Db
      → AuthContext U × crud.Db × Option String
  update_session_client req session_id user_id ctx db =
      elim (crud.read_client db session_id req.client_hash) [
        | err ↦ (set_generic_error_code error_internal ctx, db, none)
        | ok (some client) ↦ touch client req.now ctx db
        | ok none ↦
            let client : SessionClient = record {
              id = req.new_id;
              session_id = session_id;
              client_ip = req.client_ip;
              user_agent = req.user_agent;
              client_hash = req.client_hash;
              user_id = user_id;
            } in
            elim (crud.create_client db client) [
              | err ↦ touch client req.now ctx db
              | ok db' ↦ (ctx, db', some client.id)
            ]
      ]
