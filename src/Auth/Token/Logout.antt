-- ===== src/Auth/Token/Logout.antt =====
-- AuthTokenHandler.Handle on the logout path.
use evgo.Shared.{
  ◌≡◌, refl, ap, sym, ◌∙◌, ◌≢◌, inl, inr, true, false, none, some, String, string_eq, ◌==◌, arith,
  Option-cases,
}
use evgo.Auth.Context.{Result-cases, ok, AuthContext, set_auth_user}
use evgo.Auth.Sessions.{
  Session, SessionCrud, SessionCrudLaws, find_session, invalidate_session, update_session_client,
}
use evgo.Auth.Sessions.Invalidation.{find-invalidate, read-update_session_client}
use evgo.Auth.Token.{
  AuthTokenHandlerConfig, Token, decoded, Users, Request, State, token_name, set_timer, logout,
  proceed, handle,
}
use evgo.Auth.Token.Authorization.{looked_up, handle-HasSession}

module _ {U : Type 0} (users : Users U) (crud : SessionCrud) (config : AuthTokenHandlerConfig)
    (laws : SessionCrudLaws crud) where
  -- No session under the id is valid.
  abbrev pub Ended : State U crud → String → Type 0
  Ended s id =
      (session : Session) → (find_session crud s.db id s.ctx).1 ≡ ok session → session.valid ≡ false

  find_session_read :
      (db : crud.Db) (id : String) (ctx : AuthContext U) (session : Session)
      → (find_session crud db id ctx).1 ≡ ok session
      → session.valid ≡ true
      → crud.read_session db id ≡ ok (some session)
  unfolding find_session
  find_session_read db id ctx session found valid = elim (Result-cases (crud.read_session db id)) [
    | inl failed ↦ ground arith
    | inr (none, missed) ↦ ground arith
    | inr (some other, there) ↦ ground arith
  ]

  find_session_any :
      (db : crud.Db) (id : String) (ctx ctx' : AuthContext U)
      → (find_session crud db id ctx).1 ≡ (find_session crud db id ctx').1
  unfolding find_session
  find_session_any db id ctx ctx' = elim (Result-cases (crud.read_session db id)) [
    | inl failed ↦ rw (find_session, failed) refl
    | inr (found, there) ↦ rw (find_session, there) refl
  ]

  invalidate-ctx :
      (user_id id : String) (ctx : AuthContext U) (db : crud.Db)
      → (invalidate_session crud user_id id ctx db).2 ≡ true
      → (invalidate_session crud user_id id ctx db).0 ≡ ctx
  unfolding invalidate_session
  invalidate-ctx user_id id ctx db done = ground arith

  module _ (req : Request) (user : U) (session : Session) (token : Token) where
    logout_lem :
        (s : State U crud)
        → crud.read_session s.db token.session_id ≡ ok (some session)
        → (logout users crud config req session token s).2 ≡ none
        → Ended (logout users crud config req session token s).0 token.session_id
          × ((logout users crud config req session token s).0.ctx.auth_user ≡ none)
    unfolding logout set_timer set_auth_user
    logout_lem s found passed =
        let none_left = set_auth_user none s.ctx in
        let same : session.id ≡ token.session_id =
          laws.read_id s.db token.session_id session found in
        let done : (invalidate_session crud session.user_id session.id none_left s.db).2 ≡ true =
          ground arith in
        let there : crud.read_session s.db session.id ≡ ok (some session) =
          ap (crud.read_session s.db) same ∙ found in
        let kept = invalidate-ctx session.user_id session.id none_left s.db done in
        let gone = find-invalidate crud laws s.db session.id session none_left there done in
        (
          λ session' now_found.
              let db' = (invalidate_session crud session.user_id session.id none_left s.db).1 in
              let look : (find_session crud db' session.id none_left).1 ≡ ok session' =
                ap (λ i. (find_session crud db' i none_left).1) same
                ∙ find_session_any db' token.session_id none_left
                    (logout users crud config req session token s).0.ctx
                ∙ ap
                    (λ d.
                      (find_session crud d token.session_id
                        (logout users crud config req session token s).0.ctx).1)
                    (rw (logout, done) refl)
                ∙ now_found in
              ground (arith, look, gone),
          ground (arith, kept, done),
        )

    proceed_lem :
        (s : State U crud)
        → (req.path == config.logout_path) ≡ true
        → crud.read_session s.db token.session_id ≡ ok (some session)
        → (proceed users crud config req user session token s).2 ≡ none
        → (t : State U crud) × (crud.read_session t.db token.session_id ≡ ok (some session))
          × (proceed users crud config req user session token s
              ≡ logout users crud config req session token t)
    unfolding proceed
    proceed_lem s leaves found passed =
        let ctx = set_auth_user (some user) s.ctx in
        let updated =
          update_session_client crud req.client session.id (users.get_id user) ctx s.db in
        let read =
          read-update_session_client crud laws req.client session.id (users.get_id user) ctx s.db
            token.session_id in
        elim (Option-cases updated.2) [
          | inl failed ↦ ground arith
          | inr (client_id, done) ↦
              let t : State U crud = record s {
                ctx = updated.0;
                db = updated.1;
                session_id = session.id;
                session_parameters = token.parameters;
                client_id = client_id;
              } in
              (t, read ∙ found, ground arith)
        ]

  -- With a database that obeys its laws, a request on the logout path that passes leaves the
  -- context without a user, and no request against the database that it left passes with a token of
  -- the same session.
  pub handle_logout :
      (req : Request) (s : State U crud) (token : Token)
      → (req.path == config.logout_path) ≡ true
      → req.parameter (token_name users crud config req) ≡ decoded token
      → (handle users crud config req s).2 ≡ none
      → (req' : Request) (s' : State U crud) (token' : Token)
      → s'.db ≡ (handle users crud config req s).0.db
      → req'.parameter (token_name users crud config req') ≡ decoded token'
      → token'.session_id ≡ token.session_id
      → ((handle users crud config req s).0.ctx.auth_user ≡ none)
        × ((handle users crud config req' s').2 ≢ none)
  handle_logout req s token leaves given passed req' s' token' kept given' for_session =
      let (token1, session, user, has_token, h, as_proceed) =
        handle-HasSession users crud config req s passed in
      let same : token1 ≡ token = ground (arith, has_token.given, given) in
      let found = find_session_read s.db token1.session_id s.ctx session h.found h.valid in
      let proceeded = ap (λ o. o.2) (sym as_proceed) ∙ passed in
      let (t, found', as_logout) =
        proceed_lem req user session token1 (looked_up users crud config req s token1) leaves found
          proceeded in
      let (ended, nobody) =
        logout_lem req user session token1 t found' (ap (λ o. o.2) (sym as_logout) ∙ proceeded) in
      let whole = as_proceed ∙ as_logout in
      (
        ap (λ o. o.0.ctx.auth_user) whole ∙ nobody,
        λ passed'.
            let (token2, session2, user2, has_token2, h2, as_proceed2) =
              handle-HasSession users crud config req' s' passed' in
            let same2 : token2 ≡ token' = ground (arith, has_token2.given, given') in
            let id2 : token2.session_id ≡ token1.session_id =
              ap (λ x. x.session_id) same2 ∙ for_session ∙ ap (λ x. x.session_id) (sym same) in
            let after = (logout users crud config req session token1 t).0 in
            let now_found : (find_session crud after.db token1.session_id after.ctx).1
                ≡ ok session2 =
              find_session_any after.db token1.session_id after.ctx s'.ctx
              ∙ ap (λ d. (find_session crud d token1.session_id s'.ctx).1)
                  (sym (kept ∙ ap (λ o. o.0.db) whole))
              ∙ ap (λ i. (find_session crud s'.db i s'.ctx).1) (sym id2)
              ∙ h2.found in
            let invalid : session2.valid ≡ false = ended session2 now_found in
            let valid : session2.valid ≡ true = h2.valid in ground (arith, invalid, valid),
      )
