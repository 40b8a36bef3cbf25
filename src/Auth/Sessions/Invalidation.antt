-- ===== src/Auth/Sessions/Invalidation.antt =====
-- SessionControllerBase: the sessions that are found after an invalidation.
use evgo.Shared.{
  ℕ, ◌≡◌, refl, inl, inr, true, false, ◌&&◌, none, some, String, string_eq, ◌==◌, if◌then◌else◌,
  arith, beq_refl,
}
use evgo.Auth.Context.{Result-cases, ok, AuthContext}
use evgo.Auth.Sessions.{
  Session, SessionClient, id_and_user, of_user, SessionCrud, SessionCrudLaws, find_session,
  invalidate_session, invalidate_user_sessions, ClientRequest, touch, update_session_client,
}

module _ (crud : SessionCrud) (laws : SessionCrudLaws crud) {U : Type 0} where
  module _ (db : crud.Db) (id : String) (session : Session) (ctx : AuthContext U)
      (found : crud.read_session db id ≡ ok (some session)) where
    -- With a database that obeys its laws, after the sessions of a user are invalidated without an
    -- error each session of that user is found invalid, and each session of another user is found
    -- as it was.
    pub find-invalidate_user :
        (user_id : String)
        → (invalidate_user_sessions crud user_id ctx db).2 ≡ true
        → (find_session crud (invalidate_user_sessions crud user_id ctx db).1 id ctx).1
          ≡ ok (if session.user_id == user_id then record session { valid = false } else session)
    unfolding invalidate_user_sessions find_session
    find-invalidate_user user_id done = elim (Result-cases (crud.invalidate db (of_user user_id))) [
      | inl failed ↦ ground arith
      | inr (db', written) ↦
          let after =
            laws.read-invalidate db db' (of_user user_id) id (some session) found written in
          rw (written, find_session, after) refl
    ]

    -- After one session is invalidated, it is found invalid, if the user is the one that it belongs to.
    pub find-invalidate :
        (invalidate_session crud session.user_id id ctx db).2 ≡ true
        → (find_session crud (invalidate_session crud session.user_id id ctx db).1 id ctx).1
          ≡ ok (record session { valid = false })
    unfolding invalidate_session find_session
    find-invalidate done =
        elim (Result-cases (crud.invalidate db (id_and_user id session.user_id))) [
          | inl failed ↦ ground arith
          | inr (db', written) ↦
              let after =
                laws.read-invalidate db db' (id_and_user id session.user_id) id (some session) found
                  written in
              let same : (session.id == id && session.user_id == session.user_id) ≡ true =
                rw (laws.read_id db id session found, beq_refl id, beq_refl session.user_id) refl in
              rw (written, find_session, after, same) refl
        ]

  read-touch :
      (client : SessionClient) (now : ℕ) (ctx : AuthContext U) (db : crud.Db) (id : String)
      → crud.read_session (touch crud client now ctx db).1 id ≡ crud.read_session db id
  read-touch client now ctx db id = elim (Result-cases (crud.touch_client db client now)) [
    | inl failed ↦ rw (touch, failed) refl
    | inr (db', written) ↦ rw (touch, written) (laws.read-touch_client db db' client now id written)
  ]

  -- To record the client of a session changes no session.
  pub read-update_session_client :
      (req : ClientRequest) (session_id user_id : String) (ctx : AuthContext U) (db : crud.Db)
      (id : String)
      → crud.read_session (update_session_client crud req session_id user_id ctx db).1 id
        ≡ crud.read_session db id
  unfolding update_session_client
  read-update_session_client req session_id user_id ctx db id =
      let client : SessionClient = record {
        id = req.new_id;
        session_id = session_id;
        client_ip = req.client_ip;
        user_agent = req.user_agent;
        client_hash = req.client_hash;
        user_id = user_id;
      } in
      elim (Result-cases (crud.read_client db session_id req.client_hash)) [
        | inl failed ↦ rw (update_session_client, failed) refl
        | inr (some old, known) ↦
            rw (update_session_client, known) (read-touch old req.now ctx db id)
        | inr (none, missing) ↦ elim (Result-cases (crud.create_client db client)) [
          | inl raced ↦
              rw (update_session_client, missing, raced) (read-touch client req.now ctx db id)
          | inr (db', written) ↦
              rw (update_session_client, missing, written)
                (laws.read-create_client db db' client id written)
        ]
      ]
