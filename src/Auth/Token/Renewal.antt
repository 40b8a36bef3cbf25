-- ===== src/Auth/Token/Renewal.antt =====
-- AuthTokenHandler.Handle: the tokens that it adds to the response.
use evgo.Shared.{
  ℕ, ◌+◌, ◌*◌, ◌<◌, ◌≡◌, ◌↔◌, ◌⊎◌, ap, sym, ◌∙◌, inl, inr, Bool, true, false, not, ◌&&◌, none, some,
  List, ◌∷◌, String, string_eq, ◌==◌, arith, Bool-cases, Option-cases,
}
use evgo.Auth.Context.{set_auth_user}
use evgo.Auth.Sessions.{Session, SessionCrud, update_session_expiration, update_session_client}
use evgo.Auth.Token.{
  AuthTokenHandlerConfig, Token, Users, Request, State, or_empty, nanoseconds, refresh_token_name,
  session_expiration, set_timer, gen_token, gen_access_token, gen_refresh_token, renews_access,
  renews_refresh, add_refresh_token, add_tokens, proceed, handle,
}
use evgo.Auth.Token.Authorization.{HasSession, HasToken, looked_up, handle-HasSession}

module _ {U : Type 0} (users : Users U) (crud : SessionCrud) (config : AuthTokenHandlerConfig) where
  module _ (req : Request) (user : U) where
    -- a token for the session of the state, of the kind and with the time to live given
    abbrev pub issued : String → String → ℕ → String → List (String × String) → Token
    issued id name seconds session_id parameters = record {
      id = id;
      exp = req.now + seconds * nanoseconds;
      user_id = users.get_id user;
      user_display = users.display user;
      session_id = session_id;
      tenancy = or_empty req.tenancy;
      token_type = name;
      parameters = parameters;
    }

    abbrev pub access_token : String → List (String × String) → Token
    access_token = issued req.access_id config.access_token_name config.access_token_ttl_seconds

    abbrev pub refresh_token : String → List (String × String) → Token
    refresh_token = issued req.refresh_id refresh_token_name config.refresh_token_ttl_seconds

    -- Two states that differ in what the tokens do not depend on.
    record Same (s t : State U crud) : Type 0 where
      session_id : s.session_id ≡ t.session_id
      parameters : s.session_parameters ≡ t.session_parameters

    gen_token_lem :
        (id name : String) (seconds : ℕ) (expire_name : String) (append_tag : Bool)
        (s : State U crud)
        → let (t, done) =
            gen_token users crud config req user id name seconds expire_name append_tag s in
          done ≡ true
          → Same t s
            × (t.response_tokens
                ≡ issued id name seconds s.session_id s.session_parameters ∷ s.response_tokens)
    unfolding gen_token
    gen_token_lem id name seconds expire_name append_tag s done = ground arith

    -- the tokens with a refresh token before them, and the expiration of the session, if it is renewed
    abbrev pub with_refresh : Bool → String → List (String × String) → List Token → List Token
    with_refresh true session_id parameters tokens = refresh_token session_id parameters ∷ tokens
    with_refresh false session_id parameters tokens = tokens

    abbrev pub with_access : Bool → String → List (String × String) → List Token → List Token
    with_access true session_id parameters tokens = access_token session_id parameters ∷ tokens
    with_access false session_id parameters tokens = tokens

    gen_access_token_lem :
        (s : State U crud)
        → (gen_access_token users crud config req user s).1 ≡ true
        → let t = (gen_access_token users crud config req user s).0 in
          Same t s
          × (t.response_tokens
              ≡ with_access true s.session_id s.session_parameters s.response_tokens)
    unfolding gen_access_token
    gen_access_token_lem s done =
        gen_token_lem req.access_id config.access_token_name config.access_token_ttl_seconds
          "access-expire" true s done

    gen_refresh_token_lem :
        (session : Session) (s : State U crud)
        → (gen_refresh_token users crud config req user session s).2 ≡ true
        → (gen_refresh_token users crud config req user session s).0.response_tokens
          ≡ with_refresh
              (not config.disable_refresh)
              s.session_id
              s.session_parameters
              s.response_tokens
    unfolding gen_refresh_token
    gen_refresh_token_lem session s done = elim (Bool-cases config.disable_refresh) [
      | inl disabled ↦ ground arith
      | inr enabled ↦
          let session' = record session {
            expiration = session_expiration users crud config req.now;
          } in
          let updated = update_session_expiration crud session' s.ctx s.db in
          let s' : State U crud = record s { ctx = updated.0; db = updated.1 } in
          ground (
            arith,
            gen_token_lem req.refresh_id refresh_token_name config.refresh_token_ttl_seconds
                "refresh-expire" false s',
          )
    ]

    add_refresh_token_lem :
        (session : Session) (token : Token) (s : State U crud)
        → (add_refresh_token users crud config req user session token s).2 ≡ none
        → (add_refresh_token users crud config req user session token s).0.response_tokens
          ≡ with_refresh
              (renews_refresh users crud config req session && not config.disable_refresh)
              s.session_id
              s.session_parameters
              s.response_tokens
    unfolding add_refresh_token set_timer
    add_refresh_token_lem session token s passed =
        elim (Bool-cases (renews_refresh users crud config req session)) [
          | inl renewed ↦ ground (arith, gen_refresh_token_lem session s)
          | inr kept ↦ ground arith
        ]

    -- all that an accepted request adds to the tokens of the response
    abbrev pub with_tokens : Bool → Bool → String → List (String × String) → List Token → List Token
    with_tokens access refresh session_id parameters tokens =
        with_refresh refresh session_id parameters (with_access access session_id parameters tokens)

    add_tokens_lem :
        (session : Session) (token : Token) (s : State U crud)
        → (add_tokens users crud config req user session token s).2 ≡ none
        → (add_tokens users crud config req user session token s).0.response_tokens
          ≡ with_tokens
              (renews_access users crud config req token)
              (renews_refresh users crud config req session && not config.disable_refresh)
              s.session_id
              s.session_parameters
              s.response_tokens
    unfolding add_tokens
    add_tokens_lem session token s passed =
        elim (Bool-cases (renews_access users crud config req token)) [
          | inl renewed ↦ ground (
            arith,
            gen_access_token_lem s,
            add_refresh_token_lem session token (gen_access_token users crud config req user s).0,
          )
          | inr kept ↦ ground (arith, add_refresh_token_lem session token s)
        ]

    proceed_lem :
        (session : Session) (token : Token) (s : State U crud)
        → (req.path == config.logout_path) ≡ false
        → (proceed users crud config req user session token s).2 ≡ none
        → (proceed users crud config req user session token s).0.response_tokens
          ≡ with_tokens
              (renews_access users crud config req token)
              (renews_refresh users crud config req session && not config.disable_refresh)
              session.id
              token.parameters
              s.response_tokens
    unfolding proceed set_auth_user
    proceed_lem session token s stays passed =
        let ctx = set_auth_user (some user) s.ctx in
        let updated =
          update_session_client crud req.client session.id (users.get_id user) ctx s.db in
        elim (Option-cases updated.2) [
          | inl failed ↦ ground arith
          | inr (client_id, done) ↦
              let t : State U crud = record s {
                ctx = updated.0;
                db = updated.1;
                session_id = session.id;
                session_parameters = token.parameters;
                client_id = client_id;
              } in
              ground (arith, add_tokens_lem session token t)
        ]

  -- An access token is due on the refresh path, and shortly before the token of the request expires if
  -- access is prolongated automatically.
  abbrev pub IsAccessDue : Request → Token → Type 0
  IsAccessDue req token =
      (req.path ≡ config.refresh_path)
      ⊎ ((config.auto_prolongate_access ≡ true)
          × (token.exp < req.now + config.access_token_gen_before_seconds * nanoseconds))

  -- A refresh token is due if refresh is prolongated automatically and not disabled, on the refresh path
  -- and if the session expires within the time to live of an access token.
  abbrev pub IsRefreshDue : Request → Session → Type 0
  IsRefreshDue req session =
      (config.auto_prolongate_refresh ≡ true)
      × (config.disable_refresh ≡ false)
      × ((req.path ≡ config.refresh_path)
          ⊎ (session.expiration < req.now + config.access_token_ttl_seconds * nanoseconds))

  renews_access_lem :
      (req : Request) (token : Token)
      → (renews_access users crud config req token ≡ true) ↔ IsAccessDue req token
  unfolding renews_access
  renews_access_lem req token = ground (arith, string_eq.eqb_iff req.path config.refresh_path)

  renews_refresh_lem :
      (req : Request) (session : Session)
      → ((renews_refresh users crud config req session && not config.disable_refresh) ≡ true)
        ↔ IsRefreshDue req session
  unfolding renews_refresh
  renews_refresh_lem req session = ground (arith, string_eq.eqb_iff req.path config.refresh_path)

  -- A request that passes on another path than the logout has a usable token and session, and adds
  -- to the tokens of the response exactly these for its session: an access token exactly if the
  -- path is that of the refresh, or AUTO_PROLONGATE_ACCESS is set and the token expires before
  -- ACCESS_TOKEN_GEN_BEFORE_SECONDS have passed; and a refresh token exactly if
  -- AUTO_PROLONGATE_REFRESH is set, refresh is not disabled, and the path is that of the refresh or
  -- the session expires before ACCESS_TOKEN_TTL_SECONDS have passed.
  pub handle_renewal :
      (req : Request) (s : State U crud)
      → (req.path == config.logout_path) ≡ false
      → (handle users crud config req s).2 ≡ none
      → (token : Token) × (session : Session) × (user : U) × HasToken users crud config req token
        × HasSession users crud config req s token session user
        × (access : Bool) × (refresh : Bool) × ((access ≡ true) ↔ IsAccessDue req token)
        × ((refresh ≡ true) ↔ IsRefreshDue req session)
        × ((handle users crud config req s).0.response_tokens
            ≡ with_tokens req user access refresh session.id token.parameters s.response_tokens)
  handle_renewal req s stays passed =
      let (token, session, user, has_token, h, as_proceed) =
        handle-HasSession users crud config req s passed in
      let tokens =
        proceed_lem req user session token (looked_up users crud config req s token) stays
          (ap (λ o. o.2) (sym as_proceed) ∙ passed) in
      (
        token,
        session,
        user,
        has_token,
        h,
        renews_access users crud config req token,
        renews_refresh users crud config req session && not config.disable_refresh,
        renews_access_lem req token,
        renews_refresh_lem req session,
        ap (λ o. o.0.response_tokens) as_proceed ∙ tokens,
      )
