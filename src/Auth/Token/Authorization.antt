-- ===== src/Auth/Token/Authorization.antt =====
-- AuthTokenHandler.Handle: the checks of the token, the session and the user.
use evgo.Shared.{
  ◌≡◌, refl, ap, sym, ◌∙◌, ◌⊎◌, inl, inr, true, false, ◌&&◌, none, some, string_eq, ◌==◌, ltb,
  arith,
}
use evgo.Auth.Context.{Result-cases, ok}
use evgo.Auth.Sessions.{Session, SessionCrud, find_session}
use evgo.Auth.Token.{
  AuthTokenHandlerConfig, Token, TokenParameter, missing, undecodable, decoded, Users, Request,
  State, is_refresh, token_name, same_tenancy, expired, proceed, check_user, check_session,
  check_token, handle,
}

pub Token-cases :
    (p : TokenParameter) → (p ≡ missing) ⊎ ((p ≡ undecodable) ⊎ ((t : Token) × (p ≡ decoded t)))
Token-cases missing = inl refl
Token-cases undecodable = inr (inl refl)
Token-cases (decoded t) = inr (inr (t, refl))

module _ {U : Type 0} (users : Users U) (crud : SessionCrud) (config : AuthTokenHandlerConfig) where
  -- The session is found, valid and not over, and its user is known and may log in.
  pub record HasSession (req : Request) (s : State U crud) (token : Token) (session : Session)
      (user : U) : Type 0 where
    pub found : (find_session crud s.db token.session_id s.ctx).1 ≡ ok session
    pub valid : session.valid ≡ true
    pub not_over : ltb session.expiration req.now ≡ false
    pub known : users.find_auth_user session.user_login token.parameters ≡ ok (some user)
    pub not_blocked : users.is_blocked user ≡ false

  -- The request has a token that may be used for its path, now and in its tenancy.
  pub record HasToken (req : Request) (token : Token) : Type 0 where
    pub enabled : (is_refresh users crud config req && config.disable_refresh) ≡ false
    pub given : req.parameter (token_name users crud config req) ≡ decoded token
    pub not_expired : expired token req.now ≡ false
    pub right_type : (token.token_type == token_name users crud config req) ≡ true
    pub right_tenancy : same_tenancy req.tenancy token.tenancy ≡ true

  module _ (req : Request) (s : State U crud) where
    -- the state after the session was looked for
    abbrev pub looked_up : Token → State U crud
    looked_up token = record s { ctx = (find_session crud s.db token.session_id s.ctx).0 }

    check_user_lem :
        (session : Session) (token : Token) (t : State U crud)
        → (check_user users crud config req session token t).2 ≡ none
        → (user : U) × (users.find_auth_user session.user_login token.parameters ≡ ok (some user))
          × (users.is_blocked user ≡ false)
          × (check_user users crud config req session token t
              ≡ proceed users crud config req user session token t)
    unfolding check_user
    check_user_lem session token t passed =
        elim (Result-cases (users.find_auth_user session.user_login token.parameters)) [
          | inl failed ↦ ground arith
          | inr (none, missed) ↦ ground arith
          | inr (some user, found) ↦ ground arith
        ]

    check_session_lem :
        (token : Token)
        → (check_session users crud config req token s).2 ≡ none
        → (session : Session) × (user : U) × HasSession req s token session user
          × (check_session users crud config req token s
              ≡ proceed users crud config req user session token (looked_up token))
    unfolding check_session
    check_session_lem token passed =
        elim (Result-cases (find_session crud s.db token.session_id s.ctx).1) [
          | inl failed ↦ ground arith
          | inr (session, found) ↦ ground (arith, check_user_lem session token (looked_up token))
        ]

    check_token_lem :
        (token : Token)
        → (check_token users crud config req token s).2 ≡ none
        → (expired token req.now ≡ false)
          × ((token.token_type == token_name users crud config req) ≡ true)
          × (same_tenancy req.tenancy token.tenancy ≡ true)
          × (check_token users crud config req token s
              ≡ check_session users crud config req token s)
    unfolding check_token
    check_token_lem token passed = ground arith

    handle_lem :
        (handle users crud config req s).2 ≡ none
        → ((is_refresh users crud config req && config.disable_refresh) ≡ false)
          × ((token : Token) × (req.parameter (token_name users crud config req) ≡ decoded token)
              × (handle users crud config req s ≡ check_token users crud config req token s))
    unfolding handle
    handle_lem passed = elim (Token-cases (req.parameter (token_name users crud config req))) [
      | inl e ↦ ground arith
      | inr (inl e) ↦ ground arith
      | inr (inr (token, e)) ↦ ground arith
    ]

    -- The token handler passes a request without an error only if the request has a token for the
    -- kind of its path that is not expired and of the right tenancy, refresh is enabled where it is
    -- asked for, the session of the token is found, valid and not over, and its user is known and
    -- not blocked; and the outcome is then what the handler does after these checks.
    pub handle-HasSession :
        (handle users crud config req s).2 ≡ none
        → (token : Token) × (session : Session) × (user : U) × HasToken req token
          × HasSession req s token session user
          × (handle users crud config req s
              ≡ proceed users crud config req user session token (looked_up token))
    handle-HasSession passed =
        let (enabled, (token, given, as_check)) = handle_lem passed in
        let checked = ap (λ o. o.2) (sym as_check) ∙ passed in
        let (fresh, right_type, right_tenancy, as_session) = check_token_lem token checked in
        let (session, user, h, as_proceed) =
          check_session_lem token (ap (λ o. o.2) (sym as_session) ∙ checked) in
        (
          token,
          session,
          user,
          record {
            enabled = enabled;
            given = given;
            not_expired = fresh;
            right_type = right_type;
            right_tenancy = right_tenancy;
          },
          h,
          as_check ∙ as_session ∙ as_proceed,
        )
