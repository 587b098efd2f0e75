-- ===== src/Auth/Handler.antt =====
-- pkg/auth/handler.go over the login service.
pub mod Ownership
use pk_modules.Common.{
  ℕ, Bool, false, not, Option, none, some, List, [], Result, ok, err, Action, raise, raise_if,
  or_raise, pure, ◌>>=◌, ◌>>◌, if◌then◌else◌,
}
use pk_modules.Common.Text.{Text, codes, text_eq}
use pk_modules.Http.{
  Method, Request, Answer, write_json, no_content, or_status, entity_id_from_path,
}
use pk_modules.Auth.{
  Error, Session, invalid_credentials, session_expired, session_revoked, no_credentials,
  user_inactive, policy_denied, tenant_required, identifier_required, password_required, not_found,
}
use pk_modules.Auth.Service
use pk_modules.Auth.Service.{Service, World}

-- `APIPath`
abbrev pub api_path : Text
api_path = codes "/api/v1/auth/sessions"

-- `loginRequest`
pub record Input : Type 0 where
  pub tenant_id : Text
  pub email : Text
  pub username : Text
  pub password : Text

-- The statuses of a failed login, of a session that is not valid, and of a failed logout.
unfoldable pub login_status : Error → ℕ
login_status tenant_required = 400
login_status identifier_required = 400
login_status password_required = 400
login_status no_credentials = 400
login_status invalid_credentials = 401
login_status user_inactive = 403
login_status (policy_denied reason) = 429
login_status _ = 500

unfoldable pub validate_status : Error → ℕ
validate_status not_found = 404
validate_status session_expired = 401
validate_status session_revoked = 401
validate_status _ = 500

unfoldable pub logout_status : Error → ℕ
logout_status not_found = 404
logout_status _ = 500

module _ {S : Type 0} (svc : Service S) (r : Request Input) where
  unfoldable pub login : ℕ → Option (List ℕ) → Action ℕ (World S) (Answer Session)
  unfolding login_status or_status
  login now draw = do
    input ← or_raise r.body 400
    session ← or_status login_status (
        Service.login svc now draw input.tenant_id
          (record { email = input.email; username = input.username; password = input.password }))
    pure (write_json 201 session)

  unfoldable pub validate : ℕ → Text → Action ℕ (World S) (Answer Session)
  unfolding validate_status or_status
  validate now id = do
    raise_if r.principal.anonymous 401
    session ← or_status validate_status (Service.validate_session svc now id)
    raise_if (not (text_eq session.user_id r.principal.subject)) 404
    pure (write_json 200 session)

  -- Whether the session is valid and another subject's.
  unfoldable pub is_foreign : Result Error Session → Bool
  is_foreign (ok session) = not (text_eq session.user_id r.principal.subject)
  is_foreign (err e) = false

  -- An error of the validation is passed over.
  unfoldable pub refuse_foreign : ℕ → Text → Action ℕ (World S) (Unit {0})
  unfolding is_foreign
  refuse_foreign now id w =
      let (session, w') = Service.validate_session svc now id w in
      raise_if (is_foreign session) 404 w'

  unfoldable pub logout : ℕ → ℕ → Text → Action ℕ (World S) (Answer Session)
  unfolding refuse_foreign logout_status or_status
  logout now logout_now id = do
    raise_if r.principal.anonymous 401
    refuse_foreign now id
    or_status logout_status (Service.logout svc logout_now id)
    pure no_content

  -- The switch of ServeHTTP; a request reads the clock at most twice.
  unfoldable pub route :
      ℕ → ℕ → Option (List ℕ) → Method → Text → Action ℕ (World S) (Answer Session)
  unfolding login validate logout
  route now later draw Method.post id = if text_eq id [] then login now draw else raise 405
  route now later draw Method.get id = if text_eq id [] then raise 400 else validate now id
  route now later draw Method.put id = raise 405
  route now later draw Method.delete id = if text_eq id [] then raise 400 else logout now later id
  route now later draw Method.other id = raise 405

  -- `ServeHTTP`
  unfoldable pub serve : ℕ → ℕ → Option (List ℕ) → Action ℕ (World S) (Answer Session)
  unfolding entity_id_from_path route
  serve now later draw = elim (entity_id_from_path r.decode r.path api_path) [
    | none ↦ raise 400
    | some (id, verb) ↦ route now later draw r.method id
  ]
