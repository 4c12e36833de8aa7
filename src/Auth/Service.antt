-- ===== src/Auth/Service.antt =====
-- services/auth-service/src/services/authService.js, with utils/token.js, utils/tokenStore.js and the
-- insert of repositories/userRepository.js. Log lines are left out.
use vault_core.Prelude.{
  ◌==◌, if◌then◌else◌, is_some, ℕ, String, Bool, true, false, Option, none, some,
}
use vault_core.Result.{Result, ok, err}
use vault_core.Table.{Table}
use vault_core.Ledger.Service.{UserRole, customer}
use vault_core.Account.Users.{User, find_by_id, find_by_email}
use vault_core.Auth.Tokens.{Claims, jwt_secret, refresh_secret, Jwt, Bcrypt, SessionStore}

pub data AuthError : Type 0 where
  -- `ConflictError`, `UnauthorizedError` and `NotFoundError`, by their messages.
  email_exists : AuthError
  invalid_credentials : AuthError
  deactivated : AuthError
  invalid_token : AuthError
  malformed_claims : AuthError
  session_revoked : AuthError
  user_invalid : AuthError
  user_not_found : AuthError
  -- Prisma's P2002, and an error of the Redis client.
  unique_violation : AuthError
  redis_error : AuthError

pub record SignupRequest : Type 0 where
  pub email : ℕ
  pub password : String
  pub first_name : String
  pub last_name : String
  pub role : Option UserRole

-- `{ passwordHash: _, ...safeUser }`
pub record SafeUser : Type 0 where
  pub id : ℕ
  pub email : ℕ
  pub first_name : String
  pub last_name : String
  pub role : UserRole
  pub is_active : Bool

-- What one call draws: the time, a salt and a `jti`.
pub record Draws : Type 0 where
  pub now : ℕ
  pub salt : ℕ
  pub jti : ℕ

-- `config.jwtExpiresIn` and `config.refreshTokenExpiresIn`, in seconds.
abbrev pub access_ttl : ℕ
access_ttl = 900

abbrev pub refresh_ttl : ℕ
refresh_ttl = 604800

abbrev pub role_or_customer : Option UserRole → UserRole
role_or_customer none = customer
role_or_customer (some r) = r

abbrev pub safe_user : ℕ → User → SafeUser
safe_user id u = record {
  id = id;
  email = u.email;
  first_name = u.first_name;
  last_name = u.last_name;
  role = u.role;
  is_active = u.is_active;
}

-- `decoded.jti || decoded.tokenId`
abbrev pub or_else : Option ℕ → Option ℕ → Option ℕ
or_else none b = b
or_else (some a) b = some a

-- `userId` and `jti`, unless one is missing.
abbrev pub session_of : Claims → Option (ℕ × ℕ)
session_of c = elim c.user_id [
  | none ↦ none
  | some u ↦ elim (or_else c.jti c.token_id) [ none ↦ none | some j ↦ some (u, j) ]
]

module _ (J : Jwt) (H : Bcrypt) (U : Table User) (S : SessionStore J.Token) where
  pub record Auth : Type 0 where
    pub users : U.State
    pub sessions : S.State

  pub record Login : Type 0 where
    pub user : SafeUser
    pub access_token : J.Token
    pub refresh_token : J.Token

  abbrev pub access_claims : ℕ → User → Claims
  access_claims id u = record {
    user_id = some id;
    email = some u.email;
    role = some u.role;
    jti = none;
    token_id = none;
  }

  abbrev pub refresh_claims : ℕ → ℕ → Claims
  refresh_claims id j = record {
    user_id = some id;
    email = none;
    role = none;
    jti = some j;
    token_id = none;
  }

  abbrev pub generate_access_token : ℕ → ℕ → User → J.Token
  generate_access_token now id u = J.sign jwt_secret now access_ttl (access_claims id u)

  abbrev pub generate_refresh_token : ℕ → ℕ → ℕ → J.Token
  generate_refresh_token now id j = J.sign refresh_secret now refresh_ttl (refresh_claims id j)

  abbrev pub verify_refresh_token : ℕ → J.Token → Option Claims
  verify_refresh_token now t = J.verify refresh_secret now t

  -- `TokenStore`
  unfoldable pub save_refresh_token : ℕ → ℕ → J.Token → Auth → Result AuthError (Unit {0}) × Auth
  save_refresh_token id j t a =
      let (up, st) = S.attempt a.sessions in
      if up
      then (ok tt, record a { sessions = S.set_ex st id j t refresh_ttl })
      else (err redis_error, record a { sessions = st })

  unfoldable pub is_refresh_token_valid : ℕ → ℕ → Auth → Result AuthError Bool × Auth
  is_refresh_token_valid id j a =
      let (up, st) = S.attempt a.sessions in
      (if up then ok (S.has st id j) else err redis_error, record a { sessions = st })

  unfoldable pub revoke_refresh_token : ℕ → ℕ → Auth → Result AuthError (Unit {0}) × Auth
  revoke_refresh_token id j a =
      let (up, st) = S.attempt a.sessions in
      if up
      then (ok tt, record a { sessions = S.del st id j })
      else (err redis_error, record a { sessions = st })

  -- The end that signup and login share: both tokens, and the session.
  abbrev pub with_session :
      SafeUser
      → J.Token
      → J.Token
      → Result AuthError (Unit {0}) × Auth
      → Result AuthError Login × Auth
  with_session u access refresh (err e, a) = (err e, a)
  with_session u access refresh (ok done, a) =
      (ok (record { user = u; access_token = access; refresh_token = refresh }), a)

  unfoldable pub open_session : Draws → ℕ → User → Auth → Result AuthError Login × Auth
  unfolding save_refresh_token
  open_session d id u a =
      let refresh = generate_refresh_token d.now id d.jti in
      with_session (safe_user id u) (generate_access_token d.now id u) refresh
        (save_refresh_token id d.jti refresh a)

  -- `user.create`, which throws where the email is taken, be it by a deleted user.
  unfoldable pub create_user : User → U.State → Result AuthError (ℕ × U.State)
  create_user u users =
      if is_some (U.find_first users (λ v. v.email == u.email))
      then err unique_violation
      else ok (U.create users u)

  abbrev pub new_user : Draws → SignupRequest → User
  new_user d req = record {
    email = req.email;
    password_hash = H.hash d.salt req.password;
    first_name = req.first_name;
    last_name = req.last_name;
    role = role_or_customer req.role;
    is_active = true;
    is_deleted = false;
  }

  abbrev pub after_create :
      Draws → User → Auth → Result AuthError (ℕ × U.State) → Result AuthError Login × Auth
  after_create d u a (err e) = (err e, a)
  after_create d u a (ok (id, users)) = open_session d id u (record a { users = users })

  unfoldable pub signup : Draws → SignupRequest → Auth → Result AuthError Login × Auth
  unfolding find_by_email create_user open_session
  signup d req a = elim (find_by_email U req.email a.users) [
    | some existing ↦ (err email_exists, a)
    | none ↦ after_create d (new_user d req) a (create_user (new_user d req) a.users)
  ]

  -- Is the user active, and does the password match?
  abbrev pub if_admitted :
      Bool → Bool → Auth → Result AuthError Login × Auth → Result AuthError Login × Auth
  if_admitted false matches a rest = (err deactivated, a)
  if_admitted true false a rest = (err invalid_credentials, a)
  if_admitted true true a rest = rest

  unfoldable pub login : Draws → ℕ → String → Auth → Result AuthError Login × Auth
  unfolding find_by_email open_session
  login d email password a = elim (find_by_email U email a.users) [
    | none ↦ (err invalid_credentials, a)
    | some (id, u) ↦
        if_admitted u.is_active (H.compare password u.password_hash) a (open_session d id u a)
  ]

  -- After the check of the session.
  abbrev pub renew : ℕ → ℕ → Result AuthError Bool × Auth → Result AuthError J.Token × Auth
  renew now id (err e, a) = (err e, a)
  renew now id (ok false, a) = (err session_revoked, a)
  renew now id (ok true, a) = elim (find_by_id U id a.users) [
    | none ↦ (err user_invalid, a)
    | some u ↦
        if u.is_active then (ok (generate_access_token now id u), a) else (err user_invalid, a)
  ]

  unfoldable pub refresh_token : ℕ → J.Token → Auth → Result AuthError J.Token × Auth
  unfolding is_refresh_token_valid find_by_id
  refresh_token now t a = elim (verify_refresh_token now t) [
    | none ↦ (err invalid_token, a)
    | some c ↦ elim (session_of c) [
      | none ↦ (err malformed_claims, a)
      | some (id, j) ↦ renew now id (is_refresh_token_valid id j a)
    ]
  ]

  -- The body of the `try` of `logout`.
  unfoldable pub revoke_session : ℕ → J.Token → Auth → Result AuthError (Unit {0}) × Auth
  unfolding revoke_refresh_token
  revoke_session now t a = elim (verify_refresh_token now t) [
    | none ↦ (err invalid_token, a)
    | some c ↦ elim (session_of c) [
      | none ↦ (ok tt, a)
      | some (id, j) ↦ revoke_refresh_token id j a
    ]
  ]

  -- `{ message: 'Logged out successfully' }`, and its `catch`, which only logs.
  abbrev pub caught : Result AuthError (Unit {0}) × Auth → Result AuthError String × Auth
  caught (ok done, a) = (ok "Logged out successfully", a)
  caught (err e, a) = (ok "Logged out successfully", a)

  unfoldable pub logout : ℕ → Option J.Token → Auth → Result AuthError String × Auth
  unfolding revoke_session
  logout now none a = (ok "Logged out successfully", a)
  logout now (some t) a = caught (revoke_session now t a)

  unfoldable pub get_profile : ℕ → Auth → Result AuthError SafeUser
  unfolding find_by_id
  get_profile id a = elim (find_by_id U id a.users) [
    | none ↦ err user_not_found
    | some u ↦ ok (safe_user id u)
  ]
