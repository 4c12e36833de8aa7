-- ===== src/Auth/Fixtures.antt =====
-- What the tests of the auth service run on: one user, a token that carries its claims in the open, a
-- Redis that is a function and may miss one command, and a hash that keeps the password.
use vault_core.Prelude.{
  ltb, ◌==◌, if◌then◌else◌, lt→ltb, ℕ, ◌+◌, ◌<◌, ◌≡◌, refl, Bool, true, false, ◌&&◌, Option, none,
  some, [], ◌∷◌, arith,
}
use vault_core.Result.{Result}
use vault_core.Table.{Table}
use vault_core.Table.Lists.{list_table}
use vault_core.Ledger.Tests.{one_row-Distinct}
use vault_core.Ledger.Service.{customer, admin}
use vault_core.Account.Users.{User}
use vault_core.Auth.Tokens.{Claims, Secret, jwt_secret, refresh_secret, Jwt, Bcrypt, SessionStore}
use vault_core.Auth.Service.{
  AuthError, SignupRequest, Draws, refresh_ttl, safe_user, Auth, Login, generate_access_token,
  generate_refresh_token, login,
}

pub record OpenToken : Type 0 where
  pub secret : Secret
  pub expires : ℕ
  pub claims : Claims

abbrev same_secret : Secret → Secret → Bool
same_secret jwt_secret jwt_secret = true
same_secret refresh_secret refresh_secret = true
same_secret _ _ = false

same_secret_refl : (s : Secret) → same_secret s s ≡ true
same_secret_refl jwt_secret = refl
same_secret_refl refresh_secret = refl

abbrev decode : Secret → ℕ → OpenToken → Option Claims
decode s now t = if same_secret s t.secret && ltb now t.expires then some t.claims else none

pub decode-signed :
    (s : Secret) (issued ttl now : ℕ) (c : Claims)
    → now < issued + ttl
    → decode s now (record { secret = s; expires = issued + ttl; claims = c }) ≡ some c
decode-signed s issued ttl now c h = ground (arith, same_secret_refl s, lt→ltb now (issued + ttl) h)

abbrev pub open_jwt : Jwt
open_jwt = record {
  Token = OpenToken;
  sign = λ s issued ttl c. record { secret = s; expires = issued + ttl; claims = c };
  verify = decode;
  verify-sign = decode-signed;
}

abbrev pub any_password : Bcrypt
any_password = record { hash = λ salt p. p; compare = λ p h. true; compare-hash = λ salt p. refl }

abbrev pub one_miss : SessionStore OpenToken
one_miss = record {
  State = Bool × (ℕ → ℕ → Bool);
  has = λ s u j. s.1 u j;
  attempt = λ s. (s.0, (true, s.1));
  set_ex = λ s u j t ttl. (s.0, λ v k. if u == v && j == k then true else s.1 v k);
  del = λ s u j. (s.0, λ v k. if u == v && j == k then false else s.1 v k);
  has-attempt = λ s u j. refl;
  has-set_ex = λ s u j t ttl v k. refl;
  has-del = λ s u j v k. refl;
}

abbrev pub users_table : Table User
users_table = list_table

abbrev pub State : Type 0
State = Auth open_jwt any_password users_table one_miss

abbrev pub bob : User
bob = record {
  email = 70;
  password_hash = "secret";
  first_name = "Bob";
  last_name = "B";
  role = customer;
  is_active = true;
  is_deleted = false;
}

abbrev pub with_bob : Bool → State
with_bob up = record {
  users = ((5, bob) ∷ [], one_row-Distinct 5 bob);
  sessions = (up, λ u j. false);
}

abbrev pub draws : ℕ → Draws
draws j = record { now = 100; salt = 3; jti = j }

abbrev pub wants_admin : SignupRequest
wants_admin = record {
  email = 71;
  password = "pw";
  first_name = "Eve";
  last_name = "E";
  role = some admin;
}

abbrev pub entered : Result AuthError (Login open_jwt any_password users_table one_miss) × State
entered = login open_jwt any_password users_table one_miss (draws 9) 70 "secret" (with_bob true)

abbrev pub login_reply : Login open_jwt any_password users_table one_miss
login_reply = record {
  user = safe_user 5 bob;
  access_token = generate_access_token open_jwt any_password users_table one_miss 100 5 bob;
  refresh_token = generate_refresh_token open_jwt any_password users_table one_miss 100 5 9;
}

abbrev pub logged_in : State
logged_in = record {
  users = (with_bob true).users;
  sessions = one_miss.set_ex (true, λ u j. false) 5 9 login_reply.refresh_token refresh_ttl;
}
