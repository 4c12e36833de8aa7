-- ===== src/Auth/Tokens.antt =====
-- What the auth service stands on: jsonwebtoken, bcrypt and Redis DB3, which are not code of the
-- repository, as parameters with their documented behaviour; and the claims that utils/token.js signs.
-- Ids are numbers, and none of them is falsy.
use vault_core.Prelude.{
  ◌==◌, if◌then◌else◌, ℕ, ◌+◌, ◌<◌, String, ◌≡◌, Bool, true, false, ◌&&◌, Option, some,
}
use vault_core.Ledger.Service.{UserRole}

-- What `jwt.verify` decodes, as far as it is read.
pub record Claims : Type 0 where
  pub user_id : Option ℕ
  pub email : Option ℕ
  pub role : Option UserRole
  pub jti : Option ℕ
  pub token_id : Option ℕ

-- `config.jwtSecret` and `config.refreshTokenSecret`
pub data Secret : Type 0 where
  jwt_secret refresh_secret : Secret

pub record Jwt : Type 1 where
  pub Token : Type 0
  -- `jwt.sign` at a time, with the seconds until it expires.
  pub sign : Secret → ℕ → ℕ → Claims → Token
  -- `jwt.verify` at a time; it throws where the result is `none`.
  pub verify : Secret → ℕ → Token → Option Claims
  pub verify-sign :
      (s : Secret) (issued ttl now : ℕ) (c : Claims)
      → now < issued + ttl
      → verify s now (sign s issued ttl c) ≡ some c

pub record Bcrypt : Type 0 where
  -- `bcrypt.hash` with the salt that it draws.
  pub hash : ℕ → String → String
  pub compare : String → String → Bool
  pub compare-hash : (salt : ℕ) (password : String) → compare password (hash salt password) ≡ true

-- The keys `refresh:{userId}:{jti}`.
pub record SessionStore (Token : Type 0) : Type 1 where
  pub State : Type 0
  -- `EXISTS`
  pub has : State → ℕ → ℕ → Bool
  -- Does the next command reach the server? If not, the client throws.
  pub attempt : State → Bool × State
  -- `SET key token EX ttl`, and `DEL`.
  pub set_ex : State → ℕ → ℕ → Token → ℕ → State
  pub del : State → ℕ → ℕ → State
  pub has-attempt : (s : State) (u j : ℕ) → has (attempt s).1 u j ≡ has s u j
  pub has-set_ex :
      (s : State) (u j : ℕ) (t : Token) (ttl v k : ℕ)
      → has (set_ex s u j t ttl) v k ≡ (if u == v && j == k then true else has s v k)
  pub has-del :
      (s : State) (u j v k : ℕ)
      → has (del s u j) v k ≡ (if u == v && j == k then false else has s v k)
