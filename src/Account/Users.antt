-- ===== src/Account/Users.antt =====
-- The users of prisma/schema.prisma, and the queries by id and by email of
-- services/auth-service/src/repositories/userRepository.js, of which the first is also `findUserById`
-- of services/account-service/src/repositories/accountRepository.js. An email address is a number:
-- it is only compared.
use vault_core.Prelude.{◌==◌, if◌then◌else◌, ℕ, String, Bool, not, ◌&&◌, Option, none, some}
use vault_core.Table.{Table}
use vault_core.Ledger.Service.{UserRole}

pub record User : Type 0 where
  pub email : ℕ
  pub password_hash : String
  pub first_name : String
  pub last_name : String
  pub role : UserRole
  pub is_active : Bool
  pub is_deleted : Bool

module _ (U : Table User) where
  -- `user.findFirst({ where: { id, deletedAt: null } })`
  abbrev pub live_only : Option User → Option User
  live_only none = none
  live_only (some u) = if u.is_deleted then none else some u

  unfoldable pub find_by_id : ℕ → U.State → Option User
  find_by_id id users = live_only (U.find_unique users id)

  -- `user.findFirst({ where: { email, deletedAt: null } })`
  unfoldable pub find_by_email : ℕ → U.State → Option (ℕ × User)
  find_by_email email users = U.find_first users (λ u. u.email == email && not u.is_deleted)
