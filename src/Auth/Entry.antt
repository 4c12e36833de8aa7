-- ===== src/Auth/Entry.antt =====
-- Signup: what a new user can do, and what is left where Redis fails.
use vault_core.Prelude.{
  ◌==◌, if◌then◌else◌, Bool-cases, Option-cases, ℕ, ◌≡◌, refl, sym, ap, ◌∙◌, inl, inr, Bool, true,
  false, not, ◌&&◌, none, some, arith,
}
use vault_core.Result.{ok, err, Result-cases}
use vault_core.Table.{Table}
use vault_core.Table.Rows.{lookup, lookup-cons}
use vault_core.Account.Users.{User, find_by_email}
use vault_core.Auth.Tokens.{Jwt, Bcrypt, SessionStore}
use vault_core.Auth.Service.{
  email_exists, redis_error, SignupRequest, SafeUser, Draws, refresh_ttl, role_or_customer,
  safe_user, Auth, Login, generate_access_token, generate_refresh_token, save_refresh_token,
  open_session, create_user, new_user, signup, login,
}
use vault_core.Auth.Sessions.{has_session}

module _ (J : Jwt) (H : Bcrypt) (U : Table User) (S : SessionStore J.Token) where
  -- A new live user is the one that is found by its email, where none was found before.
  find_by_email-create :
      (u : User) (users : U.State)
      → find_by_email U u.email users ≡ none
      → u.is_deleted ≡ false
      → find_by_email U u.email (U.create users u).1 ≡ some ((U.create users u).0, u)
  unfolding find_by_email
  find_by_email-create u users before live =
      let id = (U.create users u).0 in
      let after = (U.create users u).1 in
      let rows = U.rows-create users u in
      let hits : User → Bool = λ v. v.email == u.email && not v.is_deleted in
      let hit : hits u ≡ true = ground (arith, live) in
      let at : (k : ℕ)
          → lookup k (U.rows after) ≡ (if id == k then some u else lookup k (U.rows users)) =
        λ k. rw rows (lookup-cons id k u (U.rows users)) in
      elim (Option-cases (find_by_email U u.email after)) [
        | inl gone ↦ absurd (ground (arith, hit, at id, U.find_first_complete after hits id u gone))
        | inr ((k, v), e) ↦
            let s = U.find_first_sound after hits k v e in
            elim (Bool-cases (id == k)) [
              | inl x ↦ ground (arith, e, at k, s)
              | inr x ↦
                  absurd (ground (arith, at k, s, U.find_first_complete users hits k v before))
            ]
      ]

  pub record Opened (d : Draws) (id : ℕ) (u : User) (r : Login J H U S) (a a' : Auth J H U S)
      : Type 0 where
    pub session : has_session J H U S id d.jti a' ≡ true
    pub same_users : a'.users ≡ a.users
    pub user : r.user ≡ safe_user id u
    pub refresh : r.refresh_token ≡ generate_refresh_token J H U S d.now id d.jti

  pub open_session-Opened :
      (d : Draws) (id : ℕ) (u : User) (r : Login J H U S) (a a' : Auth J H U S)
      → open_session J H U S d id u a ≡ (ok r, a')
      → Opened d id u r a a'
  unfolding open_session save_refresh_token
  open_session-Opened d id u r a a' h = elim (Bool-cases (S.attempt a.sessions).0) [
    | inr down ↦ absurd (ground arith)
    | inl up ↦ record {
      session = ground (
        arith,
        S.has-set_ex (S.attempt a.sessions).1 id d.jti
            (generate_refresh_token J H U S d.now id d.jti) refresh_ttl id d.jti,
      );
      same_users = ground arith;
      user = ground arith;
      refresh = ground arith;
    }
  ]

  -- What `signup` has done where no live user had the email.
  create_user-created :
      (u : User) (id : ℕ) (users users' : U.State)
      → create_user J H U S u users ≡ ok (id, users')
      → (id ≡ (U.create users u).0) × (users' ≡ (U.create users u).1)
  unfolding create_user
  create_user-created u id users users' h = (ground arith, ground arith)

  signed_up :
      (d : Draws) (req : SignupRequest) (a : Auth J H U S) (id : ℕ) (users : U.State)
      → find_by_email U req.email a.users ≡ none
      → create_user J H U S (new_user J H U S d req) a.users ≡ ok (id, users)
      → find_by_email U req.email users ≡ some (id, new_user J H U S d req)
  signed_up d req a id users free made =
      let u = new_user J H U S d req in
      let (same_id, same_users) = create_user-created u id a.users users made in
      rw (same_id, same_users) (find_by_email-create u a.users free refl)

  open_session-users :
      (d : Draws) (id : ℕ) (u : User) (a : Auth J H U S)
      → (open_session J H U S d id u a).1.users ≡ a.users
  unfolding open_session save_refresh_token
  open_session-users d id u a = ground arith

  pub open_session-up :
      (d : Draws) (id : ℕ) (u : User) (a : Auth J H U S)
      → (S.attempt a.sessions).0 ≡ true
      → (r : Login J H U S) × ((open_session J H U S d id u a).0 ≡ ok r) × (r.user ≡ safe_user id u)
  unfolding open_session save_refresh_token
  open_session-up d id u a up = (
    record {
      user = safe_user id u;
      access_token = generate_access_token J H U S d.now id u;
      refresh_token = generate_refresh_token J H U S d.now id d.jti;
    },
    rw up refl,
    refl,
  )

  -- A signup that succeeds registers the user with the role that it asked for, whatever that is, and
  -- CUSTOMER if it asked for none; and while Redis answers, a login with the same email and password
  -- then succeeds for the same user.
  pub signup-login :
      (d d' : Draws) (req : SignupRequest) (r : Login J H U S) (a a' : Auth J H U S)
      → signup J H U S d req a ≡ (ok r, a')
      → (S.attempt a'.sessions).0 ≡ true
      → (r.user.role ≡ role_or_customer req.role)
        × ((r' : Login J H U S) × ((login J H U S d' req.email req.password a').0 ≡ ok r')
            × (r'.user ≡ r.user))
  unfolding signup login
  signup-login d d' req r a a' h up =
      let u = new_user J H U S d req in
      elim (Option-cases (find_by_email U req.email a.users)) [
        | inr (f, x) ↦ absurd (ground arith)
        | inl free ↦ elim (Result-cases (create_user J H U S u a.users)) [
          | inr (e, x) ↦ absurd (ground arith)
          | inl ((id, users), made) ↦
              let b : Auth J H U S = record a { users = users } in
              let opens : open_session J H U S d id u b ≡ (ok r, a') = ground arith in
              let o = open_session-Opened d id u r b a' opens in
              let found : find_by_email U req.email a'.users ≡ some (id, u) =
                rw o.same_users (signed_up d req a id users free made) in
              let (r', again, same) = open_session-up d' id u a' up in
              (
                ap (λ (s : SafeUser). s.role) o.user,
                (
                  r',
                  rw (found, H.compare-hash d.salt req.password, login) again,
                  same ∙ sym o.user,
                ),
              )
        ]
      ]

  -- Where Redis does not answer, a signup with a free email throws although it has created the user,
  -- and signing up again with that email is a conflict.
  pub signup_without_redis :
      (d d' : Draws) (req req' : SignupRequest) (a : Auth J H U S) (id : ℕ) (users : U.State)
      → find_by_email U req.email a.users ≡ none
      → create_user J H U S (new_user J H U S d req) a.users ≡ ok (id, users)
      → (S.attempt a.sessions).0 ≡ false
      → req'.email ≡ req.email
      → ((signup J H U S d req a).0 ≡ err redis_error)
        × ((signup J H U S d' req' (signup J H U S d req a).1).0 ≡ err email_exists)
  unfolding signup open_session save_refresh_token
  signup_without_redis d d' req req' a id users free made down same =
      let found = signed_up d req a id users free made in
      (rw (free, made, down, signup) refl, rw (free, made, down, same, found, signup) refl)
