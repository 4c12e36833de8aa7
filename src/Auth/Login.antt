-- ===== src/Auth/Login.antt =====
-- Login: who is let in, and what the session is good for.
use vault_core.Prelude.{
  ◌==◌, Bool-cases, Option-cases, ℕ, ◌+◌, ◌<◌, String, ◌≡◌, refl, ap, inl, inr, Bool, true, false,
  not, ◌&&◌, none, some, arith,
}
use vault_core.Result.{Result, ok, err}
use vault_core.Table.{Table}
use vault_core.Account.Users.{User, find_by_id, find_by_email}
use vault_core.Auth.Tokens.{refresh_secret, Jwt, Bcrypt, SessionStore}
use vault_core.Auth.Service.{
  AuthError, invalid_credentials, deactivated, Draws, refresh_ttl, Auth, Login, refresh_claims,
  generate_access_token, open_session, if_admitted, login, refresh_token,
}
use vault_core.Auth.Sessions.{Granted-refresh_token}
use vault_core.Auth.Entry.{Opened, open_session-Opened, open_session-up}

module _ (J : Jwt) (H : Bcrypt) (U : Table User) (S : SessionStore J.Token) where
  found-find_by_id :
      (email id : ℕ) (u : User) (users : U.State)
      → find_by_email U email users ≡ some (id, u)
      → find_by_id U id users ≡ some u
  unfolding find_by_email find_by_id
  found-find_by_id email id u users h =
      let s = U.find_first_sound users (λ v. v.email == email && not v.is_deleted) id u h in
      ground (arith, s.0, s.1, U.find_unique_lem users id)

  pub record Entered (d : Draws) (email : ℕ) (password : String) (r : Login J H U S)
      (a a' : Auth J H U S) : Type 0 where
    pub id : ℕ
    pub account : User
    pub found : find_by_email U email a.users ≡ some (id, account)
    pub active : account.is_active ≡ true
    pub matches : H.compare password account.password_hash ≡ true
    pub opened : Opened J H U S d id account r a a'

  admitted-open :
      (active matches : Bool) (a : Auth J H U S) (r : Login J H U S) (a' : Auth J H U S)
      (rest : Result AuthError (Login J H U S) × Auth J H U S)
      → if_admitted J H U S active matches a rest ≡ (ok r, a')
      → (active ≡ true) × (matches ≡ true) × (rest ≡ (ok r, a'))
  admitted-open false matches a r a' rest h = absurd (ground arith)
  admitted-open true false a r a' rest h = absurd (ground arith)
  admitted-open true true a r a' rest h = (refl, refl, h)

  login-Entered :
      (d : Draws) (email : ℕ) (password : String) (r : Login J H U S) (a a' : Auth J H U S)
      → login J H U S d email password a ≡ (ok r, a')
      → Entered d email password r a a'
  unfolding login
  login-Entered d email password r a a' h = elim (Option-cases (find_by_email U email a.users)) [
    | inl gone ↦ absurd (ground arith)
    | inr ((id, u), e) ↦
        let (active, matches, opens) =
          admitted-open u.is_active (H.compare password u.password_hash) a r a'
            (open_session J H U S d id u a) (ground arith) in
        record {
          id = id;
          account = u;
          found = e;
          active = active;
          matches = matches;
          opened = open_session-Opened J H U S d id u r a a' opens;
        }
  ]

  -- Why a login is refused.
  pub data Reason (email : ℕ) (password : String) (a : Auth J H U S) : AuthError → Type 0 where
    unknown_email :
        find_by_email U email a.users ≡ none → Reason email password a invalid_credentials
    inactive :
        (id : ℕ) (u : User)
        → find_by_email U email a.users ≡ some (id, u)
        → u.is_active ≡ false
        → Reason email password a deactivated
    wrong_password :
        (id : ℕ) (u : User)
        → find_by_email U email a.users ≡ some (id, u)
        → u.is_active ≡ true
        → H.compare password u.password_hash ≡ false
        → Reason email password a invalid_credentials

  -- How a login ends where Redis answers.
  pub data LoginOutcome (d : Draws) (later email : ℕ) (password : String) (a : Auth J H U S)
      : Type 0 where
    let_in :
        (r : Login J H U S) (a' : Auth J H U S)
        → login J H U S d email password a ≡ (ok r, a')
        → (e : Entered d email password r a a')
        → (refresh_token J H U S later r.refresh_token a').0
          ≡ ok (generate_access_token J H U S later e.id e.account)
        → LoginOutcome d later email password a
    turned_away :
        (e : AuthError)
        → login J H U S d email password a ≡ (err e, a)
        → Reason email password a e
        → LoginOutcome d later email password a

  session_renews :
      (d : Draws) (later email : ℕ) (password : String) (r : Login J H U S) (a a' : Auth J H U S)
      (e : Entered d email password r a a')
      → (S.attempt a'.sessions).0 ≡ true
      → later < d.now + refresh_ttl
      → (refresh_token J H U S later r.refresh_token a').0
        ≡ ok (generate_access_token J H U S later e.id e.account)
  session_renews d later email password r a a' e up early =
      Granted-refresh_token J H U S later r.refresh_token _ a' up (record {
        claims = refresh_claims J H U S e.id d.jti;
        verified = rw e.opened.refresh (
            J.verify-sign refresh_secret d.now refresh_ttl later (refresh_claims J H U S e.id d.jti)
              early);
        id = e.id;
        j = d.jti;
        names = refl;
        live = e.opened.session;
        user = e.account;
        found = rw e.opened.same_users (found-find_by_id email e.id e.account a.users e.found);
        active = e.active;
        renewed = refl;
      })

  refused_login :
      (d : Draws) (email : ℕ) (password : String) (a : Auth J H U S) (id : ℕ) (u : User)
      → find_by_email U email a.users ≡ some (id, u)
      → (u.is_active && H.compare password u.password_hash) ≡ false
      → (e : AuthError) × (login J H U S d email password a ≡ (err e, a))
        × Reason email password a e
  unfolding login
  refused_login d email password a id u found not_admitted = elim (Bool-cases u.is_active) [
    | inr off ↦ (deactivated, rw (found, off, login) refl, inactive id u found off)
    | inl on ↦
        let wrong : H.compare password u.password_hash ≡ false = ground arith in
        (invalid_credentials, rw (found, on, wrong, login) refl, wrong_password id u found on wrong)
  ]

  admitted_login :
      (d : Draws) (email : ℕ) (password : String) (a : Auth J H U S) (id : ℕ) (u : User)
      → find_by_email U email a.users ≡ some (id, u)
      → (u.is_active && H.compare password u.password_hash) ≡ true
      → (S.attempt a.sessions).0 ≡ true
      → (r : Login J H U S) × (login J H U S d email password a
          ≡ (ok r, (login J H U S d email password a).1))
  unfolding login
  admitted_login d email password a id u found admitted up =
      let (on, fits) : (u.is_active ≡ true) × (H.compare password u.password_hash ≡ true) =
        (ground arith, ground arith) in
      let (r, opens, same) = open_session-up J H U S d id u a up in
      (
        r,
        ap (λ o. (o, (login J H U S d email password a).1))
            (ground (arith, found, on, fits, opens)),
      )

  -- Where Redis answers, a login with the email of an active user and a password that matches succeeds
  -- and opens a session, and its refresh token, until it expires and if Redis answers then, renews the
  -- access of that user. Every other login throws, opens no session and changes nothing: the email is
  -- that of no user, or the user is deactivated, or the password does not match.
  pub login_renews :
      (d : Draws) (later email : ℕ) (password : String) (a : Auth J H U S)
      → (S.attempt a.sessions).0 ≡ true
      → (S.attempt (login J H U S d email password a).1.sessions).0 ≡ true
      → later < d.now + refresh_ttl
      → LoginOutcome d later email password a
  unfolding login
  login_renews d later email password a up up' early =
      elim (Option-cases (find_by_email U email a.users)) [
        | inl gone ↦ turned_away invalid_credentials (rw (gone, login) refl) (unknown_email gone)
        | inr ((id, u), found) ↦
            elim (Bool-cases (u.is_active && H.compare password u.password_hash)) [
              | inr x ↦
                  let (e, thrown, why) = refused_login d email password a id u found x in
                  turned_away e thrown why
              | inl x ↦
                  let a' = (login J H U S d email password a).1 in
                  let (r, ends) = admitted_login d email password a id u found x up in
                  let e = login-Entered d email password r a a' ends in
                  let_in r a' ends e (session_renews d later email password r a a' e up' early)
            ]
      ]
