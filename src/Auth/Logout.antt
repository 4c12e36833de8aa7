-- ===== src/Auth/Logout.antt =====
-- What a logout ends, and for how long.
use mathlib.Core.Path.{subst}
use vault_core.Prelude.{
  ◌==◌, Option-cases, ℕ, String, ◌≡◌, refl, sym, ap, ◌∙◌, ◌≢◌, inl, inr, Bool, true, false, Option,
  none, some, arith,
}
use vault_core.Result.{Result, ok, err}
use vault_core.Table.{Table}
use vault_core.Account.Users.{User, find_by_email}
use vault_core.Auth.Tokens.{Claims, refresh_secret, Jwt, Bcrypt, SessionStore}
use vault_core.Auth.Service.{
  AuthError, SignupRequest, Draws, refresh_ttl, session_of, Auth, Login, generate_refresh_token,
  save_refresh_token, is_refresh_token_valid, revoke_refresh_token, open_session, new_user,
  after_create, signup, if_admitted, login, renew, refresh_token, revoke_session, caught, logout,
}
use vault_core.Auth.Sessions.{has_session, Granted, refresh_token-Granted, Granted-refresh_token}

module _ (J : Jwt) (H : Bcrypt) (U : Table User) (S : SessionStore J.Token) where
  -- What may happen while the `jti` `j` is not drawn again: calls of the service by anyone, sessions
  -- that expire, and any change of the users.
  pub data Step (j : ℕ) (a a' : Auth J H U S) : Type 0 where
    sign_up :
        (d : Draws) (req : SignupRequest)
        → (d.jti == j) ≡ false
        → a' ≡ (signup J H U S d req a).1
        → Step j a a'
    log_in :
        (d : Draws) (email : ℕ) (password : String)
        → (d.jti == j) ≡ false
        → a' ≡ (login J H U S d email password a).1
        → Step j a a'
    renew_access : (now : ℕ) (t : J.Token) → a' ≡ (refresh_token J H U S now t a).1 → Step j a a'
    log_out : (now : ℕ) (t : Option J.Token) → a' ≡ (logout J H U S now t a).1 → Step j a a'
    expire :
        (st : S.State)
        → ((v k : ℕ) → S.has a.sessions v k ≡ false → S.has st v k ≡ false)
        → a' ≡ record a { sessions = st }
        → Step j a a'
    change_users : (users : U.State) → a' ≡ record a { users = users } → Step j a a'

  pub data Reach (j : ℕ) (a : Auth J H U S) : Auth J H U S → Type 0 where
    here : Reach j a a
    next : {b c : Auth J H U S} → Reach j a b → Step j b c → Reach j a c

  -- The sessions of `j` are those of before, or fewer.
  abbrev Adds : ℕ → Auth J H U S → Auth J H U S → Type 0
  Adds j a a' = (v : ℕ) → has_session J H U S v j a ≡ false → has_session J H U S v j a' ≡ false

  open_session-Adds :
      (d : Draws) (id : ℕ) (u : User) (j : ℕ) (a : Auth J H U S)
      → (d.jti == j) ≡ false
      → Adds j a (open_session J H U S d id u a).1
  unfolding open_session save_refresh_token
  open_session-Adds d id u j a n v h = ground (
    arith,
    S.has-attempt a.sessions v j,
    S.has-set_ex (S.attempt a.sessions).1 id d.jti (generate_refresh_token J H U S d.now id d.jti)
        refresh_ttl v j,
  )

  after_create-Adds :
      (d : Draws) (u : User) (j : ℕ) (a : Auth J H U S) (q : Result AuthError (ℕ × U.State))
      → (d.jti == j) ≡ false
      → Adds j a (after_create J H U S d u a q).1
  after_create-Adds d u j a (err e) n v h = h
  after_create-Adds d u j a (ok (id, users)) n v h =
      open_session-Adds d id u j (record a { users = users }) n v h

  signup-Adds :
      (d : Draws) (req : SignupRequest) (j : ℕ) (a : Auth J H U S)
      → (d.jti == j) ≡ false
      → Adds j a (signup J H U S d req a).1
  unfolding signup
  signup-Adds d req j a n v h = elim (Option-cases (find_by_email U req.email a.users)) [
    | inl x ↦ rw (x, signup) (after_create-Adds d (new_user J H U S d req) j a _ n v h)
    | inr (f, x) ↦ rw (x, signup) h
  ]

  if_admitted-Adds :
      (active matches : Bool) (j : ℕ) (a : Auth J H U S)
      (rest : Result AuthError (Login J H U S) × Auth J H U S)
      → Adds j a rest.1
      → Adds j a (if_admitted J H U S active matches a rest).1
  if_admitted-Adds false matches j a rest k v h = h
  if_admitted-Adds true false j a rest k v h = h
  if_admitted-Adds true true j a rest k v h = k v h

  login-Adds :
      (d : Draws) (email : ℕ) (password : String) (j : ℕ) (a : Auth J H U S)
      → (d.jti == j) ≡ false
      → Adds j a (login J H U S d email password a).1
  unfolding login
  login-Adds d email password j a n v h = elim (Option-cases (find_by_email U email a.users)) [
    | inl x ↦ rw (x, login) h
    | inr ((id, u), x) ↦
        rw (x, login)
          (if_admitted-Adds u.is_active (H.compare password u.password_hash) j a
            (open_session J H U S d id u a) (open_session-Adds d id u j a n) v h)
  ]

  renew-state :
      (now id : ℕ) (q : Result AuthError Bool × Auth J H U S) → (renew J H U S now id q).1 ≡ q.1
  renew-state now id (err e, a) = refl
  renew-state now id (ok false, a) = refl
  renew-state now id (ok true, a) = ground arith

  refresh-Adds :
      (now : ℕ) (t : J.Token) (j : ℕ) (a : Auth J H U S)
      → Adds j a (refresh_token J H U S now t a).1
  unfolding refresh_token is_refresh_token_valid
  refresh-Adds now t j a v h = elim (Option-cases (J.verify refresh_secret now t)) [
    | inl x ↦ rw (x, refresh_token) h
    | inr (c, x) ↦ elim (Option-cases (session_of c)) [
      | inl y ↦ rw (x, y, refresh_token) h
      | inr ((id, k), y) ↦
          rw (x, y, refresh_token)
            (ap (λ b. has_session J H U S v j b)
                (renew-state now id (is_refresh_token_valid J H U S id k a))
              ∙ S.has-attempt a.sessions v j
              ∙ h)
    ]
  ]

  revoke-Adds : (id k j : ℕ) (a : Auth J H U S) → Adds j a (revoke_refresh_token J H U S id k a).1
  unfolding revoke_refresh_token
  revoke-Adds id k j a v h =
      ground (arith, S.has-attempt a.sessions v j, S.has-del (S.attempt a.sessions).1 id k v j)

  caught-state : (q : Result AuthError (Unit {0}) × Auth J H U S) → (caught J H U S q).1 ≡ q.1
  caught-state (ok done, a) = refl
  caught-state (err e, a) = refl

  logout-Adds :
      (now : ℕ) (t : Option J.Token) (j : ℕ) (a : Auth J H U S)
      → Adds j a (logout J H U S now t a).1
  unfolding logout revoke_session
  logout-Adds now none j a v h = h
  logout-Adds now (some t) j a v h = elim (Option-cases (J.verify refresh_secret now t)) [
    | inl x ↦ rw (x, logout, revoke_session) h
    | inr (c, x) ↦ elim (Option-cases (session_of c)) [
      | inl y ↦ rw (x, y, logout, revoke_session) h
      | inr ((id, k), y) ↦
          rw (x, y, logout, revoke_session)
            (ap (λ b. has_session J H U S v j b)
                (caught-state (revoke_refresh_token J H U S id k a))
              ∙ revoke-Adds id k j a v h)
    ]
  ]

  Step-Adds : (j : ℕ) (a a' : Auth J H U S) → Step j a a' → Adds j a a'
  Step-Adds j a a' (sign_up d req n e) v h = rw e (signup-Adds d req j a n v h)
  Step-Adds j a a' (log_in d email password n e) v h = rw e (login-Adds d email password j a n v h)
  Step-Adds j a a' (renew_access now t e) v h = rw e (refresh-Adds now t j a v h)
  Step-Adds j a a' (log_out now t e) v h = rw e (logout-Adds now t j a v h)
  Step-Adds j a a' (expire st f e) v h = rw e (f v j h)
  Step-Adds j a a' (change_users users e) v h = rw e h

  Reach-Adds : (j : ℕ) (a a' : Auth J H U S) → Reach j a a' → Adds j a a'
  Reach-Adds j a a' here v h = h
  Reach-Adds j a a' (next r s) v h = Step-Adds j _ a' s v (Reach-Adds j a _ r v h)

  abbrev session_of_claims : Option Claims → Option (ℕ × ℕ)
  session_of_claims none = none
  session_of_claims (some c) = session_of c

  logged_out :
      (now id j : ℕ) (t : J.Token) (c : Claims) (a : Auth J H U S)
      → J.verify refresh_secret now t ≡ some c
      → session_of c ≡ some (id, j)
      → (S.attempt a.sessions).0 ≡ true
      → has_session J H U S id j (logout J H U S now (some t) a).1 ≡ false
  unfolding logout revoke_session revoke_refresh_token
  logged_out now id j t c a v n up =
      rw (v, n, up, logout, revoke_session)
        (ground (arith, S.has-del (S.attempt a.sessions).1 id j id j))

  -- After a logout whose revocation Redis carried out, whatever signups, logins, renewals, logouts,
  -- expiries and changes of the users follow, as long as the same `jti` is not drawn again, no token
  -- with the claims of that session gets an access token.
  pub logout_is_final :
      (now later id j : ℕ) (t u x : J.Token) (c c' : Claims) (a a' : Auth J H U S)
      → J.verify refresh_secret now t ≡ some c
      → session_of c ≡ some (id, j)
      → (S.attempt a.sessions).0 ≡ true
      → Reach j (logout J H U S now (some t) a).1 a'
      → J.verify refresh_secret later u ≡ some c'
      → session_of c' ≡ some (id, j)
      → (refresh_token J H U S later u a').0 ≢ ok x
  logout_is_final now later id j t u x c c' a a' v n up r v' n' h =
      let g = refresh_token-Granted J H U S later u x a' h in
      let closed = Reach-Adds j _ a' r id (logged_out now id j t c a v n up) in
      let same_session =
        sym n'
        ∙ subst (λ o. session_of_claims o ≡ some (g.id, g.j)) (sym g.verified ∙ v') g.names in
      ground (arith, closed, g.live, same_session)

  -- Where Redis does not answer the revocation, `logout` reports success like any other, and a token
  -- that would have renewed the access goes on doing so as soon as Redis answers again.
  pub logout_swallows_failure :
      (now later : ℕ) (t x : J.Token) (a : Auth J H U S)
      → (S.attempt a.sessions).0 ≡ false
      → (S.attempt (logout J H U S now (some t) a).1.sessions).0 ≡ true
      → Granted J H U S later t x a
      → ((logout J H U S now (some t) a).0 ≡ ok "Logged out successfully")
        × ((refresh_token J H U S later t (logout J H U S now (some t) a).1).0 ≡ ok x)
  unfolding logout revoke_session revoke_refresh_token
  logout_swallows_failure now later t x a down up g =
      let a' = (logout J H U S now (some t) a).1 in
      let open_still : has_session J H U S g.id g.j a' ≡ true =
        ground (arith, S.has-attempt a.sessions g.id g.j, g.live) in
      let users_still : a'.users ≡ a.users = ground arith in
      (
        ground arith,
        Granted-refresh_token J H U S later t x a' up (record {
          claims = g.claims;
          verified = g.verified;
          id = g.id;
          j = g.j;
          names = g.names;
          live = open_still;
          user = g.user;
          found = rw users_still g.found;
          active = g.active;
          renewed = g.renewed;
        }),
      )
