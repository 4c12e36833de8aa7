-- ===== src/Auth/Sessions.antt =====
-- The life of a session: when a refresh token renews, and what ends it.
use vault_core.Prelude.{
  Option-cases, ℕ, ◌≡◌, refl, sym, ap, ◌∙◌, inl, inr, Bool, true, false, some, arith,
}
use vault_core.Result.{Result, ok, err}
use vault_core.Table.{Table}
use vault_core.Account.Users.{User, find_by_id}
use vault_core.Auth.Tokens.{Claims, refresh_secret, Jwt, Bcrypt, SessionStore}
use vault_core.Auth.Service.{
  AuthError, session_of, Auth, generate_access_token, is_refresh_token_valid, renew, refresh_token,
}

module _ (J : Jwt) (H : Bcrypt) (U : Table User) (S : SessionStore J.Token) where
  abbrev pub has_session : ℕ → ℕ → Auth J H U S → Bool
  has_session id j a = S.has a.sessions id j

  -- What a renewed access token stands on.
  pub record Granted (now : ℕ) (t x : J.Token) (a : Auth J H U S) : Type 0 where
    pub claims : Claims
    pub verified : J.verify refresh_secret now t ≡ some claims
    pub id : ℕ
    pub j : ℕ
    pub names : session_of claims ≡ some (id, j)
    pub live : has_session id j a ≡ true
    pub user : User
    pub found : find_by_id U id a.users ≡ some user
    pub active : user.is_active ≡ true
    pub renewed : x ≡ generate_access_token J H U S now id user

  valid-open :
      (id j : ℕ) (a : Auth J H U S)
      → (is_refresh_token_valid J H U S id j a).0 ≡ ok true
      → has_session id j a ≡ true
  unfolding is_refresh_token_valid
  valid-open id j a h = ground (arith, S.has-attempt a.sessions id j)

  valid-users :
      (id j : ℕ) (a : Auth J H U S) → (is_refresh_token_valid J H U S id j a).1.users ≡ a.users
  unfolding is_refresh_token_valid
  valid-users id j a = refl

  renewed-Granted :
      (now id j : ℕ) (t x : J.Token) (c : Claims) (a : Auth J H U S)
      (q : Result AuthError Bool × Auth J H U S)
      → J.verify refresh_secret now t ≡ some c
      → session_of c ≡ some (id, j)
      → (q.0 ≡ ok true → has_session id j a ≡ true)
      → q.1.users ≡ a.users
      → (renew J H U S now id q).0 ≡ ok x
      → Granted now t x a
  renewed-Granted now id j t x c a (err e, b) v n o same h = absurd (ground arith)
  renewed-Granted now id j t x c a (ok false, b) v n o same h = absurd (ground arith)
  renewed-Granted now id j t x c a (ok true, b) v n o same h =
      elim (Option-cases (find_by_id U id b.users)) [
        | inl gone ↦ absurd (ground arith)
        | inr (u, found) ↦ record {
          claims = c;
          verified = v;
          id = id;
          j = j;
          names = n;
          live = o refl;
          user = u;
          found = rw (← same) found;
          active = ground arith;
          renewed = ground arith;
        }
      ]

  -- Where `refreshToken` gives a new access token, the refresh token verifies, its session is still in
  -- Redis, its user exists and is active, and the new token is signed for that user with the email
  -- address and the role that the database holds now.
  pub refresh_token-Granted :
      (now : ℕ) (t x : J.Token) (a : Auth J H U S)
      → (refresh_token J H U S now t a).0 ≡ ok x
      → Granted now t x a
  unfolding refresh_token
  refresh_token-Granted now t x a h = elim (Option-cases (J.verify refresh_secret now t)) [
    | inl bad ↦ absurd (ground arith)
    | inr (c, v) ↦ elim (Option-cases (session_of c)) [
      | inl bad ↦ absurd (ground arith)
      | inr ((id, j), n) ↦
          renewed-Granted now id j t x c a (is_refresh_token_valid J H U S id j a) v n
            (valid-open id j a) (valid-users id j a) (ground arith)
    ]
  ]

  -- The other way: all of that is enough, where Redis answers.
  pub Granted-refresh_token :
      (now : ℕ) (t x : J.Token) (a : Auth J H U S)
      → (S.attempt a.sessions).0 ≡ true
      → Granted now t x a
      → (refresh_token J H U S now t a).0 ≡ ok x
  unfolding refresh_token is_refresh_token_valid
  Granted-refresh_token now t x a up g =
      let still : S.has (S.attempt a.sessions).1 g.id g.j ≡ true =
        S.has-attempt a.sessions g.id g.j ∙ g.live in
      rw (g.verified, g.names, up, still, g.found, g.active, refresh_token) (ap ok (sym g.renewed))
