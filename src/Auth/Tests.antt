-- ===== src/Auth/Tests.antt =====
-- Runs of the auth service on one user.
use vault_core.Prelude.{◌≡◌, refl, ◌≢◌, true, false, none, some, arith}
use vault_core.Result.{ok, err}
use vault_core.Table.Rows.{lookup}
use vault_core.Table.Lists.{first_row, next_id, Rows}
use vault_core.Ledger.Service.{admin}
use vault_core.Account.Users.{User, find_by_id, find_by_email}
use vault_core.Auth.Service.{
  refresh_token, email_exists, redis_error, safe_user, Login, refresh_claims, generate_access_token,
  generate_refresh_token, save_refresh_token, is_refresh_token_valid, revoke_refresh_token,
  open_session, create_user, new_user, signup, login, revoke_session, logout,
}
use vault_core.Auth.Sessions.{Granted, refresh_token-Granted}
use vault_core.Auth.Logout.{log_in, here, next, logout_is_final, logout_swallows_failure}
use vault_core.Auth.Entry.{signup-login, signup_without_redis}
use vault_core.Auth.Login.{LoginOutcome, login_renews}
use vault_core.Auth.Fixtures.{
  open_jwt, any_password, one_miss, users_table, State, bob, with_bob, draws, wants_admin,
  login_reply, logged_in,
}

redis_answers_bob :
    (one_miss.attempt
      (login open_jwt any_password users_table one_miss
        (draws 9)
        70
        "secret"
        (with_bob true)).1.sessions).0
    ≡ true
unfolding login find_by_email first_row open_session save_refresh_token
redis_answers_bob = refl

login_renews_example :
    LoginOutcome open_jwt any_password users_table one_miss
      (draws 9)
      200
      70
      "secret"
      (with_bob true)
login_renews_example =
    login_renews open_jwt any_password users_table one_miss (draws 9) 200 70 "secret"
      (with_bob true) refl redis_answers_bob (omega arith)

renewed_token :
    (refresh_token open_jwt any_password users_table one_miss 200 login_reply.refresh_token
      logged_in).0
    ≡ ok (generate_access_token open_jwt any_password users_table one_miss 200 5 bob)
unfolding refresh_token is_refresh_token_valid find_by_id lookup
renewed_token = refl

refresh_token-Granted_example :
    Granted open_jwt any_password users_table one_miss 200 login_reply.refresh_token
      (generate_access_token open_jwt any_password users_table one_miss 200 5 bob)
      logged_in
refresh_token-Granted_example =
    refresh_token-Granted open_jwt any_password users_table one_miss 200 login_reply.refresh_token
      (generate_access_token open_jwt any_password users_table one_miss 200 5 bob) logged_in
      renewed_token

abbrev logged_out_state : State
logged_out_state =
    (logout open_jwt any_password users_table one_miss 200 (some login_reply.refresh_token)
      logged_in).1

-- Another login of the same user follows the logout.
abbrev back_again : State
back_again =
    (login open_jwt any_password users_table one_miss (draws 10) 70 "secret" logged_out_state).1

logout_is_final_example :
    (refresh_token open_jwt any_password users_table one_miss 300 login_reply.refresh_token
      back_again).0
    ≢ ok (generate_access_token open_jwt any_password users_table one_miss 300 5 bob)
logout_is_final_example =
    logout_is_final open_jwt any_password users_table one_miss 200 300 5 9 login_reply.refresh_token
      login_reply.refresh_token
      (generate_access_token open_jwt any_password users_table one_miss 300 5 bob)
      (refresh_claims open_jwt any_password users_table one_miss 5 9)
      (refresh_claims open_jwt any_password users_table one_miss 5 9) logged_in back_again refl refl
      refl (next here (log_in (draws 10) 70 "secret" refl refl)) refl refl

-- Redis misses the command of the logout.
abbrev before_outage : State
before_outage = record logged_in { sessions = (false, logged_in.sessions.1) }

outage_is_over :
    (one_miss.attempt
      (logout open_jwt any_password users_table one_miss 200
        (some login_reply.refresh_token)
        before_outage).1.sessions).0
    ≡ true
unfolding logout revoke_session revoke_refresh_token
outage_is_over = refl

before_outage-Granted :
    Granted open_jwt any_password users_table one_miss 300 login_reply.refresh_token
      (generate_access_token open_jwt any_password users_table one_miss 300 5 bob)
      before_outage
unfolding find_by_id lookup
before_outage-Granted = record {
  claims = refresh_claims open_jwt any_password users_table one_miss 5 9;
  verified = refl;
  id = 5;
  j = 9;
  names = refl;
  live = refl;
  user = bob;
  found = refl;
  active = refl;
  renewed = refl;
}

logout_swallows_failure_example :
    ((logout open_jwt any_password users_table one_miss 200
        (some login_reply.refresh_token)
        before_outage).0
      ≡ ok "Logged out successfully")
    × ((refresh_token open_jwt any_password users_table one_miss 300 login_reply.refresh_token
          (logout open_jwt any_password users_table one_miss 200
            (some login_reply.refresh_token)
            before_outage).1).0
        ≡ ok (generate_access_token open_jwt any_password users_table one_miss 300 5 bob))
logout_swallows_failure_example =
    logout_swallows_failure open_jwt any_password users_table one_miss 200 300
      login_reply.refresh_token
      (generate_access_token open_jwt any_password users_table one_miss 300 5 bob) before_outage
      refl outage_is_over before_outage-Granted

abbrev eve_reply : Login open_jwt any_password users_table one_miss
eve_reply = record {
  user = safe_user 6 (new_user open_jwt any_password users_table one_miss (draws 12) wants_admin);
  access_token =
      generate_access_token open_jwt any_password users_table one_miss 100 6
        (new_user open_jwt any_password users_table one_miss (draws 12) wants_admin);
  refresh_token = generate_refresh_token open_jwt any_password users_table one_miss 100 6 12;
}

abbrev with_eve : State
with_eve =
    (signup open_jwt any_password users_table one_miss (draws 12) wants_admin (with_bob true)).1

eve_signs_up :
    signup open_jwt any_password users_table one_miss (draws 12) wants_admin (with_bob true)
    ≡ (ok eve_reply, with_eve)
unfolding signup find_by_email first_row create_user open_session save_refresh_token next_id
eve_signs_up = refl

redis_answers_eve : (one_miss.attempt with_eve.sessions).0 ≡ true
unfolding signup find_by_email first_row create_user open_session save_refresh_token next_id
redis_answers_eve = refl

signup-login_example :
    (eve_reply.user.role ≡ admin)
    × ((r : Login open_jwt any_password users_table one_miss) × ((login open_jwt any_password
            users_table one_miss
            (draws 13)
            71
            "pw"
            with_eve).0
          ≡ ok r)
        × (r.user ≡ eve_reply.user))
signup-login_example =
    signup-login open_jwt any_password users_table one_miss (draws 12) (draws 13) wants_admin
      eve_reply (with_bob true) with_eve eve_signs_up redis_answers_eve

abbrev eve_rows : Rows User
eve_rows =
    (users_table.create (with_bob true).users
      (new_user open_jwt any_password users_table one_miss (draws 12) wants_admin)).1

no_eve_yet : find_by_email users_table 71 (with_bob true).users ≡ none
unfolding find_by_email first_row
no_eve_yet = refl

eve_is_created :
    create_user open_jwt any_password users_table one_miss
      (new_user open_jwt any_password users_table one_miss (draws 12) wants_admin)
      (with_bob false).users
    ≡ ok (6, eve_rows)
unfolding create_user first_row next_id
eve_is_created = refl

signup_without_redis_example :
    ((signup open_jwt any_password users_table one_miss (draws 12) wants_admin (with_bob false)).0
      ≡ err redis_error)
    × ((signup open_jwt any_password users_table one_miss
          (draws 13)
          wants_admin
          (signup open_jwt any_password users_table one_miss
            (draws 12)
            wants_admin
            (with_bob false)).1).0
        ≡ err email_exists)
signup_without_redis_example =
    signup_without_redis open_jwt any_password users_table one_miss (draws 12) (draws 13)
      wants_admin wants_admin (with_bob false) 6 eve_rows no_eve_yet eve_is_created refl refl
