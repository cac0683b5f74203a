-- ===== src/Tests/Accounts.antt =====
-- A small set of accounts, and what happens to them.
use rag_kb.Base.{
  ℕ, ◌≡◌, ◌≢◌, refl, ◌⊎◌, String, true, false, [], ◌∷◌, none, some, arith, leb, if◌then◌else◌,
  eq_iff,
}
use rag_kb.Base.Dict
use rag_kb.Base.Equality.{◌==◌, string_eq}
use rag_kb.Errors.{Result, ok, err, authentication, conflict}
use rag_kb.Auth.Security.{Jwt, Passwords, Settings, Payload, access, token_payload, create_token}
use rag_kb.Auth.Store.{
  User, user, RefreshToken, VerificationToken, email_verification, password_reset, World,
  get_by_email, get_by_id, valid_refresh_token,
}
use rag_kb.Auth.Service.{
  AuthService, Draws, TokenResponse, login, refresh_session, verify_email, reset_password, register,
}
use rag_kb.Auth.Sessions.{may_log_in, response, issued, login_exact, refresh_once}
use rag_kb.Auth.Links.{IsRow, Linked, IsLive, Verified, Refused, verify_email_exact}
use rag_kb.Auth.Resets.{reset_password_ends_sessions, reset_password_takes_effect}
use rag_kb.Auth.Accounts.{IsTaken, HasUniqueEmails, new_user, register-HasUniqueEmails}

abbrev settings : Settings
settings = record {
  access_token_expire = 10;
  refresh_token_expire = 100;
  email_verification_token_expire = 50;
  password_reset_token_expire = 20;
}

abbrev first_payload : Payload
first_payload = token_payload settings 5 1 access "j1" []

-- A key that has signed one payload, with a token that lives until 15.
abbrev one_key : Jwt
one_key = record {
  encode = λ p. "signed";
  decode = λ now token. if leb now 15 then some first_payload else none;
}

abbrev plain : Passwords
plain = record { hash = λ p. p; verify = λ p h. p == h; verify-hash = λ p. (eq_iff p p).1 refl }

abbrev service : AuthService
service = record { jwt = one_key; passwords = plain; settings = settings }

abbrev ann : User
ann = record {
  id = 1;
  email = "ann@example.org";
  hashed_password = "secret";
  full_name = none;
  is_active = true;
  is_verified = false;
  role = user;
}

abbrev draws : ℕ → String → Draws
draws now text = record {
  now = now;
  new_id = 2;
  raw_token = text;
  access_jti = "a";
  refresh_jti = "r";
}

abbrev world : World
world = record {
  db = record {
    users = ann ∷ [];
    refresh_tokens = record { user_id = 1; token = "old"; expires_at = 90; revoked = false } ∷ [];
    verification_tokens =
        record {
          user_id = 1;
          token = "link";
          purpose = email_verification;
          expires_at = 40;
          used_at = none;
        }
        ∷ record {
          user_id = 1;
          token = "reset";
          purpose = password_reset;
          expires_at = 40;
          used_at = none;
        }
        ∷ [];
  };
  outbox = [];
}

login_exact_example :
    ((u : User) × (get_by_email "ann@example.org" world.users ≡ some u)
      × (may_log_in service "secret" (some u) ≡ true)
      × (login service (draws 5 "t") "ann@example.org" "secret" world ≡ (
        ok (response service (draws 5 "t") u),
        issued service (draws 5 "t") u world.refresh_tokens world,
      )))
    ⊎ ((may_log_in service "secret" (get_by_email "ann@example.org" world.users) ≡ false)
        × (login service (draws 5 "t") "ann@example.org" "secret" world
            ≡ (err authentication, world)))
login_exact_example = login_exact service (draws 5 "t") "ann@example.org" "secret" world

abbrev refreshed : Result TokenResponse × World
refreshed = refresh_session service (draws 6 "t") "old" world

refresh_once_example :
    refresh_session service (draws 7 "t") "old" refreshed.1 ≡ (err authentication, refreshed.1)
refresh_once_example =
    refresh_once service (draws 6 "t") (draws 7 "t") "old" world refreshed.1
      (record { access_token = "signed"; refresh_token = "signed" })
      (unfold refresh_session create_token in refl) (ground (arith, eq_iff "signed" "old"))

verify_email_exact_example :
    ((row : VerificationToken) × (u : User) × (w' : World) × IsRow row world.verification_tokens
      × IsLive 6 "link" email_verification row
      × (get_by_id row.user_id world.users ≡ some u)
      × (verify_email (draws 6 "t") "link" world ≡ (ok (record u { is_verified = true }), w'))
      × Verified "link" row u world w')
    ⊎ (Refused (draws 6 "t") email_verification "link" world
        × (verify_email (draws 6 "t") "link" world ≡ (err authentication, world)))
verify_email_exact_example = verify_email_exact (draws 6 "t") "link" world

abbrev bob : User
bob = record {
  id = 3;
  email = "bob@example.org";
  hashed_password = "hidden";
  full_name = none;
  is_active = true;
  is_verified = true;
  role = user;
}

abbrev two_users : World
two_users = record world {
  db = record {
    users = ann ∷ bob ∷ [];
    refresh_tokens =
        record { user_id = 1; token = "old"; expires_at = 90; revoked = false }
        ∷ record { user_id = 3; token = "bobs"; expires_at = 90; revoked = false }
        ∷ [];
    verification_tokens = world.verification_tokens;
  };
}

abbrev after_reset : Result (Unit {0}) × World
after_reset = reset_password service (draws 6 "t") "reset" "new" two_users

abbrev bobs_refresh : Result TokenResponse × World
bobs_refresh = refresh_session service (draws 7 "t") "bobs" after_reset.1

reset_password_ends_sessions_example :
    (row : VerificationToken) × (u : User) × (stored : RefreshToken) × Linked
      (draws 6 "t")
      password_reset
      "reset"
      two_users
      row
      u
    × (valid_refresh_token 7 "bobs" after_reset.1.refresh_tokens ≡ some stored)
    × (stored.user_id ≢ u.id)
reset_password_ends_sessions_example =
    reset_password_ends_sessions service (draws 6 "t") (draws 7 "t") "reset" "new" "bobs" two_users
      after_reset.1 bobs_refresh.1 (record { access_token = "signed"; refresh_token = "signed" })
      (unfold reset_password in refl) (unfold refresh_session reset_password create_token in refl)

reset_password_takes_effect_example :
    ((row : VerificationToken) × (u : User) × Linked
        (draws 6 "t")
        password_reset
        "reset"
        two_users
        row
        u
      × (may_log_in service "new" (get_by_id row.user_id after_reset.1.users) ≡ u.is_active))
    × (reset_password service (draws 7 "t") "reset" "other" after_reset.1
        ≡ (err authentication, after_reset.1))
reset_password_takes_effect_example =
    reset_password_takes_effect service (draws 6 "t") (draws 7 "t") "reset" "new" "other" two_users
      after_reset.1 (unfold reset_password in refl)

register-HasUniqueEmails_example :
    HasUniqueEmails (register service (draws 6 "t") "eve@example.org" "pw" none two_users).1.users
    × ((IsTaken "eve@example.org" two_users.users
          × (register service (draws 6 "t") "eve@example.org" "pw" none two_users
              ≡ (err conflict, two_users)))
        ⊎ (((register service (draws 6 "t") "eve@example.org" "pw" none two_users).0
              ≡ ok (new_user service (draws 6 "t") "eve@example.org" "pw" none))
            × (get_by_email "eve@example.org" two_users.users ≡ none)
            × (get_by_email "eve@example.org"
                  (register service (draws 6 "t") "eve@example.org" "pw" none two_users).1.users
                ≡ some (new_user service (draws 6 "t") "eve@example.org" "pw" none))))
register-HasUniqueEmails_example =
    register-HasUniqueEmails service (draws 6 "t") "eve@example.org" "pw" none two_users (
      unfold HasUniqueEmails in
      ((ground (arith, eq_iff "ann@example.org" "bob@example.org"), tt), (tt, tt)))

abbrev newest_row : VerificationToken
newest_row = record {
  user_id = 1;
  token = "next";
  purpose = password_reset;
  expires_at = 26;
  used_at = none;
}
