-- ===== src/Auth/Service.antt =====
-- The methods of `AuthService`, and the session that app/db/dependencies.py gives each request. The
-- clock and the random draws of a call are arguments.
use rag_kb.Base.{ℕ, ◌+◌, String, true, false, not, [], ◌∷◌, ◌++◌, Option, none, some, if◌then◌else◌}
use rag_kb.Errors.{ok, err, conflict, authentication}
use rag_kb.Auth.Security.{Jwt, Passwords, Settings, access, refresh, create_token}
use rag_kb.Auth.Store.{
  User, user, RefreshToken, VerificationToken, TokenPurpose, email_verification, password_reset, Db,
  Email, Action, pure, raise, gets, modify, ◌>>=◌, ◌>>◌, get_by_id, get_by_email, update_user,
  valid_refresh_token, revoke, revoke_all_for_user, valid_verification_token,
  invalidate_active_tokens_for_user, mark_used, is_none,
}

pub record AuthService : Type 0 where
  pub jwt : Jwt
  pub passwords : Passwords
  pub settings : Settings

-- What a call draws: the time, the id of a new row, the token of a link, and two ids of tokens.
pub record Draws : Type 0 where
  pub now : ℕ
  pub new_id : ℕ
  pub raw_token : String
  pub access_jti : String
  pub refresh_jti : String

pub record TokenResponse : Type 0 where
  pub access_token : String
  pub refresh_token : String

abbrev link_lifetime : Settings → TokenPurpose → ℕ
link_lifetime s email_verification = s.email_verification_token_expire
link_lifetime s password_reset = s.password_reset_token_expire

-- The tables after a new link for `u`: the old ones are used up, the new one is the only one.
abbrev link_tables : AuthService → Draws → TokenPurpose → User → Db → Db
link_tables s d purpose u db = record db {
  verification_tokens =
      invalidate_active_tokens_for_user d.now u.id purpose db.verification_tokens
      ++ record {
        user_id = u.id;
        token = d.raw_token;
        purpose = purpose;
        expires_at = d.now + link_lifetime s.settings purpose;
        used_at = none;
      }
        ∷ [];
}

abbrev send : Email → Action (Unit {0})
send m w = (ok tt, record w { outbox = w.outbox ++ m ∷ [] })

-- The part that `_send_verification_email` and `forgot_password` share but for the purpose.
unfoldable pub send_link : AuthService → Draws → TokenPurpose → User → Action (Unit {0})
unfolding invalidate_active_tokens_for_user
send_link s d purpose u = do
  modify (link_tables s d purpose u)
  send (record {
    to_address = u.email;
    purpose = purpose;
    full_name = u.full_name;
    link_token = d.raw_token;
  })

-- `register`
unfoldable pub register : AuthService → Draws → String → String → Option String → Action User
unfolding get_by_email send_link
register s d email password full_name = do
  existing ← gets (λ w. get_by_email email w.users)
  if not (is_none existing) then raise conflict else do
    let created : User = record {
      id = d.new_id;
      email = email;
      hashed_password = s.passwords.hash password;
      full_name = full_name;
      is_active = true;
      is_verified = false;
      role = user;
    }
    modify (λ db. record db { users = db.users ++ created ∷ [] })
    send_link s d email_verification created
    pure created

-- `_issue_tokens`
unfoldable pub issue_tokens : AuthService → Draws → User → Action TokenResponse
unfolding create_token
issue_tokens s d u = do
  let access_token = create_token s.jwt s.settings d.now u.id access d.access_jti []
  let refresh_token = create_token s.jwt s.settings d.now u.id refresh d.refresh_jti []
  modify λ db. record db {
    refresh_tokens =
        db.refresh_tokens
        ++ record {
          user_id = u.id;
          token = refresh_token;
          expires_at = d.now + s.settings.refresh_token_expire;
          revoked = false;
        }
          ∷ [];
  }
  pure (record { access_token = access_token; refresh_token = refresh_token })

abbrev checked_login : AuthService → Draws → String → Option User → Action TokenResponse
checked_login s d password none = raise authentication
checked_login s d password (some u) =
    if not (s.passwords.verify password u.hashed_password)
    then raise authentication
    else if not u.is_active
    then raise authentication
    else issue_tokens s d u

-- `login`
unfoldable pub login : AuthService → Draws → String → String → Action TokenResponse
unfolding get_by_email issue_tokens
login s d email password = do
  found ← gets (λ w. get_by_email email w.users)
  checked_login s d password found

abbrev rotated : AuthService → Draws → RefreshToken → Option User → Action TokenResponse
rotated s d stored none = raise authentication
rotated s d stored (some u) = if not u.is_active then raise authentication else do
  modify (λ db. record db { refresh_tokens = revoke stored db.refresh_tokens })
  issue_tokens s d u

abbrev with_refresh_token : AuthService → Draws → Option RefreshToken → Action TokenResponse
with_refresh_token s d none = raise authentication
with_refresh_token s d (some stored) = do
  found ← gets (λ w. get_by_id stored.user_id w.users)
  rotated s d stored found

-- `refresh`
unfoldable pub refresh_session : AuthService → Draws → String → Action TokenResponse
unfolding valid_refresh_token get_by_id revoke issue_tokens
refresh_session s d refresh_token = do
  stored ← gets (λ w. valid_refresh_token d.now refresh_token w.refresh_tokens)
  with_refresh_token s d stored

abbrev unless_verified : AuthService → Draws → Option User → Action (Unit {0})
unless_verified s d none = pure tt
unless_verified s d (some u) = if u.is_verified then pure tt else send_link s d email_verification u

-- `resend_verification_email`
unfoldable pub resend_verification_email : AuthService → Draws → String → Action (Unit {0})
unfolding get_by_email send_link
resend_verification_email s d email = do
  found ← gets (λ w. get_by_email email w.users)
  unless_verified s d found

-- What following a link does: the change of the user, what is done after it, and the answer.
record Following (A : Type 0) : Type 0 where
  change : User → User
  after : User → Db → Db
  answer : User → A

abbrev changed : {A : Type 0} → Draws → Following A → VerificationToken → Option User → Action A
changed d f row none = raise authentication
changed d f row (some u) = do
  modify (λ db. record db { users = update_user (f.change u) db.users })
  modify (λ db. record db { verification_tokens = mark_used d.now row db.verification_tokens })
  modify (f.after (f.change u))
  pure (f.answer (f.change u))

abbrev with_link : {A : Type 0} → Draws → Following A → Option VerificationToken → Action A
with_link d f none = raise authentication
with_link d f (some row) = do
  found ← gets (λ w. get_by_id row.user_id w.users)
  changed d f row found

-- A link is followed: its row, its user, then what is done to the user.
abbrev follow_link : {A : Type 0} → Draws → TokenPurpose → String → Following A → Action A
follow_link d purpose token f = do
  row ← gets (λ w. valid_verification_token d.now token purpose w.verification_tokens)
  with_link d f row

-- `verify_email`
unfoldable pub verify_email : Draws → String → Action User
unfolding valid_verification_token get_by_id update_user mark_used
verify_email d token =
    follow_link d email_verification token (record {
      change = λ u. record u { is_verified = true };
      after = λ u db. db;
      answer = λ u. u;
    })

abbrev if_known : AuthService → Draws → Option User → Action (Unit {0})
if_known s d none = pure tt
if_known s d (some u) = send_link s d password_reset u

-- `forgot_password`
unfoldable pub forgot_password : AuthService → Draws → String → Action (Unit {0})
unfolding get_by_email send_link
forgot_password s d email = do found ← gets (λ w. get_by_email email w.users); if_known s d found

-- `reset_password`
unfoldable pub reset_password : AuthService → Draws → String → String → Action (Unit {0})
unfolding valid_verification_token get_by_id update_user mark_used revoke_all_for_user
reset_password s d token new_password = follow_link d password_reset token (record {
  change = λ u. record u { hashed_password = s.passwords.hash new_password };
  after = λ u db. record db { refresh_tokens = revoke_all_for_user u.id db.refresh_tokens };
  answer = λ u. tt;
})

-- `get_db_session`: a request commits what it did, or rolls the tables back if it raised.
unfoldable pub request : {A : Type 0} → Action A → Action A
request m w = elim (m w).0 [
  | ok a ↦ (ok a, (m w).1)
  | err e ↦ (err e, record (m w).1 { db = w.db })
]
