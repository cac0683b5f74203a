-- ===== src/Auth/Store.antt =====
-- The rows of users, refresh tokens and verification tokens, and the queries of their repositories:
-- app/models/{user,refresh_token,verification_token}.py and app/repositories/base.py,
-- user_repository.py, refresh_token_repository.py and verification_token_repository.py. A row is
-- told by its unique column: the id of a user, the text of a token.
use rag_kb.Base.{
  ℕ, String, Bool, true, false, not, ◌&&◌, List, map, Option, none, some, ltb, if◌then◌else◌,
  find_first,
}
use rag_kb.Base.Equality.{◌==◌, string_eq, nat_eq}
use rag_kb.Errors.{AppError, Result, ok, err}

pub data UserRole : Type 0 where
  user admin : UserRole

pub record User : Type 0 where
  pub id : ℕ
  pub email : String
  pub hashed_password : String
  pub full_name : Option String
  pub is_active : Bool
  pub is_verified : Bool
  pub role : UserRole

pub record RefreshToken : Type 0 where
  pub user_id : ℕ
  pub token : String
  pub expires_at : ℕ
  pub revoked : Bool

pub data TokenPurpose : Type 0 where
  email_verification password_reset : TokenPurpose

pub record VerificationToken : Type 0 where
  pub user_id : ℕ
  pub token : String
  pub purpose : TokenPurpose
  pub expires_at : ℕ
  pub used_at : Option ℕ

pub record Db : Type 0 where
  pub users : List User
  pub refresh_tokens : List RefreshToken
  pub verification_tokens : List VerificationToken

-- A mail, by the values that its text shows.
pub record Email : Type 0 where
  pub to_address : String
  pub purpose : TokenPurpose
  pub full_name : Option String
  pub link_token : String

pub record World : Type 0 where
  pub db : Db
  pub open db use *
  pub outbox : List Email

abbrev pub purpose_beq : TokenPurpose → TokenPurpose → Bool
purpose_beq email_verification email_verification = true
purpose_beq password_reset password_reset = true
purpose_beq _ _ = false

abbrev pub is_none {ℓ} : {A : Type ℓ} → Option A → Bool
is_none none = true
is_none (some _) = false

-- A method of a service: what was written before a raise stays in the session.
abbrev pub Action : Type 0 → Type 0
Action A = World → Result A × World

module _ {A : Type 0} where
  abbrev pub pure : A → Action A
  pure a w = (ok a, w)

  abbrev pub raise : AppError → Action A
  raise e w = (err e, w)

  abbrev pub gets : (World → A) → Action A
  gets f w = (ok (f w), w)

infixl 5 ◌>>=◌ ◌>>◌
abbrev pub ◌>>=◌ : {A B : Type 0} → Action A → (A → Action B) → Action B
◌>>=◌ m f w = let (r, w') = m w in elim r [ ok a ↦ f a w' | err e ↦ raise e w' ]

abbrev pub ◌>>◌ : {A B : Type 0} → Action A → Action B → Action B
m >> k = m >>= λ _. k

abbrev pub modify : (Db → Db) → Action (Unit {0})
modify f w = (ok tt, record w { db = f w.db })

-- `get_by_id`
unfoldable pub get_by_id : ℕ → List User → Option User
get_by_id i = find_first (λ (u : User). u.id == i)

-- `get_by_email`
unfoldable pub get_by_email : String → List User → Option User
get_by_email e = find_first (λ (u : User). u.email == e)

-- `update`, for a user whose fields have been set.
unfoldable pub update_user : User → List User → List User
update_user u = map (λ (v : User). if v.id == u.id then u else v)

-- `RefreshTokenRepository.get_valid_token`
unfoldable pub valid_refresh_token : ℕ → String → List RefreshToken → Option RefreshToken
valid_refresh_token now token =
    find_first (λ (t : RefreshToken). (t.token == token) && (not t.revoked && ltb now t.expires_at))

-- `revoke`
unfoldable pub revoke : RefreshToken → List RefreshToken → List RefreshToken
revoke r = map (λ (t : RefreshToken). if t.token == r.token then record t { revoked = true } else t)

-- `revoke_all_for_user`
unfoldable pub revoke_all_for_user : ℕ → List RefreshToken → List RefreshToken
revoke_all_for_user user_id = map (λ (t : RefreshToken).
    if (t.user_id == user_id) && not t.revoked then record t { revoked = true } else t)

-- `VerificationTokenRepository.get_valid_token`
unfoldable pub valid_verification_token :
    ℕ → String → TokenPurpose → List VerificationToken → Option VerificationToken
valid_verification_token now token purpose = find_first (λ (t : VerificationToken).
    (t.token == token)
    && (purpose_beq t.purpose purpose && (is_none t.used_at && ltb now t.expires_at)))

-- `invalidate_active_tokens_for_user`
unfoldable pub invalidate_active_tokens_for_user :
    ℕ → ℕ → TokenPurpose → List VerificationToken → List VerificationToken
invalidate_active_tokens_for_user now user_id purpose = map (λ (t : VerificationToken).
    if (t.user_id == user_id) && (purpose_beq t.purpose purpose && is_none t.used_at)
    then record t { used_at = some now }
    else t)

-- `mark_used`
unfoldable pub mark_used : ℕ → VerificationToken → List VerificationToken → List VerificationToken
mark_used now row =
    map (λ (t : VerificationToken).
      if t.token == row.token then record t { used_at = some now } else t)
