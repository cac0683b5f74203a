-- ===== src/Auth/Security.antt =====
-- app/core/security.py: the tokens. The libraries for JWTs (jose) and for hashing (passlib) are
-- records of functions with what their documentation promises.
use rag_kb.Base.{
  ℕ, ◌+◌, ◌<◌, ◌≤◌, String, ◌≡◌, Bool, true, false, [], ◌∷◌, Option, none, some, if◌then◌else◌,
}
use rag_kb.Base.Equality.{◌==◌, string_eq}
use rag_kb.Base.Dict
use rag_kb.Base.Dict.{Dict}
use rag_kb.Errors.{Result, ok, err, authentication}

pub data TokenType : Type 0 where
  access refresh : TokenType

-- `token_type.value`
abbrev pub token_type_value : TokenType → String
token_type_value access = "access"
token_type_value refresh = "refresh"

pub data ClaimValue : Type 0 where
  user : ℕ → ClaimValue
  label : String → ClaimValue
  time : ℕ → ClaimValue

abbrev pub Payload : Type 0
Payload = Dict String ClaimValue

-- `jwt.encode` and `jwt.decode` with the secret and the algorithm of the settings; `none` is a
-- `JWTError`.
pub record Jwt : Type 0 where
  pub encode : Payload → String
  pub decode : ℕ → String → Option Payload

-- What the library documents: the token signed for a payload decodes to it until its `exp` claim has
-- passed, and not after.
pub record Signs (j : Jwt) (p : Payload) : Type 0 where
  pub decode-encode :
      (now expires : ℕ)
      → Dict.lookup "exp" p ≡ some (time expires)
      → now ≤ expires
      → j.decode now (j.encode p) ≡ some p
  pub decode_expired :
      (now expires : ℕ)
      → Dict.lookup "exp" p ≡ some (time expires)
      → expires < now
      → j.decode now (j.encode p) ≡ none

-- `_pwd_context.hash` and `_pwd_context.verify`: a password verifies against its own hash.
pub record Passwords : Type 0 where
  pub hash : String → String
  pub verify : String → String → Bool
  pub verify-hash : (plain : String) → verify plain (hash plain) ≡ true

-- The settings that the services of this package read, in the ticks of the clock.
pub record Settings : Type 0 where
  pub access_token_expire : ℕ
  pub refresh_token_expire : ℕ
  pub email_verification_token_expire : ℕ
  pub password_reset_token_expire : ℕ

abbrev expire_delta : Settings → TokenType → ℕ
expire_delta s access = s.access_token_expire
expire_delta s refresh = s.refresh_token_expire

-- `payload.update(extra_claims)`
unfoldable pub update : Payload → Payload → Payload
unfolding Dict.insert
update p [] = p
update p ((k, v) ∷ extra) = update (Dict.insert k v p) extra

-- The payload of `create_token`.
unfoldable pub token_payload : Settings → ℕ → ℕ → TokenType → String → Payload → Payload
unfolding update
token_payload s now subject token_type jti extra_claims =
    update
      (("sub", user subject)
        ∷ ("type", label (token_type_value token_type))
        ∷ ("iat", time now)
        ∷ ("exp", time (now + expire_delta s token_type))
        ∷ ("jti", label jti)
        ∷ [])
      extra_claims

-- `create_token`, at the time `now`, with the random `jti`.
unfoldable pub create_token : Jwt → Settings → ℕ → ℕ → TokenType → String → Payload → String
unfolding token_payload
create_token j s now subject token_type jti extra_claims =
    j.encode (token_payload s now subject token_type jti extra_claims)

-- `payload.get("type") != expected_type.value`, negated.
unfoldable pub has_type : Payload → TokenType → Bool
unfolding Dict.lookup
has_type p expected = elim (Dict.lookup "type" p) [
  | none ↦ false
  | some claim ↦ elim claim [
    | user _ ↦ false
    | label l ↦ l == token_type_value expected
    | time _ ↦ false
  ]
]

-- `decode_token`
unfoldable pub decode_token : Jwt → ℕ → String → TokenType → Result Payload
unfolding has_type
decode_token j now token expected = elim (j.decode now token) [
  | none ↦ err authentication
  | some payload ↦ if has_type payload expected then ok payload else err authentication
]

abbrev pub type_beq : TokenType → TokenType → Bool
type_beq access access = true
type_beq refresh refresh = true
type_beq _ _ = false
