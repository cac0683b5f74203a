-- ===== src/Auth/Sessions.antt =====
-- Logging in, and the rotation of refresh tokens.
use rag_kb.Base.{
  ℕ, ◌+◌, String, ◌≡◌, ◌≢◌, refl, subst, ◌∙◌, ap, ◌⊎◌, inl, inr, Bool, true, false, ◌&&◌, List, [],
  ◌∷◌, ◌++◌, Option, none, some, arith, Bool-cases, Option-cases, eq_iff, find_first-passes,
  find_first-snoc_none, &&-eq-true,
}
use rag_kb.Base.Equality.{◌==◌, string_eq, nat_eq}
use rag_kb.Errors.{ok, err, authentication}
use rag_kb.Auth.Security.{access, refresh, create_token}
use rag_kb.Auth.Store.{
  User, RefreshToken, World, get_by_id, get_by_email, valid_refresh_token, revoke,
}
use rag_kb.Auth.Service.{AuthService, Draws, TokenResponse, issue_tokens, login, refresh_session}

valid_refresh_token-revoke :
    (now : ℕ) (stored : RefreshToken) (rows : List RefreshToken)
    → valid_refresh_token now stored.token (revoke stored rows) ≡ none
unfolding valid_refresh_token revoke
valid_refresh_token-revoke now stored [] = refl
valid_refresh_token-revoke now stored (r ∷ rows) =
    ground (arith, valid_refresh_token-revoke now stored rows, eq_iff r.token stored.token)

-- The row of the new refresh token.
abbrev pub new_row : AuthService → Draws → User → RefreshToken
new_row s d u = record {
  user_id = u.id;
  token = create_token s.jwt s.settings d.now u.id refresh d.refresh_jti [];
  expires_at = d.now + s.settings.refresh_token_expire;
  revoked = false;
}

abbrev pub response : AuthService → Draws → User → TokenResponse
response s d u = record {
  access_token = create_token s.jwt s.settings d.now u.id access d.access_jti [];
  refresh_token = (new_row s d u).token;
}

-- The tables after new tokens: the refresh tokens are `before`, with the new one behind them.
abbrev pub issued : AuthService → Draws → User → List RefreshToken → World → World
issued s d u before w = record w {
  db = record w.db { refresh_tokens = before ++ new_row s d u ∷ [] };
}

-- A user that a login may be given to: found, with this password, and active.
unfoldable pub may_log_in : AuthService → String → Option User → Bool
may_log_in s password none = false
may_log_in s password (some u) = s.passwords.verify password u.hashed_password && u.is_active

-- A login succeeds exactly for a user that is found by the address, whose hash verifies the password
-- and who is active, and then adds one refresh token, of this user; else it raises an
-- authentication error and changes nothing.
pub login_exact :
    (s : AuthService) (d : Draws) (email password : String) (w : World)
    → ((u : User) × (get_by_email email w.users ≡ some u)
        × (may_log_in s password (some u) ≡ true)
        × (login s d email password w ≡ (ok (response s d u), issued s d u w.refresh_tokens w)))
      ⊎ ((may_log_in s password (get_by_email email w.users) ≡ false)
          × (login s d email password w ≡ (err authentication, w)))
unfolding login issue_tokens may_log_in
login_exact s d email password w = elim (Option-cases (get_by_email email w.users)) [
  | inl missing ↦ inr (rw missing, rw missing)
  | inr (u, found) ↦ elim (Bool-cases (s.passwords.verify password u.hashed_password)) [
    | inr wrong ↦ inr (rw found (rw wrong), rw (found, wrong))
    | inl right ↦ elim (Bool-cases u.is_active) [
      | inr inactive ↦ inr (rw found (rw right (rw inactive)), rw found (rw right (rw inactive)))
      | inl active ↦ inl (u, found, rw right (rw active), rw found (rw right (rw active)))
    ]
  ]
]

-- What a successful `refresh` has done: the old token was valid and its user is active, the old
-- token is revoked, and one new token of the same user is added.
abbrev pub Rotated : AuthService → Draws → String → World → TokenResponse × World → Type 0
Rotated s d token w (r, w') =
    (stored : RefreshToken) × (u : User) × (valid_refresh_token d.now token w.refresh_tokens
      ≡ some stored)
    × (get_by_id stored.user_id w.users ≡ some u)
    × (u.is_active ≡ true)
    × (r ≡ response s d u)
    × (w' ≡ issued s d u (revoke stored w.refresh_tokens) w)

pub refresh_session-Rotated :
    (s : AuthService) (d : Draws) (token : String) (w w' : World) (r : TokenResponse)
    → refresh_session s d token w ≡ (ok r, w')
    → Rotated s d token w (r, w')
unfolding refresh_session issue_tokens
refresh_session-Rotated s d token w w' r h =
    elim (Option-cases (valid_refresh_token d.now token w.refresh_tokens)) [
      | inl missing ↦ absurd (ground arith)
      | inr (stored, valid) ↦ elim (Option-cases (get_by_id stored.user_id w.users)) [
        | inl missing ↦ absurd (ground arith)
        | inr (u, found) ↦ elim (Bool-cases u.is_active) [
          | inl active ↦ (stored, u, valid, found, active, ground arith, ground arith)
          | inr inactive ↦ absurd (ground arith)
        ]
      ]
    ]

valid-token :
    (now : ℕ) (token : String) (rows : List RefreshToken) (r : RefreshToken)
    → valid_refresh_token now token rows ≡ some r
    → r.token ≡ token
unfolding valid_refresh_token
valid-token now token rows r h =
    let passes = find_first-passes _ rows r h in
    (eq_iff r.token token).0 (&&-eq-true (r.token == token) _ passes).0

valid-snoc_ne :
    (now : ℕ) (token : String) (rows : List RefreshToken) (r : RefreshToken)
    → r.token ≢ token
    → valid_refresh_token now token rows ≡ none
    → valid_refresh_token now token (rows ++ r ∷ []) ≡ none
unfolding valid_refresh_token
valid-snoc_ne now token rows r ne h =
    find_first-snoc_none _ rows r h (ground (arith, eq_iff r.token token))

-- A refresh token works once: after a `refresh` with it that succeeds, every later `refresh` with it
-- is refused, at any time and with any draws, if the new token is another text.
pub refresh_once :
    (s : AuthService) (d d' : Draws) (token : String) (w w' : World) (r : TokenResponse)
    → refresh_session s d token w ≡ (ok r, w')
    → r.refresh_token ≢ token
    → refresh_session s d' token w' ≡ (err authentication, w')
refresh_once s d d' token w w' r h ne =
    let (stored, u, valid, found, active, er, ew) = refresh_session-Rotated s d token w w' r h in
    let same = valid-token d.now token w.refresh_tokens stored valid in
    let revoked : valid_refresh_token d'.now token (revoke stored w.refresh_tokens) ≡ none =
      subst (λ t. valid_refresh_token d'.now t (revoke stored w.refresh_tokens) ≡ none) same
        (valid_refresh_token-revoke d'.now stored w.refresh_tokens) in
    let gone : valid_refresh_token d'.now token w'.refresh_tokens ≡ none = rw ew (
      valid-snoc_ne d'.now token (revoke stored w.refresh_tokens) (new_row s d u)
        (λ e. ne (ap (λ (x : TokenResponse). x.refresh_token) er ∙ e)) revoked) in
    unfold refresh_session in rw gone
