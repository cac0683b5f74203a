-- ===== src/Auth/Resets.antt =====
-- Links for a new password: what they do to the user and to the sessions.
use rag_kb.Base.{
  ℕ, String, ◌≡◌, ◌≢◌, refl, sym, subst, ◌∙◌, ap, ◌⊎◌, inl, inr, List, [], ◌∷◌, some, arith,
}
use rag_kb.Base.Equality.{string_eq, nat_eq}
use rag_kb.Errors.{ok, err, authentication}
use rag_kb.Auth.Store.{
  User, RefreshToken, VerificationToken, password_reset, World, get_by_id, update_user,
  valid_refresh_token, revoke_all_for_user,
}
use rag_kb.Auth.Sessions.{refresh_session-Rotated, may_log_in}
use rag_kb.Auth.Service.{AuthService, Draws, TokenResponse, refresh_session, reset_password}
use rag_kb.Auth.Links.{
  Linked, Unlinked, link-cases, followed, mark_used-Unlinked, get_by_id-update_user,
}

reset_password-err :
    (s : AuthService) (d : Draws) (token password : String) (w : World)
    → Unlinked d password_reset token w
    → reset_password s d token password w ≡ (err authentication, w)
unfolding reset_password
reset_password-err s d token password w (inl missing) = rw missing
reset_password-err s d token password w (inr (row, valid, missing)) = rw valid (rw missing)

-- The user, with the hash of a new password.
abbrev pub with_password : AuthService → String → User → User
with_password s password u = record u { hashed_password = s.passwords.hash password }

-- The world after a new password: the link is followed, and the user's refresh tokens are revoked.
abbrev pub reset : AuthService → Draws → String → VerificationToken → User → World → World
reset s d password row u w =
    let w' = followed d row (with_password s password u) w in
    record w' { db = record w'.db { refresh_tokens = revoke_all_for_user u.id w.refresh_tokens } }

reset_password-cases :
    (s : AuthService) (d : Draws) (token password : String) (w : World)
    → ((row : VerificationToken) × (u : User) × Linked d password_reset token w row u
        × (reset_password s d token password w ≡ (ok tt, reset s d password row u w)))
      ⊎ (Unlinked d password_reset token w
          × (reset_password s d token password w ≡ (err authentication, w)))
unfolding reset_password
reset_password-cases s d token password w = elim (link-cases d password_reset token w) [
  | inl (row, u, (valid, live, found)) ↦ inl (row, u, (valid, live, found), rw valid (rw found))
  | inr fails ↦ inr (fails, reset_password-err s d token password w fails)
]

-- No refresh token of this user is valid.
valid_refresh_token-revoke_all :
    (now user_id : ℕ) (token : String) (rows : List RefreshToken) (r : RefreshToken)
    → valid_refresh_token now token (revoke_all_for_user user_id rows) ≡ some r
    → r.user_id ≢ user_id
unfolding valid_refresh_token revoke_all_for_user
valid_refresh_token-revoke_all now user_id token [] r h = cc
valid_refresh_token-revoke_all now user_id token (t ∷ rows) r h =
    ground (arith, valid_refresh_token-revoke_all now user_id token rows r)

-- What a `reset_password` that succeeds has done.
reset_password-done :
    (s : AuthService) (d : Draws) (token password : String) (w w' : World)
    → reset_password s d token password w ≡ (ok tt, w')
    → (row : VerificationToken) × (u : User) × Linked d password_reset token w row u
      × (w' ≡ reset s d password row u w)
reset_password-done s d token password w w' h = elim (reset_password-cases s d token password w) [
  | inl (row, u, l, done) ↦ (row, u, l, ap (λ p. p.1) (sym h ∙ done))
  | inr (_, refused) ↦ absurd (cc (sym h ∙ refused))
]

-- A `reset_password` that succeeds ends the sessions of the user of its link: a refresh that still
-- succeeds after it, at any time and with any token, is another user's.
pub reset_password_ends_sessions :
    (s : AuthService) (d d' : Draws) (token password session : String) (w w' w'' : World)
    (r : TokenResponse)
    → reset_password s d token password w ≡ (ok tt, w')
    → refresh_session s d' session w' ≡ (ok r, w'')
    → (row : VerificationToken) × (u : User) × (stored : RefreshToken) × Linked d password_reset
        token w row u
      × (valid_refresh_token d'.now session w'.refresh_tokens ≡ some stored)
      × (stored.user_id ≢ u.id)
reset_password_ends_sessions s d d' token password session w w' w'' r h refreshed =
    let (row, u, l, same) = reset_password-done s d token password w w' h in
    let (stored, v, valid, _, _, _, _) = refresh_session-Rotated s d' session w' w'' r refreshed in
    let rows : w'.refresh_tokens ≡ revoke_all_for_user u.id w.refresh_tokens =
      ap (λ (x : World). x.refresh_tokens) same in
    (
      row,
      u,
      stored,
      l,
      valid,
      valid_refresh_token-revoke_all d'.now u.id session w.refresh_tokens stored
          (subst (λ l. valid_refresh_token d'.now session l ≡ some stored) rows valid),
    )

-- After a `reset_password` that succeeds, the user of its link has the new password: the row under
-- its id may log in with it exactly if it is active. The link is then refused for good.
pub reset_password_takes_effect :
    (s : AuthService) (d d' : Draws) (token password another : String) (w w' : World)
    → reset_password s d token password w ≡ (ok tt, w')
    → ((row : VerificationToken) × (u : User) × Linked d password_reset token w row u
        × (may_log_in s password (get_by_id row.user_id w'.users) ≡ u.is_active))
      × (reset_password s d' token another w' ≡ (err authentication, w'))
reset_password_takes_effect s d d' token password another w w' h =
    let (row, u, l, same) = reset_password-done s d token password w w' h in
    let users : w'.users ≡ update_user (with_password s password u) w.users =
      ap (λ (x : World). x.users) same in
    let (_, _, is_user) = l in
    let found =
      get_by_id-update_user row.user_id u (with_password s password u) w.users is_user refl in
    (
      (row, u, l, rw users (rw found (unfold may_log_in in rw (s.passwords.verify-hash password)))),
      reset_password-err s d' token another w' (
          mark_used-Unlinked d d' password_reset password_reset token w w' row u l
            (ap (λ (x : World). x.verification_tokens) same)),
    )
