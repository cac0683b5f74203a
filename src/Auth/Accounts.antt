-- ===== src/Auth/Accounts.antt =====
-- Accounts and their addresses: `register`, and the links that are sent to an address.
use rag_kb.Base.{
  ℕ, String, ◌≡◌, ◌≢◌, sym, ◌∙◌, ap, ◌⊎◌, inl, inr, true, false, List, [], ◌∷◌, ◌++◌, Option, none,
  some, arith, Bool-cases, Option-cases, eq_iff, find_first-passes, find_first-there, get_elem?,
  All, nat_beq_iff,
}
use rag_kb.Base.Equality.{◌==◌, string_eq, nat_eq}
use rag_kb.Errors.{ok, err, conflict}
use rag_kb.Auth.Store.{
  User, VerificationToken, TokenPurpose, email_verification, password_reset, Db, World, Email,
  get_by_email, get_by_id, update_user, valid_verification_token, invalidate_active_tokens_for_user,
  purpose_beq, is_none, ◌>>=◌,
}
use rag_kb.Auth.Links.{valid-IsLive}
use rag_kb.Auth.Service.{
  AuthService, Draws, send_link, register, resend_verification_email, forgot_password,
}

-- No two users have one address.
unfoldable pub HasUniqueEmails : List User → Type 0
HasUniqueEmails [] = Unit
HasUniqueEmails (u ∷ us) = All (λ (v : User). u.email ≢ v.email) us × HasUniqueEmails us

All-snoc :
    (email : String) (us : List User) (v : User)
    → All (λ (x : User). email ≢ x.email) us
    → email ≢ v.email
    → All (λ (x : User). email ≢ x.email) (us ++ v ∷ [])
All-snoc email [] v h e = (e, tt)
All-snoc email (u ∷ us) v h e = (h.0, All-snoc email us v h.1 e)

HasUniqueEmails-snoc :
    (us : List User) (v : User)
    → HasUniqueEmails us
    → get_by_email v.email us ≡ none
    → HasUniqueEmails (us ++ v ∷ [])
unfolding HasUniqueEmails get_by_email
HasUniqueEmails-snoc [] v h e = (tt, tt)
HasUniqueEmails-snoc (u ∷ us) v h e = elim (Bool-cases (u.email == v.email)) [
  | inl same ↦ absurd (ground arith)
  | inr other ↦ (
    All-snoc u.email us v h.0 (ground (arith, eq_iff u.email v.email)),
    HasUniqueEmails-snoc us v h.1 (ground arith),
  )
]

-- The new row of `register`.
abbrev pub new_user : AuthService → Draws → String → String → Option String → User
new_user s d email password full_name = record {
  id = d.new_id;
  email = email;
  hashed_password = s.passwords.hash password;
  full_name = full_name;
  is_active = true;
  is_verified = false;
  role = rag_kb.Auth.Store.user;
}

-- A user has the address.
abbrev pub IsTaken : String → List User → Type 0
IsTaken email us = (u : User) × (i : ℕ) × (get_elem? us i ≡ some u) × (u.email ≡ email)

get_by_email-email :
    (email : String) (us : List User) (u : User) → get_by_email email us ≡ some u → u.email ≡ email
unfolding get_by_email
get_by_email-email email us u h = (eq_iff u.email email).0 (find_first-passes _ us u h)

get_by_email-IsTaken :
    (email : String) (us : List User) (u : User) → get_by_email email us ≡ some u → IsTaken email us
unfolding get_by_email
get_by_email-IsTaken email us u h =
    let (i, there) = find_first-there _ us u h in
    (u, i, there, (eq_iff u.email email).0 (find_first-passes _ us u h))

-- What `register` does: a conflict and no change for an address that is taken; else a new user
-- behind the others, inactive in nothing but not verified.
register-cases :
    (s : AuthService) (d : Draws) (email password : String) (full_name : Option String) (w : World)
    → (IsTaken email w.users × (register s d email password full_name w ≡ (err conflict, w)))
      ⊎ ((get_by_email email w.users ≡ none)
          × ((register s d email password full_name w).0
              ≡ ok (new_user s d email password full_name))
          × ((register s d email password full_name w).1.users
              ≡ w.users ++ new_user s d email password full_name ∷ []))
unfolding register send_link
register-cases s d email password full_name w = elim (Option-cases (get_by_email email w.users)) [
  | inl missing ↦ inr (missing, rw missing, rw missing)
  | inr (u, found) ↦ inl (get_by_email-IsTaken email w.users u found, rw found)
]

get_by_email-snoc :
    (us : List User) (v : User)
    → get_by_email v.email us ≡ none
    → get_by_email v.email (us ++ v ∷ []) ≡ some v
unfolding get_by_email
get_by_email-snoc [] v e = ground (arith, eq_iff v.email v.email)
get_by_email-snoc (u ∷ us) v e = ground (arith, get_by_email-snoc us v)

-- `register` keeps the addresses of the users unique, and registers exactly an address that no user
-- has: it answers the new, unverified user, who is found by the address from then on. For an address
-- that a user has it raises a conflict and changes nothing.
pub register-HasUniqueEmails :
    (s : AuthService) (d : Draws) (email password : String) (full_name : Option String) (w : World)
    → HasUniqueEmails w.users
    → HasUniqueEmails (register s d email password full_name w).1.users
      × ((IsTaken email w.users × (register s d email password full_name w ≡ (err conflict, w)))
          ⊎ (((register s d email password full_name w).0
                ≡ ok (new_user s d email password full_name))
              × (get_by_email email w.users ≡ none)
              × (get_by_email email (register s d email password full_name w).1.users
                  ≡ some (new_user s d email password full_name))))
register-HasUniqueEmails s d email password full_name w h =
    elim (register-cases s d email password full_name w) [
      | inl (taken, same) ↦ (rw same h, inl (taken, same))
      | inr (missing, answer, users) ↦ (
        rw users (HasUniqueEmails-snoc w.users (new_user s d email password full_name) h missing),
        inr (
          answer,
          missing,
          rw users (get_by_email-snoc w.users (new_user s d email password full_name) missing),
        ),
      )
    ]

invalidated_row :
    (now then_ user_id : ℕ) (purpose : TokenPurpose) (token : String)
    (rows : List VerificationToken) (row r : VerificationToken)
    → valid_verification_token now token purpose
        (invalidate_active_tokens_for_user then_ user_id purpose rows ++ row ∷ [])
      ≡ some r
    → r.user_id ≡ user_id
    → r ≡ row
unfolding valid_verification_token invalidate_active_tokens_for_user
invalidated_row now then_ user_id purpose token [] row r h e = ground arith
invalidated_row now then_ user_id purpose token (t ∷ rows) row r h e = ground (
  arith,
  invalidated_row now then_ user_id purpose token rows row r,
  nat_beq_iff t.user_id user_id,
)

-- The link that the last mail to a user shows is the only one of its purpose that works for the
-- user: a row that is found for another token of the user is found no more, at any time.
pub send_link_newest :
    (s : AuthService) (d : Draws) (purpose : TokenPurpose) (u : User) (w : World) (now : ℕ)
    (token : String) (r : VerificationToken)
    → valid_verification_token now token purpose (send_link s d purpose u w).1.verification_tokens
      ≡ some r
    → r.user_id ≡ u.id
    → (r.token ≡ d.raw_token) × (r.purpose ≡ purpose) × (token ≡ d.raw_token)
unfolding send_link
send_link_newest s d purpose u w now token r h e =
    let same = invalidated_row now d.now u.id purpose token w.verification_tokens _ r h e in
    (
      ap (λ (x : VerificationToken). x.token) same,
      ap (λ (x : VerificationToken). x.purpose) same,
      sym (valid-IsLive now token purpose _ r h).same_token
          ∙ ap (λ (x : VerificationToken). x.token) same,
    )

-- The mail of a link.
abbrev pub link_mail : Draws → TokenPurpose → User → Email
link_mail d purpose u = record {
  to_address = u.email;
  purpose = purpose;
  full_name = u.full_name;
  link_token = d.raw_token;
}

-- `forgot_password` answers the same whether the address is known or not: for an unknown address
-- nothing changes and no mail is sent, for a known one a single mail goes to the user's own address
-- and no user and no session changes.
pub forgot_password_silent :
    (s : AuthService) (d : Draws) (email : String) (w : World)
    → ((forgot_password s d email w).0 ≡ ok tt)
      × ((forgot_password s d email w).1.users ≡ w.users)
      × ((forgot_password s d email w).1.refresh_tokens ≡ w.refresh_tokens)
      × (((get_by_email email w.users ≡ none) × ((forgot_password s d email w).1 ≡ w))
          ⊎ ((u : User) × (get_by_email email w.users ≡ some u)
              × (u.email ≡ email)
              × ((forgot_password s d email w).1.outbox
                  ≡ w.outbox ++ link_mail d password_reset u ∷ [])))
unfolding forgot_password send_link
forgot_password_silent s d email w = elim (Option-cases (get_by_email email w.users)) [
  | inl missing ↦ (rw missing, rw missing, rw missing, inl (missing, rw missing))
  | inr (u, found) ↦ (
    rw found,
    rw found,
    rw found,
    inr (u, found, get_by_email-email email w.users u found, rw found),
  )
]

-- `resend_verification_email` answers the same whatever the account: it sends a single mail exactly
-- to a known user that is not verified, and otherwise changes nothing.
pub resend_verification_email_silent :
    (s : AuthService) (d : Draws) (email : String) (w : World)
    → ((resend_verification_email s d email w).0 ≡ ok tt)
      × (((resend_verification_email s d email w).1 ≡ w)
          ⊎ ((u : User) × (get_by_email email w.users ≡ some u)
              × (u.is_verified ≡ false)
              × ((resend_verification_email s d email w).1.outbox
                  ≡ w.outbox ++ link_mail d email_verification u ∷ [])))
unfolding resend_verification_email send_link
resend_verification_email_silent s d email w = elim (Option-cases (get_by_email email w.users)) [
  | inl missing ↦ (rw missing, inl (rw missing))
  | inr (u, found) ↦ elim (Bool-cases u.is_verified) [
    | inl verified ↦ (rw found (rw verified), inl (rw found (rw verified)))
    | inr not_yet ↦ (rw found (rw not_yet), inr (u, found, not_yet, rw found (rw not_yet)))
  ]
]
