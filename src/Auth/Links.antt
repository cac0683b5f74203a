-- ===== src/Auth/Links.antt =====
-- Links in mails: they work once, for their own purpose, and only the newest of a user works.
use rag_kb.Base.{
  ℕ, String, ◌≡◌, refl, sym, subst, ◌∙◌, ap, ◌⊎◌, inl, inr, true, List, [], ◌∷◌, Option, none, some,
  ltb, arith, Option-cases, eq_iff, find_first-passes, find_first-there, get_elem?, &&-eq-true, All,
  filterb, nat_beq_iff, ◌≢◌, not, Bool-cases, ◌&&◌, map,
}
use rag_kb.Base.Equality.{◌==◌, string_eq, nat_eq}
use rag_kb.Errors.{ok, err, authentication}
use rag_kb.Auth.Store.{
  User, VerificationToken, TokenPurpose, email_verification, password_reset, World, is_none,
  purpose_beq, get_by_id, update_user, valid_verification_token, mark_used,
}
use rag_kb.Auth.Service.{Draws, verify_email}

valid_verification_token-mark_used :
    (now then_ : ℕ) (row : VerificationToken) (purpose : TokenPurpose)
    (rows : List VerificationToken)
    → valid_verification_token now row.token purpose (mark_used then_ row rows) ≡ none
unfolding valid_verification_token mark_used
valid_verification_token-mark_used now then_ row purpose [] = refl
valid_verification_token-mark_used now then_ row purpose (r ∷ rows) =
    ground (
      arith,
      valid_verification_token-mark_used now then_ row purpose rows,
      eq_iff r.token row.token,
    )

-- What a row that a link finds is: of this token and this purpose, unused, and not expired.
pub record IsLive (now : ℕ) (token : String) (purpose : TokenPurpose) (r : VerificationToken)
    : Type 0 where
  pub same_token : r.token ≡ token
  pub same_purpose : r.purpose ≡ purpose
  pub unused : r.used_at ≡ none
  pub in_time : ltb now r.expires_at ≡ true

purpose_beq-eq : (a b : TokenPurpose) → purpose_beq a b ≡ true → a ≡ b
purpose_beq-eq email_verification email_verification h = refl
purpose_beq-eq email_verification password_reset h = cc
purpose_beq-eq password_reset email_verification h = cc
purpose_beq-eq password_reset password_reset h = refl

is_none-eq : {A : Type 0} (o : Option A) → is_none o ≡ true → o ≡ none
is_none-eq none h = refl
is_none-eq (some a) h = cc

pub valid-IsLive :
    (now : ℕ) (token : String) (purpose : TokenPurpose) (rows : List VerificationToken)
    (r : VerificationToken)
    → valid_verification_token now token purpose rows ≡ some r
    → IsLive now token purpose r
unfolding valid_verification_token
valid-IsLive now token purpose rows r h =
    let (a, bcd) = &&-eq-true (r.token == token) _ (find_first-passes _ rows r h) in
    let (b, cd) = &&-eq-true (purpose_beq r.purpose purpose) _ bcd in
    let (c, d) = &&-eq-true (is_none r.used_at) _ cd in
    record {
      same_token = (eq_iff r.token token).0 a;
      same_purpose = purpose_beq-eq r.purpose purpose b;
      unused = is_none-eq r.used_at c;
      in_time = d;
    }

-- What a followed link leaves: its user is verified, every other user is found as before, no unused
-- row has its token any more, the rows of other tokens and the sessions are as before, no mail is
-- sent.
pub record Verified (token : String) (row : VerificationToken) (u : User) (w w' : World)
    : Type 0 where
  pub user_verified : get_by_id row.user_id w'.users ≡ some (record u { is_verified = true })
  pub other_users : (i : ℕ) → i ≢ row.user_id → get_by_id i w'.users ≡ get_by_id i w.users
  pub used_up :
      All (λ (r : VerificationToken). r.token ≡ token → r.used_at ≢ none) w'.verification_tokens
  pub other_rows :
      filterb (λ (r : VerificationToken). not (r.token == token)) w'.verification_tokens
      ≡ filterb (λ (r : VerificationToken). not (r.token == token)) w.verification_tokens
  pub sessions : w'.refresh_tokens ≡ w.refresh_tokens
  pub mails : w'.outbox ≡ w.outbox

-- The user that a link is for: its row is found, and its user.
abbrev pub Linked : Draws → TokenPurpose → String → World → VerificationToken → User → Type 0
Linked d purpose token w row u =
    (valid_verification_token d.now token purpose w.verification_tokens ≡ some row)
    × IsLive d.now token purpose row
    × (get_by_id row.user_id w.users ≡ some u)

-- No row is found, or no user for it.
abbrev pub Unlinked : Draws → TokenPurpose → String → World → Type 0
Unlinked d purpose token w =
    (valid_verification_token d.now token purpose w.verification_tokens ≡ none)
    ⊎ ((row : VerificationToken) × (valid_verification_token d.now token purpose
            w.verification_tokens
          ≡ some row)
        × (get_by_id row.user_id w.users ≡ none))

pub link-cases :
    (d : Draws) (purpose : TokenPurpose) (token : String) (w : World)
    → ((row : VerificationToken) × (u : User) × Linked d purpose token w row u)
      ⊎ Unlinked d purpose token w
link-cases d purpose token w =
    elim (Option-cases (valid_verification_token d.now token purpose w.verification_tokens)) [
      | inl missing ↦ inr (inl missing)
      | inr (row, valid) ↦ elim (Option-cases (get_by_id row.user_id w.users)) [
        | inl missing ↦ inr (inr (row, valid, missing))
        | inr (u, found) ↦ inl (
          row,
          u,
          (valid, valid-IsLive d.now token purpose w.verification_tokens row valid, found),
        )
      ]
    ]

-- The world after a link: its user is `u` now, and its row is used up.
abbrev pub followed : Draws → VerificationToken → User → World → World
followed d row u w = record w {
  db = record w.db {
    users = update_user u w.users;
    verification_tokens = mark_used d.now row w.verification_tokens;
  };
}

-- No row is for a token of this purpose that may be used now.
abbrev pub NoneLive : ℕ → String → TokenPurpose → List VerificationToken → Type 0
NoneLive now token purpose = All (λ r. IsLive now token purpose r → ⊥)

purpose_beq_refl : (p : TokenPurpose) → purpose_beq p p ≡ true
purpose_beq_refl email_verification = refl
purpose_beq_refl password_reset = refl

IsLive-passes :
    (now : ℕ) (token : String) (purpose : TokenPurpose) (r : VerificationToken)
    → IsLive now token purpose r
    → ((r.token == token)
        && (purpose_beq r.purpose purpose && (is_none r.used_at && ltb now r.expires_at)))
      ≡ true
IsLive-passes now token purpose r live =
    rw ((eq_iff r.token token).1 live.same_token)
      (rw live.same_purpose (rw (purpose_beq_refl purpose) (rw live.unused live.in_time)))

valid-NoneLive :
    (now : ℕ) (token : String) (purpose : TokenPurpose) (rows : List VerificationToken)
    → valid_verification_token now token purpose rows ≡ none
    → NoneLive now token purpose rows
unfolding valid_verification_token
valid-NoneLive now token purpose [] h = tt
valid-NoneLive now token purpose (r ∷ rows) h = (
  λ live. let passes = IsLive-passes now token purpose r live in ground (arith, h, passes),
  valid-NoneLive now token purpose rows (ground (arith, h)),
)

-- Behind a use of a row, no unused row has its token.
mark_used-token :
    (now : ℕ) (row : VerificationToken) (token : String) (rows : List VerificationToken)
    → row.token ≡ token
    → All (λ (r : VerificationToken). r.token ≡ token → r.used_at ≢ none) (mark_used now row rows)
unfolding mark_used
mark_used-token now row token [] same = tt
mark_used-token now row token (r ∷ rows) same = elim (Bool-cases (r.token == row.token)) [
  | inl e ↦ rw (e, map) ((λ p h. cc), mark_used-token now row token rows same)
  | inr e ↦
      rw (e, map)
        (
          (λ p h. ground (arith, e, eq_iff r.token row.token, p, same)),
          mark_used-token now row token rows same,
        )
]

mark_used-others :
    (now : ℕ) (row : VerificationToken) (token : String) (rows : List VerificationToken)
    → row.token ≡ token
    → filterb (λ (r : VerificationToken). not (r.token == token)) (mark_used now row rows)
      ≡ filterb (λ (r : VerificationToken). not (r.token == token)) rows
unfolding mark_used
mark_used-others now row token [] same = refl
mark_used-others now row token (r ∷ rows) same = ground (
  arith,
  mark_used-others now row token rows same,
  eq_iff r.token row.token,
  eq_iff r.token token,
  same,
)

get_by_id-id : (i : ℕ) (users : List User) (u : User) → get_by_id i users ≡ some u → u.id ≡ i
unfolding get_by_id
get_by_id-id i users u h = (nat_beq_iff u.id i).0 (find_first-passes _ users u h)

pub get_by_id-update_user :
    (i : ℕ) (u v : User) (users : List User)
    → get_by_id i users ≡ some u
    → v.id ≡ u.id
    → get_by_id i (update_user v users) ≡ some v
unfolding get_by_id update_user
get_by_id-update_user i u v [] h e = cc
get_by_id-update_user i u v (x ∷ users) h e =
    ground (arith, get_by_id-update_user i u v users, nat_beq_iff x.id i, nat_beq_iff x.id v.id)

get_by_id-update_other :
    (i : ℕ) (v : User) (users : List User)
    → i ≢ v.id
    → get_by_id i (update_user v users) ≡ get_by_id i users
unfolding get_by_id update_user
get_by_id-update_other i v [] ne = refl
get_by_id-update_other i v (x ∷ users) ne =
    ground (arith, get_by_id-update_other i v users ne, nat_beq_iff x.id i, nat_beq_iff x.id v.id)

verify_email-err :
    (d : Draws) (token : String) (w : World)
    → Unlinked d email_verification token w
    → verify_email d token w ≡ (err authentication, w)
unfolding verify_email
verify_email-err d token w (inl missing) = rw missing
verify_email-err d token w (inr (row, valid, missing)) = rw valid (rw missing)

verify_email-cases :
    (d : Draws) (token : String) (w : World)
    → ((row : VerificationToken) × (u : User) × Linked d email_verification token w row u
        × (verify_email d token w ≡ (
          ok (record u { is_verified = true }),
          followed d row (record u { is_verified = true }) w,
        )))
      ⊎ (Unlinked d email_verification token w × (verify_email d token w ≡ (err authentication, w)))
unfolding verify_email
verify_email-cases d token w = elim (link-cases d email_verification token w) [
  | inl (row, u, (valid, live, found)) ↦ inl (row, u, (valid, live, found), rw valid (rw found))
  | inr fails ↦ inr (fails, verify_email-err d token w fails)
]

-- A row of the table.
abbrev pub IsRow : VerificationToken → List VerificationToken → Type 0
IsRow row rows = (i : ℕ) × (get_elem? rows i ≡ some row)

valid-IsRow :
    (now : ℕ) (token : String) (purpose : TokenPurpose) (rows : List VerificationToken)
    (row : VerificationToken)
    → valid_verification_token now token purpose rows ≡ some row
    → IsRow row rows
unfolding valid_verification_token
valid-IsRow now token purpose rows row h = find_first-there _ rows row h

get_by_id-none :
    (i : ℕ) (users : List User) → get_by_id i users ≡ none → All (λ (u : User). u.id ≢ i) users
unfolding get_by_id
get_by_id-none i [] h = tt
get_by_id-none i (u ∷ users) h =
    ((λ p. ground (arith, h, nat_beq_iff u.id i, p)), get_by_id-none i users (ground (arith, h)))

-- Where no link is found, no row may be used, or the user of the row that is found is gone.
abbrev pub Refused : Draws → TokenPurpose → String → World → Type 0
Refused d purpose token w =
    NoneLive d.now token purpose w.verification_tokens
    ⊎ ((row : VerificationToken) × IsRow row w.verification_tokens
        × IsLive d.now token purpose row
        × (valid_verification_token d.now token purpose w.verification_tokens ≡ some row)
        × All (λ (u : User). u.id ≢ row.user_id) w.users)

-- `verify_email` succeeds exactly with a token that stands in an unused row in time, made for this
-- purpose, whose user exists: then that user is verified and no other changed, no unused row has the
-- token any more, and other rows, the sessions and the mails are as before. Where no row is such, or
-- the user is gone, it raises an authentication error and changes nothing.
pub verify_email_exact :
    (d : Draws) (token : String) (w : World)
    → ((row : VerificationToken) × (u : User) × (w' : World) × IsRow row w.verification_tokens
        × IsLive d.now token email_verification row
        × (get_by_id row.user_id w.users ≡ some u)
        × (verify_email d token w ≡ (ok (record u { is_verified = true }), w'))
        × Verified token row u w w')
      ⊎ (Refused d email_verification token w × (verify_email d token w ≡ (err authentication, w)))
verify_email_exact d token w = elim (verify_email-cases d token w) [
  | inl (row, u, (valid, live, found), done) ↦
      let verified = record u { is_verified = true } in
      let same = get_by_id-id row.user_id w.users u found in
      inl (
        row,
        u,
        followed d row verified w,
        valid-IsRow d.now token email_verification w.verification_tokens row valid,
        live,
        found,
        done,
        record {
          user_verified = get_by_id-update_user row.user_id u verified w.users found refl;
          other_users = λ i ne. get_by_id-update_other i verified w.users (λ p. ne (p ∙ same));
          used_up = mark_used-token d.now row token w.verification_tokens live.same_token;
          other_rows = mark_used-others d.now row token w.verification_tokens live.same_token;
          sessions = refl;
          mails = refl;
        },
      )
  | inr (inl missing, refused) ↦
      inr
        (inl (valid-NoneLive d.now token email_verification w.verification_tokens missing), refused)
  | inr (inr (row, valid, missing), refused) ↦ inr (
    inr (
      row,
      valid-IsRow d.now token email_verification w.verification_tokens row valid,
      valid-IsLive d.now token email_verification w.verification_tokens row valid,
      valid,
      get_by_id-none row.user_id w.users missing,
    ),
    refused,
  )
]

-- After a link has been followed, no row is found for its token, whatever the time and the purpose.
pub mark_used-Unlinked :
    (d d' : Draws) (purpose purpose' : TokenPurpose) (token : String) (w w' : World)
    (row : VerificationToken) (u : User)
    → Linked d purpose token w row u
    → w'.verification_tokens ≡ mark_used d.now row w.verification_tokens
    → Unlinked d' purpose' token w'
mark_used-Unlinked d d' purpose purpose' token w w' row u (valid, live, found) used = inl (
    subst (λ t. valid_verification_token d'.now t purpose' w'.verification_tokens ≡ none)
      live.same_token
      (rw used
        (valid_verification_token-mark_used d'.now d.now row purpose' w.verification_tokens)))

-- A verification link works once: after a `verify_email` with it that succeeds, every later one with
-- it is refused, whatever its time.
verify_email_once :
    (d d' : Draws) (token : String) (w w' : World) (u : User)
    → verify_email d token w ≡ (ok u, w')
    → verify_email d' token w' ≡ (err authentication, w')
verify_email_once d d' token w w' u h = elim (verify_email-cases d token w) [
  | inl (row, v, l, done) ↦
      let same : w' ≡ followed d row (record v { is_verified = true }) w =
        ap (λ p. p.1) (sym h ∙ done) in
      verify_email-err d' token w' (
        mark_used-Unlinked d d' email_verification email_verification token w w' row v l
          (ap (λ (x : World). x.verification_tokens) same))
  | inr (_, refused) ↦ absurd (cc (sym h ∙ refused))
]
