-- ===== src/Admin/Members.antt =====
-- What the calls of an administrator do to accounts, and who passes the checks of a route behind them.
use rag_kb.Base.{
  ℕ, ◌+◌, String, ◌≡◌, ◌≢◌, refl, sym, ap, ◌∙◌, ◌⊎◌, inl, inr, Bool, true, false, not, ◌&&◌, List,
  [], ◌∷◌, Option, none, some, find_first-passes, arith, Bool-cases, Option-cases, nat_beq_iff,
}
use rag_kb.Base.Equality.{◌==◌, nat_eq, string_eq}
use rag_kb.Base.Dict
use rag_kb.Errors.{Result, Result-cases, ok, err, Outcome-cases, returned, not_found, validation}
use rag_kb.Auth.Security.{Jwt, access, decode_token}
use rag_kb.Auth.Store.{User, admin, World, get_by_id, update_user}
use rag_kb.Auth.Links.{get_by_id-update_user}
use rag_kb.Admin.{
  subject_of, active_user, get_current_user, with_active, as_admin, set_user_active_status,
  promote_to_admin,
}

get_by_id-id : (i : ℕ) (u : User) (users : List User) → get_by_id i users ≡ some u → u.id ≡ i
unfolding get_by_id
get_by_id-id i u users h = (nat_beq_iff u.id i).0 (find_first-passes _ users u h)

get_by_id-other :
    (j : ℕ) (v : User) (users : List User)
    → v.id ≢ j
    → get_by_id j (update_user v users) ≡ get_by_id j users
unfolding get_by_id update_user
get_by_id-other j v [] ne = refl
get_by_id-other j v (x ∷ users) ne = ground (
  arith,
  get_by_id-other j v users ne,
  nat_beq_iff x.id j,
  nat_beq_iff x.id v.id,
  ne,
  nat_beq_iff v.id j,
)

-- The world with one user changed.
abbrev pub with_user : User → World → World
with_user u w = record w { db = record w.db { users = update_user u w.users } }

-- A status is set in one of three ways. An administrator who would deactivate the own account is
-- refused, and an unknown user is not found; then nothing changes. Else the user is found with the
-- new status and the rest as it was, and every other user as before.
pub set_user_active_status_exact :
    (user_id other : ℕ) (active : Bool) (acting_admin_id : ℕ) (w : World)
    → other ≢ user_id
    → ((set_user_active_status user_id active acting_admin_id w ≡ (err validation, w))
        × (user_id ≡ acting_admin_id)
        × (active ≡ false))
      ⊎ ((set_user_active_status user_id active acting_admin_id w ≡ (err not_found, w))
          × (get_by_id user_id w.users ≡ none))
      ⊎ ((u : User) × (get_by_id user_id w.users ≡ some u)
          × (((user_id == acting_admin_id) && not active) ≡ false)
          × (set_user_active_status user_id active acting_admin_id w
              ≡ (ok (with_active active u), with_user (with_active active u) w))
          × (get_by_id user_id (update_user (with_active active u) w.users)
              ≡ some (with_active active u))
          × (get_by_id other (update_user (with_active active u) w.users)
              ≡ get_by_id other w.users))
unfolding set_user_active_status
set_user_active_status_exact i other active acting w ne =
    elim (Bool-cases ((i == acting) && not active)) [
      | inl own ↦ inl (rw own refl, ground (arith, nat_beq_iff i acting, own), ground (arith, own))
      | inr allowed ↦ elim (Option-cases (get_by_id i w.users)) [
        | inl missing ↦ inr (inl (rw allowed (rw missing refl), missing))
        | inr (u, found) ↦
            let same = get_by_id-id i u w.users found in
            inr (
              inr (
                u,
                found,
                allowed,
                rw allowed (rw found refl),
                get_by_id-update_user i u (with_active active u) w.users found refl,
                get_by_id-other other (with_active active u) w.users (λ p. ne (sym p ∙ same)),
              ))
      ]
    ]

current_user-found :
    (j : Jwt) (now : ℕ) (credentials : Option String) (users : List User) (v : User)
    → get_current_user j now credentials users ≡ returned v
    → (i : ℕ) × (get_by_id i users ≡ some v) × (v.is_active ≡ true)
unfolding get_current_user
current_user-found j now none users v h = cc
current_user-found j now (some token) users v h =
    elim (Result-cases (decode_token j now token access)) [
      | inr (e, refused) ↦ absurd (cc (rw refused at h))
      | inl (payload, decoded) ↦ elim (Outcome-cases (subject_of (Dict.lookup "sub" payload))) [
        | inr (inl (e, missing)) ↦ absurd (cc (rw missing at (rw decoded at h)))
        | inr (inr broken) ↦ absurd (cc (rw broken at (rw decoded at h)))
        | inl (i, subject) ↦
            let k : active_user (get_by_id i users) ≡ returned v =
              (rw subject at (rw decoded at h)) in
            let (there, on) = active_user-some (get_by_id i users) k in (i, there, on)
      ]
    ]
  where
    active_user-some :
        (o : Option User) → active_user o ≡ returned v → (o ≡ some v) × (v.is_active ≡ true)
    active_user-some none k = cc
    active_user-some (some u) k = elim (Bool-cases u.is_active) [
      | inr off ↦ absurd (cc (rw off at k))
      | inl on ↦
          let same : u ≡ v = cc (rw on at k) in
          (ap some same, ap (λ (x : User). x.is_active) (sym same) ∙ on)
    ]

-- A deactivation takes effect at once: behind it no credentials at all, also no access token from
-- before that has not expired, pass the check of a route as the user.
pub deactivated_is_locked_out :
    (j : Jwt) (now : ℕ) (credentials : Option String) (user_id acting_admin_id : ℕ) (w w' : World)
    (u v : User)
    → set_user_active_status user_id false acting_admin_id w ≡ (ok u, w')
    → get_current_user j now credentials w'.users ≡ returned v
    → v.id ≢ user_id
deactivated_is_locked_out j now credentials user_id acting w w' u v done passed same =
    elim (set_user_active_status_exact user_id (user_id + 1) false acting w
      (λ p. omega (arith, p))) [
        | inl (refused, _, _) ↦ absurd (cc (sym done ∙ refused))
        | inr (inl (missing, _)) ↦ absurd (cc (sym done ∙ missing))
        | inr (inr (u0, found, _, set, now_there, _)) ↦
            let (i, there, on) = current_user-found j now credentials w'.users v passed in
            let at : i ≡ user_id = sym (get_by_id-id i v w'.users there) ∙ same in
            let stores : w' ≡ with_user (with_active false u0) w =
              ap (λ (x : Result User × World). x.1) (sym done ∙ set) in
            let both : some v ≡ some (with_active false u0) =
              sym (rw at at there)
              ∙ (ap (λ (x : World). get_by_id user_id x.users) stores ∙ now_there) in
            let off : v ≡ with_active false u0 = cc both in
            absurd (differ (sym on ∙ ap (λ (x : User). x.is_active) off))
      ]
  where
    differ : true ≡ false → ⊥
    differ h = cc

-- The calls of an administrator that change accounts.
pub data AdminCall : Type 0 where
  set_status : ℕ → Bool → AdminCall
  promote : ℕ → AdminCall

abbrev pub after_call : ℕ → AdminCall → World → World
after_call acting (set_status i active) w = (set_user_active_status i active acting w).1
after_call acting (promote i) w = (promote_to_admin i w).1

abbrev pub after_calls : ℕ → List AdminCall → World → World
after_calls acting [] w = w
after_calls acting (c ∷ calls) w = after_calls acting calls (after_call acting c w)

abbrev pub IsActiveAdmin : ℕ → World → Type 0
IsActiveAdmin i w =
    (u : User) × (get_by_id i w.users ≡ some u) × (u.is_active ≡ true) × (u.role ≡ admin)

changed-IsActiveAdmin :
    (acting i : ℕ) (w : World) (u v : User)
    → get_by_id i w.users ≡ some u
    → v.id ≡ u.id
    → (i ≡ acting → u.is_active ≡ true → u.role ≡ admin → (v.is_active ≡ true) × (v.role ≡ admin))
    → IsActiveAdmin acting w
    → IsActiveAdmin acting (with_user v w)
changed-IsActiveAdmin acting i w u v found same keeps (a, there, on, is) =
    elim (Bool-cases (i == acting)) [
      | inl e ↦
          let self = (nat_beq_iff i acting).0 e in
          let own : a ≡ u = cc (sym there ∙ rw self at found) in
          let (on', is') =
            keeps self (ap (λ (x : User). x.is_active) (sym own) ∙ on)
              (ap (λ (x : User). x.role) (sym own) ∙ is) in
          (v, get_by_id-update_user acting u v w.users (rw self at found) same, on', is')
      | inr other ↦
          let ne : v.id ≢ acting = λ p. differ (
            sym ((nat_beq_iff i acting).1 (sym (get_by_id-id i u w.users found) ∙ (sym same ∙ p)))
            ∙ other) in
          (a, get_by_id-other acting v w.users ne ∙ there, on, is)
    ]
  where
    differ : true ≡ false → ⊥
    differ h = cc

after_call-IsActiveAdmin :
    (acting : ℕ) (c : AdminCall) (w : World)
    → IsActiveAdmin acting w
    → IsActiveAdmin acting (after_call acting c w)
unfolding set_user_active_status promote_to_admin
after_call-IsActiveAdmin acting (set_status i active) w h =
    elim (Bool-cases ((i == acting) && not active)) [
      | inl own ↦ rw (own, after_call) h
      | inr allowed ↦ elim (Option-cases (get_by_id i w.users)) [
        | inl missing ↦ rw (allowed, after_call) (rw (missing, after_call) h)
        | inr (u, found) ↦
            rw (allowed, after_call)
              (rw (found, after_call)
                (changed-IsActiveAdmin acting i w u (with_active active u) found refl
                  (λ e on is. (stays e allowed, is)) h))
      ]
    ]
  where
    stays : i ≡ acting → ((i == acting) && not active) ≡ false → active ≡ true
    stays e allowed = ground (arith, nat_beq_iff i acting, e, allowed)
after_call-IsActiveAdmin acting (promote i) w h = elim (Option-cases (get_by_id i w.users)) [
  | inl missing ↦ rw (missing, after_call) h
  | inr (u, found) ↦
      rw (found, after_call)
        (changed-IsActiveAdmin acting i w u (as_admin u) found refl (λ e on is. (on, refl)) h)
]

-- Whatever accounts an active administrator activates, deactivates or promotes, in whatever order, the
-- own account stays that of an active administrator: the system is never left without one.
pub admin_remains :
    (acting : ℕ) (calls : List AdminCall) (w : World)
    → IsActiveAdmin acting w
    → IsActiveAdmin acting (after_calls acting calls w)
admin_remains acting [] w h = h
admin_remains acting (c ∷ calls) w h =
    admin_remains acting calls (after_call acting c w) (after_call-IsActiveAdmin acting c w h)
