-- ===== src/Tests/Admins.antt =====
-- An administrator, a user, and a token that is its own payload.
use rag_kb.Base.{◌≡◌, ◌≢◌, refl, true, false, [], ◌∷◌, none, some}
use rag_kb.Errors.{ok, Result}
use rag_kb.Auth.Security.{Jwt}
use rag_kb.Auth.Security
use rag_kb.Auth.Store.{User, UserRole, admin, World, get_by_id, update_user}
use rag_kb.Admin.{get_current_user, set_user_active_status}
use rag_kb.Admin.Members.{
  deactivated_is_locked_out, set_status, promote, after_calls, IsActiveAdmin, admin_remains,
}

abbrev boss : User
boss = record {
  id = 1;
  email = "boss@x";
  hashed_password = "h";
  full_name = none;
  is_active = true;
  is_verified = true;
  role = admin;
}

abbrev member : User
member = record boss { id = 2; email = "m@x"; role = UserRole.user }

abbrev world : World
world = record {
  db = record { users = boss ∷ member ∷ []; refresh_tokens = []; verification_tokens = [] };
  outbox = [];
}

abbrev tokens : Jwt
tokens = record {
  encode = λ p. "t";
  decode = λ now t. some (("type", Security.label "access") ∷ ("sub", Security.user 1) ∷ []);
}

abbrev locked : World
locked = record world {
  db = record world.db { users = boss ∷ record member { is_active = false } ∷ [] };
}

deactivated :
    set_user_active_status 2 false 1 world ≡ (ok (record member { is_active = false }), locked)
unfolding set_user_active_status get_by_id update_user
deactivated = refl

passes : get_current_user tokens 5 (some "t") locked.users ≡ rag_kb.Errors.returned boss
unfolding get_current_user get_by_id
passes = refl

deactivated_is_locked_out_example : boss.id ≢ 2
deactivated_is_locked_out_example =
    deactivated_is_locked_out tokens 5 (some "t") 2 1 world locked
      (record member { is_active = false }) boss deactivated passes

found_boss : get_by_id 1 world.users ≡ some boss
unfolding get_by_id
found_boss = refl

admin_remains_example :
    IsActiveAdmin 1 (after_calls 1 (set_status 2 false ∷ set_status 1 false ∷ promote 2 ∷ []) world)
admin_remains_example =
    admin_remains 1 (set_status 2 false ∷ set_status 1 false ∷ promote 2 ∷ []) world
      (boss, found_boss, refl, refl)
