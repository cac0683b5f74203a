-- ===== src/Admin.antt =====
-- app/services/admin_service.py without the retry of documents, the queries over all users and
-- documents of app/repositories/{user,knowledge_base,document}_repository.py, and the two checks of
-- app/api/dependencies.py in front of a route.
pub mod Members
use rag_kb.Base.{
  ℕ, String, Bool, true, false, not, ◌&&◌, List, [], ◌∷◌, Option, none, some, if◌then◌else◌, length,
  filterb, page,
}
use rag_kb.Base.Equality.{◌==◌, nat_eq, string_eq}
use rag_kb.Base.Dict
use rag_kb.Base.Dict.{Dict}
use rag_kb.Errors.{
  Result, ok, err, Outcome, returned, raised, uncaught, of_result, ◌>>=◌, authentication,
  authorization, not_found, validation,
}
use rag_kb.Auth.Security.{Jwt, Payload, ClaimValue, user, label, time, access, decode_token}
use rag_kb.Auth.Store.{User, UserRole, admin, World, Action, get_by_id, update_user}
use rag_kb.Documents.{Document, DocumentStatus, pending, processing, ready, failed, KnowledgeBase}

-- `uuid.UUID(user_id)`, with its `ValueError` for a text that is no id.
abbrev pub id_of : ClaimValue → Outcome ℕ
id_of (user i) = returned i
id_of (label s) = uncaught
id_of (time t) = uncaught

abbrev pub subject_of : Option ClaimValue → Outcome ℕ
subject_of none = raised authentication
subject_of (some c) = id_of c

abbrev pub active_user : Option User → Outcome User
active_user none = raised authentication
active_user (some u) = if u.is_active then returned u else raised authentication

-- `get_current_user`
unfoldable pub get_current_user : Jwt → ℕ → Option String → List User → Outcome User
unfolding decode_token Dict.lookup get_by_id
get_current_user j now none users = raised authentication
get_current_user j now (some token) users =
    of_result (decode_token j now token access) >>= λ payload.
    subject_of (Dict.lookup "sub" payload) >>= λ user_id. active_user (get_by_id user_id users)

abbrev pub is_admin : UserRole → Bool
is_admin admin = true
is_admin _ = false

abbrev pub admitted : User → Outcome User
admitted u = if is_admin u.role then returned u else raised authorization

-- `require_admin`
unfoldable pub require_admin : Jwt → ℕ → Option String → List User → Outcome User
unfolding get_current_user
require_admin j now credentials users = get_current_user j now credentials users >>= admitted

abbrev changed : (User → User) → World → Option User → Result User × World
changed f w none = (err not_found, w)
changed f w (some u) =
    (ok (f u), record w { db = record w.db { users = update_user (f u) w.users } })

abbrev pub with_active : Bool → User → User
with_active active u = record u { is_active = active }

abbrev pub as_admin : User → User
as_admin u = record u { role = admin }

-- `set_user_active_status`
unfoldable pub set_user_active_status : ℕ → Bool → ℕ → Action User
unfolding get_by_id update_user
set_user_active_status user_id active acting_admin_id w =
    if (user_id == acting_admin_id) && not active
    then (err validation, w)
    else changed (with_active active) w (get_by_id user_id w.users)

-- `promote_to_admin`
unfoldable pub promote_to_admin : ℕ → Action User
unfolding get_by_id update_user
promote_to_admin user_id w = changed as_admin w (get_by_id user_id w.users)

-- `UserRepository.list_all_paginated`
unfoldable pub list_all_paginated : ℕ → ℕ → List User → List User
list_all_paginated limit offset users = page limit offset users

-- `list_users`, with `count_all`
unfoldable pub list_users : ℕ → ℕ → List User → List User × ℕ
unfolding list_all_paginated
list_users limit offset users = (list_all_paginated limit offset users, length users)

pub record UserCounts : Type 0 where
  pub active : ℕ
  pub verified : ℕ
  pub admins : ℕ

-- `UserRepository.count_by_status`
unfoldable pub count_users_by_status : List User → UserCounts
count_users_by_status users = record {
  active = length (filterb (λ (u : User). u.is_active) users);
  verified = length (filterb (λ (u : User). u.is_verified) users);
  admins = length (filterb (λ (u : User). is_admin u.role) users);
}

abbrev pub status_beq : DocumentStatus → DocumentStatus → Bool
status_beq pending pending = true
status_beq processing processing = true
status_beq ready ready = true
status_beq failed failed = true
status_beq _ _ = false

-- `DocumentRepository.count_with_status`
unfoldable pub count_with_status : DocumentStatus → List Document → ℕ
count_with_status status docs = length (filterb (λ (d : Document). status_beq d.status status) docs)

-- `DocumentRepository.count_by_status`: an entry for each status that some document has.
abbrev counted : DocumentStatus → ℕ → List (DocumentStatus × ℕ) → List (DocumentStatus × ℕ)
counted status n rest = if n == 0 then rest else (status, n) ∷ rest

unfoldable pub count_by_status : List Document → List (DocumentStatus × ℕ)
unfolding count_with_status
count_by_status docs = counted pending (count_with_status pending docs) (
    counted processing (count_with_status processing docs) (
      counted ready (count_with_status ready docs)
        (counted failed (count_with_status failed docs) [])))

-- `DocumentRepository.list_by_status`
unfoldable pub list_by_status : DocumentStatus → ℕ → ℕ → List Document → List Document
list_by_status status limit offset docs =
    page limit offset (filterb (λ (d : Document). status_beq d.status status) docs)

-- `list_documents_by_status`
unfoldable pub list_documents_by_status : DocumentStatus → ℕ → ℕ → List Document → List Document × ℕ
unfolding list_by_status count_with_status
list_documents_by_status status limit offset docs =
    (list_by_status status limit offset docs, count_with_status status docs)

pub record SystemStats : Type 0 where
  pub total_users : ℕ
  pub users : UserCounts
  pub total_knowledge_bases : ℕ
  pub documents_by_status : List (DocumentStatus × ℕ)

-- `get_system_stats`
unfoldable pub get_system_stats : List User → List KnowledgeBase → List Document → SystemStats
unfolding count_users_by_status count_by_status
get_system_stats users knowledge_bases docs = record {
  total_users = length users;
  users = count_users_by_status users;
  total_knowledge_bases = length knowledge_bases;
  documents_by_status = count_by_status docs;
}
