-- ===== src/Tests/Talks.antt =====
-- A conversation with a model that always says the same, without chunks in the knowledge base.
use rag_kb.Base.{
  ℕ, ◌≡◌, refl, ap, ◌⊎◌, true, List, [], ◌∷◌, Option, none, some, if◌then◌else◌, arith, is_empty,
  ◌<◌, sym, ◌≤◌, ◌≢◌, leb, All, All-of, Bool-cases, inl, inr,
}
use mathlib.Core.List.{Perm}
use mathlib.Core.List.Perm
use rag_kb.Base.Text.{Text, codes}
use rag_kb.Base.Equality.{nat_eq, string_eq}
use rag_kb.Errors.{ok, returned, raised, not_found}
use rag_kb.Cache.{Json, get}
use rag_kb.Guardrails.{check_input, input_loop}
use rag_kb.Guardrails.Injection
use rag_kb.Guardrails.Injection.{prompt_injection, all_patterns, HasTwo, labels_of}
use rag_kb.Guardrails.Output
use rag_kb.Guardrails.Output.{
  output_check_exact, output_validation, leaks, shows_pii, pii_patterns, redacted_all,
}
use rag_kb.Documents.{get_for_user}
use rag_kb.Documents.Service.{get_owned_or_404}
use rag_kb.Conversations.{
  Conversation, Message, from_user, CachedResponse, Stores, in_conversation, list_for_conversation,
  get_for_knowledge_base, update_conversation,
}
use rag_kb.Conversations.Service.{
  ConversationService, retitled, get_conversation_or_404, delete_conversation,
}
use rag_kb.Conversations.Sending.{
  Turn, response_key, begin_turn, load_conversation_history, send_message,
}
use rag_kb.Conversations.History.{
  list_for_conversation_exact, IsRecent, IsOldestFirst, OrdersByTime,
}
use rag_kb.Conversations.Turns.{asked, assistant_row, user_row}
use rag_kb.Conversations.Cached.{asked_again}
use rag_kb.Conversations.Ownership.{delete_conversation_exact, rows_of}
use rag_kb.Conversations.Access.{MaySee, MayNotSee}
use rag_kb.Tests.Caching.{one_place, one_place-IsRedis, sha, Slot}
use rag_kb.Tests.Guards.{at_sign, lengths}

abbrev first_message : Message
first_message = record {
  conversation_id = 4;
  role = from_user;
  content = codes "a";
  created_at = 1;
}

abbrev second_message : Message
second_message = record {
  conversation_id = 4;
  role = from_user;
  content = codes "b";
  created_at = 1;
}

-- Insertion by the time, in front of messages that are not older.
abbrev insert_by_time : Message → List Message → List Message
insert_by_time m [] = m ∷ []
insert_by_time m (n ∷ ns) =
    let rest = insert_by_time m ns in if leb m.created_at n.created_at then m ∷ n ∷ ns else n ∷ rest

abbrev by_time : List Message → List Message
by_time [] = []
by_time (m ∷ ms) = insert_by_time m (by_time ms)

insert_by_time-Perm : (m : Message) (ns : List Message) → Perm (insert_by_time m ns) (m ∷ ns)
insert_by_time-Perm m [] = Perm.refl (m ∷ [])
insert_by_time-Perm m (n ∷ ns) = elim (Bool-cases (leb m.created_at n.created_at)) [
  | inl e ↦ rw (insert_by_time, e) (Perm.refl (m ∷ n ∷ ns))
  | inr e ↦
      rw (insert_by_time, e)
        (Perm.trans (Perm.cons n (insert_by_time-Perm m ns)) (Perm.swap m n ns))
]

by_time-Perm : (ms : List Message) → Perm (by_time ms) ms
by_time-Perm [] = Perm.refl []
by_time-Perm (m ∷ ms) =
    Perm.trans (insert_by_time-Perm m (by_time ms)) (Perm.cons m (by_time-Perm ms))

insert_by_time-All :
    (lo : ℕ) (m : Message) (ns : List Message)
    → lo ≤ m.created_at
    → All (λ (n : Message). lo ≤ n.created_at) ns
    → All (λ (n : Message). lo ≤ n.created_at) (insert_by_time m ns)
insert_by_time-All lo m [] h k = (h, tt)
insert_by_time-All lo m (n ∷ ns) h k = elim (Bool-cases (leb m.created_at n.created_at)) [
  | inl e ↦ rw (insert_by_time, e) (h, k)
  | inr e ↦ rw (insert_by_time, e) (k.0, insert_by_time-All lo m ns h k.1)
]

insert_by_time-IsOldestFirst :
    (m : Message) (ns : List Message) → IsOldestFirst ns → IsOldestFirst (insert_by_time m ns)
insert_by_time-IsOldestFirst m [] h = (tt, tt)
insert_by_time-IsOldestFirst m (n ∷ ns) h = elim (Bool-cases (leb m.created_at n.created_at)) [
  | inl e ↦
      let le : m.created_at ≤ n.created_at = ground (arith, e) in
      rw (insert_by_time, e)
        (
          (
            le,
            All-of _ (λ (k : Message) (p : n.created_at ≤ k.created_at). omega (arith, p, le)) ns
                h.0,
          ),
          h,
        )
  | inr e ↦
      let le : n.created_at ≤ m.created_at = ground (arith, e) in
      rw (insert_by_time, e)
        (insert_by_time-All n.created_at m ns le h.0, insert_by_time-IsOldestFirst m ns h.1)
]

by_time-IsOldestFirst : (ms : List Message) → IsOldestFirst (by_time ms)
by_time-IsOldestFirst [] = tt
by_time-IsOldestFirst (m ∷ ms) =
    insert_by_time-IsOldestFirst m (by_time ms) (by_time-IsOldestFirst ms)

abbrev two_messages : List Message
two_messages = first_message ∷ second_message ∷ []

by_time-OrdersByTime : OrdersByTime by_time
by_time-OrdersByTime = record { permutes = by_time-Perm; sorts = by_time-IsOldestFirst }

list_for_conversation_exact_example :
    ((0 < 1)
      × IsRecent 1
          (in_conversation 4 two_messages)
          (list_for_conversation by_time 4 (some 1) two_messages))
    ⊎ (◌≡◌ {A = ℕ} 1 0
        × IsOldestFirst (list_for_conversation by_time 4 (some 1) two_messages)
        × Perm
            (list_for_conversation by_time 4 (some 1) two_messages)
            (in_conversation 4 two_messages))
list_for_conversation_exact_example =
    list_for_conversation_exact by_time 4 1 two_messages by_time-OrdersByTime

answers_law :
    (v : CachedResponse) (t : Text)
    → (if is_empty v.sources then some v.content else none) ≡ some t
    → some (record { content = t; sources = [] }) ≡ some v
answers_law v t h = by_sources v.sources refl h
  where
    by_sources :
        (l : List Text)
        → v.sources ≡ l
        → (if is_empty l then some v.content else none) ≡ some t
        → some (record { content = t; sources = [] }) ≡ some v
    by_sources [] e k =
        let same : v.content ≡ t = cc k in
        let made : record { content = t; sources = [] } ≡ v =
          λ i. record { content = sym same i; sources = sym e i } in
        ap some made
    by_sources (x ∷ l) e k = cc

abbrev answers : Json CachedResponse
answers = record {
  dumps = λ v. if is_empty v.sources then some v.content else none;
  loads = λ t. some (record { content = t; sources = [] });
  loads-dumps = λ v t h. answers_law v t h;
}

abbrev service : ConversationService
service = record {
  redis = one_place;
  json = answers;
  sha = sha;
  has_cache = true;
  cache_enabled = true;
  response_cache_ttl_seconds = 300;
  guardrails = some (record {
    input_guardrails = prompt_injection at_sign 9 ∷ [];
    output_guardrails = output_validation at_sign true ∷ [];
    enabled = true;
    block_on_input_violation = true;
  });
  pipeline = lengths;
  chat = λ ms. ok (record {
    content = codes "so";
    model_name = codes "m";
    input_tokens = 1;
    output_tokens = 1;
  });
  stream_chat = λ ms. record { chunks = codes "s" ∷ codes "o" ∷ []; failure = none };
  max_history_messages = 2;
  id_text = λ i. i ∷ [];
  order_by_created_at = by_time;
}

abbrev two_conversations : Stores Slot
two_conversations = record {
  documents = record {
    tables = record {
      knowledge_bases = record { id = 2; owner_id = 1; name = "kb"; description = none } ∷ [];
      documents = [];
      chunks = [];
    };
    files = [];
    queue = [];
    dropped = [];
  };
  conversations =
      record { id = 4; knowledge_base_id = 2; title = none }
      ∷ record { id = 5; knowledge_base_id = 2; title = some (codes "t") }
      ∷ [];
  messages = [];
  cache = none;
  now = 3;
}

abbrev turn_of : ℕ → Option Text → Turn
turn_of i title = record {
  conversation = record { id = i; knowledge_base_id = 2; title = title };
  history = [];
  user_message = user_row service 3 i (codes "why");
}

began_first : begin_turn service 4 2 1 (codes "why") two_conversations ≡ (
  returned (turn_of 4 none),
  asked service (turn_of 4 none).conversation (codes "why") two_conversations,
)
unfolding begin_turn check_input input_loop Injection.check Injection.judged all_patterns
    get_owned_or_404 get_for_user get_conversation_or_404 get_for_knowledge_base
    load_conversation_history list_for_conversation
began_first = refl

abbrev behind : Stores Slot
behind = asked service (turn_of 4 none).conversation (codes "why") two_conversations

delete_conversation_exact_example :
    (MayNotSee 4 2 1 two_conversations
      × (delete_conversation 4 2 1 two_conversations ≡ (raised not_found, two_conversations)))
    ⊎ ((c : Conversation) × (w' : Stores Slot) × MaySee 4 2 1 two_conversations c
        × (delete_conversation 4 2 1 two_conversations ≡ (returned tt, w'))
        × (in_conversation 4 w'.messages ≡ [])
        × All (λ (d : Conversation). d.id ≢ 4) w'.conversations
        × (rows_of 5 w'.conversations ≡ rows_of 5 two_conversations.conversations)
        × (in_conversation 5 w'.messages ≡ in_conversation 5 two_conversations.messages)
        × (w'.documents ≡ two_conversations.documents)
        × (w'.cache ≡ two_conversations.cache))
delete_conversation_exact_example =
    delete_conversation_exact 4 2 1 5 two_conversations (λ h. omega (arith, h))

abbrev answered_once : Stores Slot
answered_once =
    record (asked service (turn_of 4 none).conversation (codes "why") two_conversations) {
      messages = user_row service 3 4 (codes "why") ∷ assistant_row service 3 4 (codes "so") ∷ [];
      cache = some (response_key service 2 (codes "why"), codes "so");
    }

abbrev first_reply : Message × Message × List Text
first_reply = (user_row service 3 4 (codes "why"), assistant_row service 3 4 (codes "so"), [])

sent :
    send_message service 4 2 1 (codes "why") two_conversations
    ≡ (returned first_reply, answered_once)
unfolding send_message begin_turn check_input input_loop Injection.check Injection.judged
    all_patterns get_owned_or_404 get_for_user get_conversation_or_404 get_for_knowledge_base
    load_conversation_history list_for_conversation get Output.check
sent = refl

began_later : begin_turn service 5 2 1 (codes "why") answered_once ≡ (
  returned (turn_of 5 (some (codes "t"))),
  asked service (turn_of 5 (some (codes "t"))).conversation (codes "why") answered_once,
)
unfolding begin_turn check_input input_loop Injection.check Injection.judged all_patterns
    get_owned_or_404 get_for_user get_conversation_or_404 get_for_knowledge_base
    load_conversation_history list_for_conversation retitled update_conversation
began_later = refl

asked_again_example :
    ((send_message service 5 2 1 (codes "why") answered_once).0
      ≡ returned (user_row service 3 5 (codes "why"), assistant_row service 3 5 (codes "so"), []))
    ⊎ (answered_once.cache ≡ none)
asked_again_example =
    asked_again service 4 5 2 1 1 (codes "why") two_conversations answered_once answered_once
      (turn_of 4 none) (turn_of 5 (some (codes "t"))) first_reply one_place-IsRedis began_first refl
      sent refl began_later refl
