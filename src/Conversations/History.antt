-- ===== src/Conversations/History.antt =====
-- What of a conversation the language model is shown.
use rag_kb.Base.{
  ℕ, zero, suc, ◌+◌, ◌-◌, ◌≤◌, ◌<◌, ◌≡◌, refl, subst, sym, ◌⊎◌, inl, inr, true, false, List, [],
  ◌∷◌, ◌++◌, some, length, take, drop, take-append-drop, length-drop, arith, Bool-cases, ltb, All,
}
use mathlib.Core.List.{Perm}
use rag_kb.Conversations.{Message, in_conversation, from_end, list_for_conversation}

-- Messages with their times going up; messages of one time may stand in any order.
abbrev pub IsOldestFirst : List Message → Type 0
IsOldestFirst [] = Unit
IsOldestFirst (m ∷ ms) = All (λ (n : Message). m.created_at ≤ n.created_at) ms × IsOldestFirst ms

-- What `order_by(Message.created_at.asc())` promises.
pub record OrdersByTime (ordered : List Message → List Message) : Type 0 where
  pub permutes : (ms : List Message) → Perm (ordered ms) ms
  pub sorts : (ms : List Message) → IsOldestFirst (ordered ms)

-- The most recent messages of a list, at most `limit`, oldest first: with the ones that are left out
-- they are the list, no message left out is younger than one of them, and a message is left out only
-- where there are `limit` of them.
abbrev pub IsRecent : ℕ → List Message → List Message → Type 0
IsRecent limit all recent =
    (length recent ≤ limit)
    × IsOldestFirst recent
    × ((older : List Message) × Perm (older ++ recent) all
        × All (λ (m : Message). All (λ (n : Message). m.created_at ≤ n.created_at) recent) older
        × ((older ≡ []) ⊎ (length recent ≡ limit)))

All-behind : (P : Message → Type 0) (xs ys : List Message) → All P (xs ++ ys) → All P ys
All-behind P [] ys h = h
All-behind P (x ∷ xs) ys h = All-behind P xs ys h.1

IsOldestFirst-append :
    (xs ys : List Message)
    → IsOldestFirst (xs ++ ys)
    → IsOldestFirst ys
      × All (λ (m : Message). All (λ (n : Message). m.created_at ≤ n.created_at) ys) xs
IsOldestFirst-append [] ys h = (h, tt)
IsOldestFirst-append (x ∷ xs) ys h =
    let (sorted, older) = IsOldestFirst-append xs ys h.1 in
    (sorted, (All-behind (λ (n : Message). x.created_at ≤ n.created_at) xs ys h.0, older))

from_end-IsRecent :
    (n : ℕ) (all ms : List Message)
    → Perm ms all
    → IsOldestFirst ms
    → suc n < length ms
    → IsRecent (suc n) all (from_end (suc n) ms)
from_end-IsRecent n all ms same sorted h =
    let k = length ms - suc n in
    let whole = take-append-drop k ms in
    let exact : length (drop k ms) ≡ suc n = omega (arith, length-drop k ms) in
    let (later, older) =
      IsOldestFirst-append (take k ms) (drop k ms) (subst IsOldestFirst (sym whole) sorted) in
    (
      omega (arith, exact),
      later,
      (take k ms, subst (λ l. Perm l all) (sym whole) same, older, inr exact),
    )

-- However the database orders messages of one time: with a limit above zero the model is shown the
-- most recent messages of the conversation, oldest first, at most `limit` of them, and all of them
-- where there are not more. With the limit zero it is shown the whole conversation, oldest first.
pub list_for_conversation_exact :
    (ordered : List Message → List Message) (conversation_id limit : ℕ) (rows : List Message)
    → OrdersByTime ordered
    → ((0 < limit)
        × IsRecent limit
            (in_conversation conversation_id rows)
            (list_for_conversation ordered conversation_id (some limit) rows))
      ⊎ ((limit ≡ 0)
          × IsOldestFirst (list_for_conversation ordered conversation_id (some limit) rows)
          × Perm
              (list_for_conversation ordered conversation_id (some limit) rows)
              (in_conversation conversation_id rows))
unfolding list_for_conversation
list_for_conversation_exact ordered i zero rows laws =
    let e = whole (ordered (in_conversation i rows)) in
    inr (
      refl,
      rw e (laws.sorts (in_conversation i rows)),
      rw e (laws.permutes (in_conversation i rows)),
    )
  where
    whole : (ms : List Message) → rag_kb.Base.if◌then◌else◌ (ltb 0 (length ms)) ms ms ≡ ms
    whole ms = ground arith
list_for_conversation_exact ordered i (suc n) rows laws =
    let all = in_conversation i rows in
    elim (Bool-cases (ltb (suc n) (length (ordered all)))) [
      | inl more ↦ inl (
        omega arith,
        rw more (
            from_end-IsRecent n all (ordered all) (laws.permutes all) (laws.sorts all)
              (ground arith)),
      )
      | inr fits ↦ inl (
        omega arith,
        rw fits (ground arith, laws.sorts all, ([], laws.permutes all, tt, inl refl)),
      )
    ]
