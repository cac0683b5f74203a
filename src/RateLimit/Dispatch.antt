-- ===== src/RateLimit/Dispatch.antt =====
-- Whole requests: each bucket is a sliding window of its own.
use rag_kb.Base.{
  ℕ, ◌+◌, ◌≤◌, ◌≡◌, refl, ◌∙◌, inl, inr, true, false, List, [], ◌∷◌, ◌++◌, length, if◌then◌else◌,
  arith, Bool-cases, All, anyb,
}
use rag_kb.Base.Text.{Text, codes, starts_with}
use rag_kb.Base.Equality.{◌==◌, nat_eq, list_eq, ==_refl}
use rag_kb.Base.Dict
use rag_kb.Base.Dict.{Dict, lookup-insert}
use rag_kb.RateLimit.{
  Limiter, Request, Times, rejected, passed, admit, is_over_limit, limit_for_path, client_ip,
  bucket_key, dispatch, strict_path_prefixes,
}
use rag_kb.RateLimit.Window.{admitted, IsOrdered, count_within, window_limit}

abbrev pub bucket : Text → Times → List ℕ
bucket k times = Dict.get_or k [] times

get_or-insert :
    (j k : Text) (ts : List ℕ) (times : Times)
    → bucket k (Dict.insert j ts times) ≡ (if j == k then ts else bucket k times)
unfolding Dict.get_or
get_or-insert j k ts times = ground (arith, lookup-insert j k ts times)

-- The times at which the requests of bucket `k` pass, of requests of any clients, in order.
pub passed_in : Limiter → Text → List (ℕ × Request) → Times → List ℕ
passed_in l k [] times = []
passed_in l k ((now, r) ∷ requests) times =
    let (outcome, times') = dispatch l now r times in
    let rest = passed_in l k requests times' in
    if bucket_key l r == k then elim outcome [ rejected ↦ rest | passed ↦ now ∷ rest ] else rest

-- The times of the requests of bucket `k`.
abbrev pub arrivals : Limiter → Text → List (ℕ × Request) → List ℕ
arrivals l k [] = []
arrivals l k ((now, r) ∷ requests) =
    let rest = arrivals l k requests in if bucket_key l r == k then now ∷ rest else rest

module _ (l : Limiter) (k : Text) (limit : ℕ) (on : l.enabled ≡ true) where
  bucket-dispatch_ne :
      (now : ℕ) (r : Request) (times : Times)
      → (bucket_key l r == k) ≡ false
      → bucket k (dispatch l now r times).1 ≡ bucket k times
  unfolding dispatch is_over_limit
  bucket-dispatch_ne now r times h =
      let left = (admit l.window (limit_for_path l r.path) now (bucket (bucket_key l r) times)).1 in
      rw on (get_or-insert (bucket_key l r) k left times ∙ (rw h))

  dispatch_self :
      (now : ℕ) (r : Request) (times : Times)
      → bucket_key l r ≡ k
      → limit_for_path l r.path ≡ limit
      → let (over, left) = admit l.window limit now (bucket k times) in
        ((dispatch l now r times).0 ≡ (if over then rejected else passed))
        × (bucket k (dispatch l now r times).1 ≡ left)
  unfolding dispatch is_over_limit
  dispatch_self now r times h m =
      rw (on, h, m)
        (
          refl,
          get_or-insert k k (admit l.window limit now (bucket k times)).1 times ∙ rw (==_refl k),
        )

  -- The requests of one bucket pass as its own sliding window admits them, whatever requests of
  -- other buckets come between.
  passed_in-admitted :
      (requests : List (ℕ × Request)) (times : Times)
      → All (λ p. bucket_key l p.1 ≡ k → limit_for_path l p.1.path ≡ limit) requests
      → passed_in l k requests times
        ≡ admitted l.window limit (bucket k times) (arrivals l k requests)
  unfolding passed_in admitted
  passed_in-admitted [] times h = refl
  passed_in-admitted ((now, r) ∷ requests) times h =
      let ih = passed_in-admitted requests (dispatch l now r times).1 h.1 in
      elim (Bool-cases (bucket_key l r == k)) [
        | inr other ↦ rw (other, passed_in) (ih ∙ rw (bucket-dispatch_ne now r times other))
        | inl same ↦
            let key = (list_eq.beq_iff (bucket_key l r) k).0 same in
            let (outcome, left) = dispatch_self now r times key (h.0 key) in
            elim (Bool-cases (admit l.window limit now (bucket k times)).0) [
              | inl over ↦ rw (same, passed_in, outcome, over, ih, left)
              | inr room ↦ rw (same, passed_in, outcome, room, ih, left)
            ]
      ]

-- Of the requests of one bucket, all under the same limit, at most that many pass within any window,
-- whatever other requests come between: with those that the deque holds at the start, at most
-- `limit` of the times at which they pass lie between `start` and `start + window`.
pub dispatch_limit :
    (l : Limiter) (k : Text) (limit start : ℕ) (requests : List (ℕ × Request)) (times : Times)
    → l.enabled ≡ true
    → length (bucket k times) ≤ limit
    → IsOrdered (arrivals l k requests)
    → All (λ p. bucket_key l p.1 ≡ k → limit_for_path l p.1.path ≡ limit) requests
    → count_within l.window start (bucket k times)
        + count_within l.window start (passed_in l k requests times)
      ≤ limit
dispatch_limit l k limit start requests times on short ordered same =
    rw (passed_in-admitted l k limit on requests times same)
      (window_limit l.window limit start (bucket k times) (arrivals l k requests) short ordered)

limit_for_path-eq :
    (l : Limiter) (path : Text)
    → l.general_limit ≡ l.auth_limit
    → limit_for_path l path ≡ l.auth_limit
unfolding limit_for_path
limit_for_path-eq l path h =
    elim (Bool-cases (anyb (λ prefix. starts_with prefix path) strict_path_prefixes)) [
      | inl e ↦ rw e
      | inr e ↦ rw (e, h)
    ]

-- Where the two limits are equal, every path counts as an authentication path: all requests of a
-- client share one bucket.
pub equal_limits_share :
    (l : Limiter) (r : Request)
    → l.general_limit ≡ l.auth_limit
    → bucket_key l r ≡ client_ip r ++ (codes ":" ++ codes "auth")
unfolding bucket_key
equal_limits_share l r h = rw (limit_for_path-eq l r.path h, ==_refl l.auth_limit)
