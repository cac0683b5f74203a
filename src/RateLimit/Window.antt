-- ===== src/RateLimit/Window.antt =====
-- The sliding window of one bucket: no window admits more than the limit, and a request is refused
-- only where the limit is used up.
use rag_kb.Base.{
  ℕ, ◌+◌, ◌<◌, ◌≤◌, ◌≡◌, refl, sym, inl, inr, true, false, ◌&&◌, List, [], ◌∷◌, ◌++◌, length, ltb,
  leb, if◌then◌else◌, arith, Bool-cases, All, All-of, sum_of, sum_of-append, length-append, filterb,
}
use rag_kb.RateLimit.{discard_old, admit}

-- The times at which a bucket admits a request, of a list of requests in order.
unfoldable pub admitted : ℕ → ℕ → List ℕ → List ℕ → List ℕ
unfolding admit
admitted window limit timestamps [] = []
admitted window limit timestamps (now ∷ later) =
    let (over, left) = admit window limit now timestamps in
    let rest = admitted window limit left later in if over then rest else now ∷ rest

-- How many times lie in the window that begins at `start`.
abbrev pub within : ℕ → ℕ → ℕ → ℕ
within window start t = if leb start t && leb t (start + window) then 1 else 0

abbrev pub count_within : ℕ → ℕ → List ℕ → ℕ
count_within window start = sum_of (within window start)

-- Times in the order of the clock.
abbrev pub IsOrdered : List ℕ → Type 0
IsOrdered [] = Unit
IsOrdered (t ∷ ts) = All (λ u. t ≤ u) ts × IsOrdered ts

module _ (window limit start : ℕ) where
  count_within-le-length : (ts : List ℕ) → count_within window start ts ≤ length ts
  count_within-le-length [] = omega arith
  count_within-le-length (t ∷ ts) = ground (arith, count_within-le-length ts)

  -- Discarding changes no count of a window that the present time lies in.
  count_within-discard_old :
      (now : ℕ) (ts : List ℕ)
      → now ≤ start + window
      → count_within window start (discard_old window now ts) ≡ count_within window start ts
  unfolding discard_old
  count_within-discard_old now [] h = refl
  count_within-discard_old now (t ∷ ts) h = elim (Bool-cases (ltb (t + window) now)) [
    | inl e ↦ rw (e, discard_old) (ground (arith, count_within-discard_old now ts h))
    | inr e ↦ rw (e, discard_old)
  ]

  length-discard_old : (now : ℕ) (ts : List ℕ) → length (discard_old window now ts) ≤ length ts
  unfolding discard_old
  length-discard_old now [] = omega arith
  length-discard_old now (t ∷ ts) = elim (Bool-cases (ltb (t + window) now)) [
    | inl e ↦ rw (e, discard_old) (omega (arith, length-discard_old now ts))
    | inr e ↦ rw (e, discard_old) (omega arith)
  ]

  -- Requests after the window add nothing to it.
  count_within-admitted_late :
      (ts times : List ℕ)
      → All (λ u. start + window < u) times
      → count_within window start (admitted window limit ts times) ≡ 0
  unfolding admitted admit
  count_within-admitted_late ts [] h = refl
  count_within-admitted_late ts (now ∷ later) h =
      let fresh = discard_old window now ts in
      elim (Bool-cases (leb limit (length fresh))) [
        | inl e ↦ rw (e, admitted) (count_within-admitted_late fresh later h.1)
        | inr e ↦
            rw (e, admitted)
              (let ih = count_within-admitted_late (fresh ++ now ∷ []) later h.1 in
                ground (arith, ih, h.0))
      ]

  add_none : (a x : ℕ) → x ≡ 0 → a ≤ limit → a + x ≤ limit
  add_none a x e h = omega arith

  count_within-admitted :
      (ts times : List ℕ)
      → length ts ≤ limit
      → IsOrdered times
      → count_within window start ts + count_within window start (admitted window limit ts times)
        ≤ limit
  unfolding admitted admit
  count_within-admitted ts [] h o = omega (arith, count_within-le-length ts)
  count_within-admitted ts (now ∷ later) h o =
      let fresh = discard_old window now ts in
      elim (Bool-cases (ltb (start + window) now)) [
        | inl late ↦
            let none_later =
              count_within-admitted_late ts (now ∷ later)
                (ground arith, All-of _ (λ u le. ground arith) later o.0) in
            add_none _ _ none_later (omega (arith, count_within-le-length ts))
        | inr early ↦
            let same = count_within-discard_old now ts (ground arith) in
            let shorter = length-discard_old now ts in
            elim (Bool-cases (leb limit (length fresh))) [
              | inl e ↦
                  rw (e, admitted)
                    (omega (arith, same, count_within-admitted fresh later (omega arith) o.1))
              | inr e ↦
                  let fits : length (fresh ++ now ∷ []) ≤ limit =
                    ground (arith, length-append fresh (now ∷ [])) in
                  rw (e, admitted)
                    (omega (
                      arith,
                      same,
                      sum_of-append (within window start) fresh (now ∷ []),
                      count_within-admitted (fresh ++ now ∷ []) later fits o.1,
                    ))
            ]
      ]

-- The times of a deque that the window of a request at `now` still holds.
abbrev pub recent : ℕ → ℕ → List ℕ → List ℕ
recent window now = filterb (λ t. leb now (t + window))

recent-All :
    (window now : ℕ) (ts : List ℕ) → All (λ t. now ≤ t + window) ts → recent window now ts ≡ ts
recent-All window now [] h = refl
recent-All window now (t ∷ ts) h = ground (arith, recent-All window now ts h.1, h.0)

discard_old-recent :
    (window now : ℕ) (ts : List ℕ) → IsOrdered ts → discard_old window now ts ≡ recent window now ts
unfolding discard_old
discard_old-recent window now [] h = refl
discard_old-recent window now (t ∷ ts) h = elim (Bool-cases (ltb (t + window) now)) [
  | inl e ↦ rw (e, discard_old) (ground (arith, discard_old-recent window now ts h.1))
  | inr e ↦
      rw (e, discard_old)
        (sym
          (recent-All window now (t ∷ ts) (ground arith, All-of _ (λ u le. ground arith) ts h.0)))
]

-- A request is refused exactly if the limit is used up by the requests that were admitted at most
-- one window ago; the deque then keeps just these, and else the new time behind them.
pub admit-exact :
    (window limit now : ℕ) (timestamps : List ℕ)
    → IsOrdered timestamps
    → admit window limit now timestamps ≡ (
        let kept = recent window now timestamps in
        if leb limit (length kept) then (true, kept) else (false, kept ++ now ∷ []))
unfolding admit
admit-exact window limit now timestamps h = rw (discard_old-recent window now timestamps h)

-- Whatever the times of the requests, in the order of the clock, no window admits more than the
-- limit: together with those of the deque that it begins with, at most `limit` of the admitted times
-- lie between `start` and `start + window`.
pub window_limit :
    (window limit start : ℕ) (timestamps times : List ℕ)
    → length timestamps ≤ limit
    → IsOrdered times
    → count_within window start timestamps
        + count_within window start (admitted window limit timestamps times)
      ≤ limit
window_limit window limit start timestamps times =
    count_within-admitted window limit start timestamps times
