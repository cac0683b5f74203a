-- ===== src/Tests/Caching.antt =====
-- A store with one place, and JSON on texts, for the theorems on the cache.
use rag_kb.Base.{
  ◌≡◌, ◌≢◌, refl, inl, inr, true, List, [], ◌∷◌, Option, none, some, arith, All, if◌then◌else◌,
  Bool-cases, ap, subst, is_empty,
}
use rag_kb.Base.Equality.{◌==◌, elem, list_eq, nat_eq, list_beq_iff, ==_refl}
use rag_kb.Base.Text.{Text, codes, starts_with}
use rag_kb.Cache.{
  Redis, IsRedis, Json, get, delete_by_prefix, build_key, invalidation_prefix, invalidation_misses,
}

abbrev pub Slot : Type 0
Slot = Option (Text × Text)

abbrev read_slot : Text → Slot → Option Text
read_slot key none = none
read_slot key (some (k, v)) = if k == key then some v else none

abbrev scan_slot : Text → Slot → List Text
scan_slot prefix none = []
scan_slot prefix (some (k, v)) = if starts_with prefix k then k ∷ [] else []

abbrev delete_slot : List Text → Slot → Slot
delete_slot keys none = none
delete_slot keys (some (k, v)) = if elem k keys then none else some (k, v)

abbrev pub one_place : Redis
one_place = record {
  State = Slot;
  read = λ key s. some (read_slot key s);
  write = λ key value ttl s. some (some (key, value));
  scan = λ prefix s. some (scan_slot prefix s);
  delete = λ keys s. some (delete_slot keys s);
}

elem-All : (P : Text → Type 0) (k : Text) (keys : List Text) → elem k keys ≡ true → All P keys → P k
elem-All P k [] h a = cc
elem-All P k (x ∷ keys) h a = elim (Bool-cases (x == k)) [
  | inl e ↦ subst P ((list_beq_iff x k).0 e) a.0
  | inr e ↦ elem-All P k keys (ground arith) a.1
]

read_written : (key value : Text) → read_slot key (some (key, value)) ≡ some value
read_written key value = rw (==_refl key)

scan_slot-All :
    (prefix : Text) (s : Slot) → All (λ key. starts_with prefix key ≡ true) (scan_slot prefix s)
scan_slot-All prefix none = tt
scan_slot-All prefix (some (k, v)) = elim (Bool-cases (starts_with prefix k)) [
  | inl e ↦ rw e (e, tt)
  | inr e ↦ rw e tt
]

read_slot-delete_slot :
    (key : Text) (keys : List Text) (s : Slot)
    → All (λ k. k ≢ key) keys
    → read_slot key (delete_slot keys s) ≡ read_slot key s
read_slot-delete_slot key keys none others = refl
read_slot-delete_slot key keys (some (k, v)) others = elim (Bool-cases (elem k keys)) [
  | inr e ↦ rw e
  | inl e ↦
      let ne = elem-All (λ x. x ≢ key) k keys e others in
      elim (Bool-cases (k == key)) [
        | inl f ↦ absurd (ne ((list_beq_iff k key).0 f))
        | inr f ↦ rw e (rw f)
      ]
]

pub one_place-IsRedis : IsRedis one_place
one_place-IsRedis = record {
  read-write = λ key value ttl s s' h.
      let e : some (key, value) ≡ s' = cc h in rw (← e) (ap some (read_written key value));
  scan_matches = λ prefix s keys h.
      let e : scan_slot prefix s ≡ keys = cc h in rw (← e) (scan_slot-All prefix s);
  read-delete = λ key keys s s' h others.
      let e : delete_slot keys s ≡ s' = cc h in
      rw (← e) (ap some (read_slot-delete_slot key keys s others));
}

abbrev texts : Json Text
texts = record { dumps = λ v. some v; loads = λ t. some t; loads-dumps = λ v t h. cc }

abbrev pub sha : Text → Text
sha t = if is_empty t then 1 ∷ [] else 2 ∷ []

abbrev cached : Slot
cached = some (build_key sha (codes "rag") (codes "kb") (codes "why"), codes "because")

invalidation_misses_example :
    get one_place texts true (build_key sha (codes "rag") (codes "kb") (codes "why")) (
      delete_by_prefix one_place texts true
        (invalidation_prefix sha (codes "rag") (codes "kb"))
        cached)
    ≡ get one_place texts true (build_key sha (codes "rag") (codes "kb") (codes "why")) cached
invalidation_misses_example =
    invalidation_misses one_place texts true sha (codes "rag") (codes "kb") (codes "why") cached
      one_place-IsRedis refl (ground arith)
