-- ===== src/RateLimit.antt =====
-- app/middleware/rate_limiting.py: requests per client and path class in a sliding window. Times are
-- ticks of the monotonic clock, and `window` is the number of ticks in `_WINDOW_SECONDS`.
pub mod Window
pub mod Dispatch
use rag_kb.Base.{
  ℕ, ◌+◌, Bool, true, false, not, List, [], ◌∷◌, ◌++◌, Option, none, some, length, ltb, leb,
  if◌then◌else◌, is_empty, anyb,
}
use rag_kb.Base.Text.{Text, codes, starts_with, strip}
use rag_kb.Base.Equality.{◌==◌, nat_eq, list_eq}
use rag_kb.Base.Dict
use rag_kb.Base.Dict.{Dict}

-- `_STRICT_PATH_PREFIXES`
abbrev pub strict_path_prefixes : List Text
strict_path_prefixes =
    codes "/api/v1/auth/login"
    ∷ codes "/api/v1/auth/register"
    ∷ codes "/api/v1/auth/forgot-password"
    ∷ codes "/api/v1/auth/resend-verification"
    ∷ []

-- The configuration of `RateLimitMiddleware`.
pub record Limiter : Type 0 where
  pub enabled : Bool
  pub general_limit : ℕ
  pub auth_limit : ℕ
  pub window : ℕ

-- `_request_times`, a `defaultdict(deque)`.
abbrev pub Times : Type 0
Times = Dict Text (List ℕ)

pub record Request : Type 0 where
  -- the `X-Forwarded-For` header, empty where there is none
  pub forwarded : Text
  pub client_host : Option Text
  pub path : Text

-- `while timestamps and timestamps[0] < cutoff: timestamps.popleft()`
unfoldable pub discard_old : ℕ → ℕ → List ℕ → List ℕ
discard_old window now [] = []
discard_old window now (t ∷ ts) = elim (ltb (t + window) now) [
  | true ↦ discard_old window now ts
  | false ↦ t ∷ ts
]

-- What `_is_over_limit` does with the deque of a bucket: its answer, and the deque that is left.
unfoldable pub admit : ℕ → ℕ → ℕ → List ℕ → Bool × List ℕ
unfolding discard_old
admit window limit now timestamps =
    let fresh = discard_old window now timestamps in
    if leb limit (length fresh) then (true, fresh) else (false, fresh ++ now ∷ [])

-- `_is_over_limit`
unfoldable pub is_over_limit : Limiter → ℕ → Text → ℕ → Times → Bool × Times
unfolding admit Dict.get_or Dict.insert
is_over_limit l now bucket_key limit times =
    let (over, left) = admit l.window limit now (Dict.get_or bucket_key [] times) in
    (over, Dict.insert bucket_key left times)

-- `_limit_for_path`
unfoldable pub limit_for_path : Limiter → Text → ℕ
unfolding starts_with
limit_for_path l path =
    if anyb (λ prefix. starts_with prefix path) strict_path_prefixes
    then l.auth_limit
    else l.general_limit

-- `forwarded.split(",")[0]`
unfoldable pub before_comma : Text → Text
before_comma [] = []
before_comma (c ∷ cs) = elim (c == b',') [ true ↦ [] | false ↦ c ∷ before_comma cs ]

-- `_client_ip`
unfoldable pub client_ip : Request → Text
unfolding before_comma strip
client_ip r =
    if not (is_empty r.forwarded)
    then strip (before_comma r.forwarded)
    else elim r.client_host [ none ↦ codes "unknown" | some host ↦ host ]

-- `bucket_key`
unfoldable pub bucket_key : Limiter → Request → Text
unfolding client_ip limit_for_path
bucket_key l r =
    client_ip r
    ++ (codes ":"
        ++ (if limit_for_path l r.path == l.auth_limit then codes "auth" else codes "general"))

-- The two outcomes of `dispatch`: the answer 429, or what the application answers.
pub data Outcome : Type 0 where
  rejected passed : Outcome

-- `dispatch`
unfoldable pub dispatch : Limiter → ℕ → Request → Times → Outcome × Times
unfolding bucket_key is_over_limit limit_for_path
dispatch l now r times =
    if not l.enabled
    then (passed, times)
    else let (over, times') =
        is_over_limit l now (bucket_key l r) (limit_for_path l r.path) times in
      (if over then rejected else passed, times')
