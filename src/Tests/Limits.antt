-- ===== src/Tests/Limits.antt =====
-- Requests under the rate limit.
use rag_kb.Base.{ℕ, ◌+◌, ◌≤◌, ◌≡◌, refl, true, List, [], ◌∷◌, some, arith}
use rag_kb.Base.Text.{Text, codes}
use rag_kb.Base.Dict
use rag_kb.RateLimit.{Limiter, Request, bucket_key, limit_for_path}
use rag_kb.RateLimit.Window.{count_within}
use rag_kb.RateLimit.Dispatch.{passed_in, bucket, dispatch_limit}

abbrev limiter : Limiter
limiter = record { enabled = true; general_limit = 60; auth_limit = 2; window = 60 }

abbrev login_request : Request
login_request = record {
  forwarded = [];
  client_host = some (codes "10.0.0.1");
  path = codes "/api/v1/auth/login";
}

abbrev key : Text
key = codes "10.0.0.1:auth"

abbrev three_logins : List (ℕ × Request)
three_logins = (5, login_request) ∷ (6, login_request) ∷ (7, login_request) ∷ []

same_limit : bucket_key limiter login_request ≡ key → limit_for_path limiter login_request.path ≡ 2
unfolding limit_for_path
same_limit e = refl

dispatch_limit_example :
    count_within 60 0 (bucket key []) + count_within 60 0 (passed_in limiter key three_logins [])
    ≤ 2
dispatch_limit_example =
    dispatch_limit limiter key 2 0 three_logins [] refl (unfold Dict.get_or in omega arith)
      (unfold bucket_key in ((omega arith, (omega arith, tt)), ((omega arith, tt), (tt, tt))))
      (same_limit, (same_limit, (same_limit, tt)))
