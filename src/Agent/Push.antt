-- ===== src/Agent/Push.antt =====
-- internal/agent/push.go: how an answer of the hub is read. Building the request and the
-- transport are net/http's.
use whatsupp.Base.{ℕ, Bool, true, false, ◌&&◌, Option, some, none, ltb, leb, ◌==◌, if◌then◌else◌}

pub data SendResult : Type 0 where
  sent retriable unauthorized unexpected_status : SendResult

-- Send: `none` stands for a failed round trip.
unfoldable pub classify : Option ℕ → SendResult
classify none = retriable
classify (some code) =
    if leb 200 code && ltb code 300
    then sent
    else if code == 401
    then unauthorized
    else if leb 500 code
    then retriable
    else unexpected_status

unfoldable pub is_retriable : SendResult → Bool
is_retriable retriable = true
is_retriable _ = false
