-- ===== src/Dashboard/Upstream.antt =====
-- What dashboard/aggregator.py makes of an agent's HTTP answer: `_get`, `_post` and `webext_run`.
use agent_bakery.Prelude.{ℕ, String, Option, none, some, [], ◌∷◌, leb, ◌==◌, if◌then◌else◌}
use agent_bakery.Prelude.Text.{f_string, show}

-- What the HTTP client returns or raises: a `TimeoutException`, another `HTTPError` by the name of its
-- type, or a response with its status and its JSON, `none` where that does not parse.
pub data Http (B : Type 0) : Type 0 where
  timeout : Http B
  http_error : String → Http B
  response : ℕ → Option B → Http B

-- A payload, or `Unavailable` with its reason.
pub data Answer (B : Type 0) : Type 0 where
  payload : B → Answer B
  unavailable : String → Answer B

abbrev connect_reason : String → String
connect_reason name = f_string ("connect: " ∷ name ∷ [])

abbrev http_reason : ℕ → String
http_reason status = f_string ("http " ∷ show status ∷ [])

unfoldable pub get : {B : Type 0} → Http B → Answer B
get timeout = unavailable "timeout"
get (http_error name) = unavailable (connect_reason name)
get (response status body) =
    if leb 400 status
    then unavailable (http_reason status)
    else elim body [ some b ↦ payload b | none ↦ unavailable "bad json" ]

-- `posted` is the answer `{"ok": True}`.
unfoldable pub post : {B : Type 0} → B → Http B → Answer B
post posted timeout = unavailable "timeout"
post posted (http_error name) = unavailable (connect_reason name)
post posted (response status body) =
    if leb 400 status
    then unavailable (http_reason status)
    else elim body [ some b ↦ payload b | none ↦ payload posted ]

-- `none` is the marker `AlreadyRunning`.
unfoldable pub webext_run : {B : Type 0} → Http B → Option (Answer B)
webext_run timeout = some (unavailable "timeout")
webext_run (http_error name) = some (unavailable (connect_reason name))
webext_run (response status body) =
    if status == 409
    then none
    else if leb 400 status
    then some (unavailable (http_reason status))
    else elim body [ some b ↦ some (payload b) | none ↦ some (unavailable "bad json") ]
