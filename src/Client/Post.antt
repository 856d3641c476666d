-- ===== src/Client/Post.antt =====
-- raceframe-worker/worker.py: `BackendClient.post`. What the backend does with a request is a step on a state;
-- the waits between two attempts are left out.
use race_frame.Prelude.{
  ℕ, zero, suc, ◌+◌, Bool, ◌&&◌, ◌||◌, Option, none, some, ltb, leb, ◌==◌, if◌then◌else◌, codes,
  ◌++◌,
}
use race_frame.Archive.Decimal.{str}
use race_frame.Client.Failure.{
  worker_config, permanent_job, control_plane, lease_lost, Outcome, returned, raised,
}

pub data Body (B : Type 0) : Type 0 where
  not_json : Body B
  not_object : Body B
  object : B → Body B

-- `no_response` is a RequestException.
pub data Reply (B : Type 0) : Type 0 where
  no_response : Reply B
  response : ℕ → Body B → Reply B

abbrev pub read_body : {B : Type 0} → Body B → Outcome B
read_body not_json = raised control_plane (codes "Backend returned a non-JSON response.")
read_body not_object = raised control_plane (codes "Backend returned an invalid response shape.")
read_body (object body) = returned body

abbrev pub is_success : ℕ → Bool
is_success status = leb 200 status && ltb status 300

-- What a reply ends in; `none` is another attempt, which the last one does not get.
unfoldable pub judge_reply : {B : Type 0} → Bool → Reply B → Option (Outcome B)
unfolding str
judge_reply is_last no_response =
    if is_last
    then some (raised control_plane (codes "Backend request failed after bounded retries."))
    else none
judge_reply is_last (response status body) =
    let transient =
      raised control_plane
        (codes "Backend returned transient HTTP " ++ (str status ++ codes ".")) in
    let refused =
      raised permanent_job
        (codes "Backend rejected the worker result with HTTP " ++ (str status ++ codes ".")) in
    if is_success status
    then some (read_body body)
    else if status == 409
    then some (raised lease_lost (codes "Backend rejected a stale or expired worker attempt."))
    else if status == 401 || status == 403
    then some (raised worker_config (codes "Backend rejected WORKER_API_TOKEN."))
    else if status == 404
    then some (raised lease_lost (codes "The claimed job no longer exists."))
    else if status == 429 || leb 500 status
    then (if is_last then some transient else none)
    else some refused

module _ {S B : Type 0} (exchange : ℕ → S → S × Reply B) where
  abbrev pub ended_or : S → Option (Outcome B) → S × Outcome B → S × Outcome B
  ended_or s none rest = rest
  ended_or s (some outcome) rest = (s, outcome)

  unfoldable pub post_loop : (attempts attempt left : ℕ) → S → S × Outcome B
  unfolding judge_reply
  post_loop attempts attempt zero s =
      (s, raised control_plane (codes "Backend request exhausted its retry budget."))
  post_loop attempts attempt (suc left) s =
      let (after, reply) = exchange attempt s in
      let rest = post_loop attempts (attempt + 1) left after in
      ended_or after (judge_reply (leb attempts (attempt + 1)) reply) rest

  unfoldable pub post : (worker_http_retries : ℕ) (retry_safe : Bool) → S → S × Outcome B
  unfolding post_loop
  post worker_http_retries retry_safe s =
      let attempts = if retry_safe then worker_http_retries else 1 in
      post_loop attempts 0 attempts s
