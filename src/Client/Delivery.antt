-- ===== src/Client/Delivery.antt =====
-- raceframe-worker/worker.py against backend/app/worker_api.py: a completion that `BackendClient.post` sends over a
-- network that loses requests and replies.
use race_frame.Prelude.{
  ℕ, zero, suc, ◌+◌, ◌≡◌, refl, sym, ap, subst, ◌⊎◌, inl, inr, Bool, true, false, Option, none,
  some, leb, arith,
}
use race_frame.Http.{Result, ok, raise}
use race_frame.Recognition.Tables.{Tables}
use race_frame.Worker.Job.{Db}
use race_frame.Worker.Session.{open_session, session_local_autoflush}
use race_frame.Worker.Attempt.{Current}
use race_frame.Worker.Complete.{CompletionOutside, Work}
use race_frame.Worker.CompleteRequest.{
  CompletionReport, complete_handler, respond_work, complete_request,
}
use race_frame.Worker.Completion.{complete_handler-idempotent}
use race_frame.Client.Failure.{Outcome, returned}
use race_frame.Client.Post.{
  object, Reply, no_response, response, judge_reply, ended_or, post_loop, post,
}

-- What the network does with an attempt: the request is lost, or the reply is, or neither.
pub data Delivery : Type 0 where
  lost_request : Delivery
  lost_reply : Delivery
  delivered : Delivery

-- The body of a reply is what the handler has answered; FastAPI sends 200 with a value.
abbrev pub reply_of : Result Current → Reply (Result Current)
reply_of (ok current) = response 200 (object (ok current))
reply_of (raise failure) = response failure.status_code (object (raise failure))

judge_reply-value :
    (is_last : Bool) (r : Result Current) {answer : Current}
    → judge_reply is_last (reply_of r) ≡ some (returned (ok answer))
    → r ≡ ok answer
unfolding judge_reply
judge_reply-value is_last (ok current) e = cc
judge_reply-value is_last (raise failure) e = ground arith

no_response-value :
    {A : Type 0} (is_last : Bool) {answer : Result Current}
    → judge_reply is_last no_response ≡ some (returned answer)
    → A
unfolding judge_reply
no_response-value true e = cc
no_response-value false e = cc

module _ {E : Type 0} (outside : ℕ → CompletionOutside E) (report : CompletionReport E)
    (job_id : ℕ) where
  -- The request of an attempt, which the backend works on with its clock of that time.
  abbrev pub attempted : ℕ → Db × Tables E → (Db × Tables E) × Result Current
  attempted attempt s =
      complete_request session_local_autoflush (complete_handler (outside attempt) report job_id) s

  abbrev exchange_by : Delivery → ℕ → Db × Tables E → (Db × Tables E) × Reply (Result Current)
  exchange_by lost_request attempt s = (s, no_response)
  exchange_by lost_reply attempt s = ((attempted attempt s).0, no_response)
  exchange_by delivered attempt s = ((attempted attempt s).0, reply_of (attempted attempt s).1)

  module _ (plan : ℕ → Delivery) where
    abbrev pub exchange : ℕ → Db × Tables E → (Db × Tables E) × Reply (Result Current)
    exchange attempt s = exchange_by (plan attempt) attempt s

    module _ (initial : Db × Tables E) where
      -- One of the attempts has completed the job, on the state that all of them found.
      pub record Once (after : Db × Tables E) : Type 0 where
        pub attempt : ℕ
        pub answer : Current
        pub answered : (attempted attempt initial).1 ≡ ok answer
        pub applied : after ≡ (attempted attempt initial).0

      abbrev AtMostOnce : Db × Tables E → Type 0
      AtMostOnce after = (after ≡ initial) ⊎ Once after

      request_cases :
          (attempt : ℕ)
          → ((attempted attempt initial).0 ≡ initial)
            ⊎ ((answer : Current) × ((attempted attempt initial).1 ≡ ok answer))
      request_cases attempt = go (
          complete_handler (outside attempt) report job_id (record {
            session = open_session session_local_autoflush initial.0;
            tables = initial.1;
          }))
        where
          go :
              (r : Result (Work E × Current))
              → ((respond_work initial r).0 ≡ initial)
                ⊎ ((answer : Current) × ((respond_work initial r).1 ≡ ok answer))
          go (ok (work, current)) = inr (current, refl)
          go (raise failure) = inl refl

      again :
          (attempt : ℕ) (s : Db × Tables E) (o : Once s) → attempted attempt s ≡ (s, ok o.answer)
      again attempt s o =
          subst (λ t. attempted attempt t ≡ (t, ok o.answer)) (sym o.applied)
            (complete_handler-idempotent (outside o.attempt) (outside attempt) job_id
              session_local_autoflush initial.0 initial.1 report o.answered)

      attempted-AtMostOnce :
          (attempt : ℕ) (s : Db × Tables E) → AtMostOnce s → AtMostOnce (attempted attempt s).0
      attempted-AtMostOnce attempt s (inl fresh) =
          subst (λ t. AtMostOnce (attempted attempt t).0) (sym fresh)
            (elim (request_cases attempt) [
              | inl same ↦ inl same
              | inr (answer, answered) ↦ inr (record {
                attempt = attempt;
                answer = answer;
                answered = answered;
                applied = refl;
              })
            ])
      attempted-AtMostOnce attempt s (inr o) = inr (
          subst Once (ap (λ (r : (Db × Tables E) × Result Current). r.0) (sym (again attempt s o)))
            o)

      attempted-Once :
          (attempt : ℕ) (s : Db × Tables E) {answer : Current}
          → AtMostOnce s
          → (attempted attempt s).1 ≡ ok answer
          → Once (attempted attempt s).0
      attempted-Once attempt s {answer} (inl fresh) h =
          subst (λ t. (attempted attempt t).1 ≡ ok answer → Once (attempted attempt t).0)
            (sym fresh)
            (λ answered. record {
              attempt = attempt;
              answer = answer;
              answered = answered;
              applied = refl;
            })
            h
      attempted-Once attempt s (inr o) h =
          subst Once (ap (λ (r : (Db × Tables E) × Result Current). r.0) (sym (again attempt s o)))
            o

      -- An attempt keeps what holds, and a body with a value is of an attempt that has completed the job.
      exchange_by-Kept :
          (delivery : Delivery) (is_last : Bool) (attempt : ℕ) (s : Db × Tables E)
          → AtMostOnce s
          → let (after, reply) = exchange_by delivery attempt s in
            AtMostOnce after
            × ((answer : Current)
                → judge_reply is_last reply ≡ some (returned (ok answer))
                → Once after)
      exchange_by-Kept lost_request is_last attempt s p =
          (p, λ answer e. no_response-value is_last e)
      exchange_by-Kept lost_reply is_last attempt s p =
          (attempted-AtMostOnce attempt s p, λ answer e. no_response-value is_last e)
      exchange_by-Kept delivered is_last attempt s p = (
        attempted-AtMostOnce attempt s p,
        λ answer e. attempted-Once attempt s p (judge_reply-value is_last _ e),
      )

      abbrev Kept : (Db × Tables E) × Outcome (Result Current) → Type 0
      Kept (after, outcome) =
          AtMostOnce after × ((answer : Current) → outcome ≡ returned (ok answer) → Once after)

      ended_or-Kept :
          (after : Db × Tables E) (judged : Option (Outcome (Result Current)))
          (rest : (Db × Tables E) × Outcome (Result Current))
          → AtMostOnce after
          → ((answer : Current) → judged ≡ some (returned (ok answer)) → Once after)
          → Kept rest
          → Kept (ended_or exchange after judged rest)
      ended_or-Kept after none rest p value kept = kept
      ended_or-Kept after (some outcome) rest p value kept =
          (p, λ answer e. value answer (ap some e))

      post_loop-Kept :
          (attempts attempt left : ℕ) (s : Db × Tables E)
          → AtMostOnce s
          → Kept (post_loop exchange attempts attempt left s)
      unfolding post_loop
      post_loop-Kept attempts attempt zero s p = (p, λ answer e. cc)
      post_loop-Kept attempts attempt (suc left) s p =
          let (kept, value) =
            exchange_by-Kept (plan attempt) (leb attempts (attempt + 1)) attempt s p in
          let (after, reply) = exchange attempt s in
          ended_or-Kept after (judge_reply (leb attempts (attempt + 1)) reply)
            (post_loop exchange attempts (attempt + 1) left after) kept value
            (post_loop-Kept attempts (attempt + 1) left after kept)

      -- Whatever requests and replies are lost, and with no other request between them, the attempts of a completion
      -- leave the rows and the tables as they were, or as one of them alone, answered with a value, leaves them; and
      -- if the worker gets a value back, it is the latter.
      pub post-AtMostOnce :
          (worker_http_retries : ℕ)
          → let (after, outcome) = post exchange worker_http_retries true initial in
            ((after ≡ initial) ⊎ Once after)
            × ((answer : Current) → outcome ≡ returned (ok answer) → Once after)
      unfolding post
      post-AtMostOnce worker_http_retries =
          post_loop-Kept worker_http_retries 0 worker_http_retries initial (inl refl)
