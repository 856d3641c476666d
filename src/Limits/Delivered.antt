-- ===== src/Limits/Delivered.antt =====
-- backend/app/web_security.py: what `RequestBodyLimitMiddleware` lets through.
use race_frame.Prelude.{
  ℕ, ◌+◌, ◌≤◌, ◌≡◌, refl, ap, inl, inr, false, List, [], ◌∷◌, Option, none, some, arith, ltb,
  ltb→lt, lt→ltb, ◌<◌, Bool-cases, length, codes,
}
use race_frame.Matching.Token.{Text}
use race_frame.Limits.Headers.{Scope, get_header}
use race_frame.Limits.Receive.{
  Message, http_request, http_disconnect, message, too_large, App, respond, raise_too_large,
  receive, Outcome, responded, body_too_large, waiting, total, limited_receive, run_app,
  run_limited,
}
use race_frame.Limits.BodyLimit.{
  LimitSettings, limit_for, refuse_declared, answer, limited_call, call,
}

-- Above the limit no body comes through any more.
run_limited-over :
    (limit consumed : ℕ) (app : App) (messages : List Message)
    → limit < consumed
    → total ((run_limited limit consumed app messages).1) ≡ 0
unfolding run_limited limited_receive
run_limited-over limit consumed (respond _) messages h = refl
run_limited-over limit consumed raise_too_large messages h = refl
run_limited-over limit consumed (receive next) [] h = refl
run_limited-over limit consumed (receive next) (http_disconnect ∷ messages) h =
    omega (arith, run_limited-over limit consumed (next (message http_disconnect)) messages h)
run_limited-over limit consumed (receive next) (http_request body ∷ messages) h =
    rw (lt→ltb limit (consumed + length body) (omega (arith, h)))
      (run_limited-over limit (consumed + length body) (next too_large) messages (omega (arith, h)))

run_limited-Within :
    (limit consumed : ℕ) (app : App) (messages : List Message)
    → consumed ≤ limit
    → consumed + total ((run_limited limit consumed app messages).1) ≤ limit
unfolding run_limited limited_receive
run_limited-Within limit consumed (respond _) messages h = omega (arith, h)
run_limited-Within limit consumed raise_too_large messages h = omega (arith, h)
run_limited-Within limit consumed (receive next) [] h = omega (arith, h)
run_limited-Within limit consumed (receive next) (http_disconnect ∷ messages) h =
    omega (arith, run_limited-Within limit consumed (next (message http_disconnect)) messages h)
run_limited-Within limit consumed (receive next) (http_request body ∷ messages) h =
    let consumed' = consumed + length body in
    elim (Bool-cases (ltb limit consumed')) [
      | inl e ↦ rw e (
          omega (
            arith,
            h,
            run_limited-over limit consumed' (next too_large) messages (ltb→lt limit consumed' e),
          ))
      | inr e ↦ rw e (
          let m = http_request body in
          let below : consumed' ≤ limit = ground arith in
          omega (arith, run_limited-Within limit consumed' (next (message m)) messages below))
    ]

run_limited-run_app :
    (limit consumed : ℕ) (app : App) (messages : List Message)
    → consumed + total messages ≤ limit
    → run_limited limit consumed app messages ≡ run_app app messages
unfolding run_limited run_app limited_receive
run_limited-run_app limit consumed (respond _) messages h = refl
run_limited-run_app limit consumed raise_too_large messages h = refl
run_limited-run_app limit consumed (receive next) [] h = refl
run_limited-run_app limit consumed (receive next) (http_disconnect ∷ messages) h =
    rw
      (run_limited-run_app limit consumed (next (message http_disconnect)) messages
        (omega (arith, h)))
      refl
run_limited-run_app limit consumed (receive next) (http_request body ∷ messages) h =
    let below : ltb limit (consumed + length body) ≡ false = ground arith in
    rw below rw
      (run_limited-run_app limit (consumed + length body) (next (message (http_request body)))
        messages (omega (arith, h)))
      refl

answer-delivered : (ran : Outcome × List Message) → (answer ran).1 ≡ ran.1
answer-delivered (body_too_large, _) = refl
answer-delivered (responded _, _) = refl
answer-delivered (waiting, _) = refl

limited_call-Within :
    (refused : Option ℕ) (limit : ℕ) (app : App) (messages : List Message)
    → total ((limited_call refused limit app messages).1) ≤ limit
unfolding limited_call
limited_call-Within (some _) limit app messages = omega arith
limited_call-Within none limit app messages =
    rw (answer-delivered (run_limited limit 0 app messages))
      (omega (arith, run_limited-Within limit 0 app messages (omega arith)))

module _ (wide : ℕ → Text) (settings : LimitSettings) (app : App) (scope : Scope)
    (messages : List Message) where
  -- The application behind the middleware is given at most as many bytes as the limit of the request,
  -- whatever it does, also after a receive that raised.
  pub call-Within :
      (limit : ℕ)
      → limit_for wide settings scope ≡ some limit
      → total ((call wide settings app scope messages).1) ≤ limit
  unfolding call
  call-Within limit limited =
      rw (limited, total)
        (limited_call-Within
          (refuse_declared limit (get_header (codes "content-length") scope.headers)) limit app
          messages)

  -- A request that keeps to its limit, and declares no more or nothing, is served as if the middleware were
  -- not there, where a _RequestBodyTooLarge that the application raises itself is a 413.
  pub call-Transparent :
      (limit : ℕ)
      → limit_for wide settings scope ≡ some limit
      → refuse_declared limit (get_header (codes "content-length") scope.headers) ≡ none
      → total messages ≤ limit
      → call wide settings app scope messages ≡ answer (run_app app messages)
  unfolding call limited_call
  call-Transparent limit limited declared small =
      rw (limited, call) rw (declared, limited_call)
        (ap answer (run_limited-run_app limit 0 app messages (omega (arith, small))))
