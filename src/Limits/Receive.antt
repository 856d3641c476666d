-- ===== src/Limits/Receive.antt =====
-- backend/app/web_security.py: `limited_receive`. The application behind the middleware is what it
-- does next: it ends, with a response or with the exception, or it asks for a message.
use race_frame.Prelude.{ℕ, ◌+◌, List, [], ◌∷◌, ltb, if◌then◌else◌, length}
use race_frame.Matching.Token.{Text}

pub data Message : Type 0 where
  http_request : Text → Message
  http_disconnect : Message

-- What `await receive()` comes back with: a message, or _RequestBodyTooLarge.
pub data Received : Type 0 where
  message : Message → Received
  too_large : Received

pub data App : Type 0 where
  respond : ℕ → App
  raise_too_large : App
  receive : (Received → App) → App

-- `waiting`: the client sends nothing more.
pub data Outcome : Type 0 where
  responded : ℕ → Outcome
  body_too_large : Outcome
  waiting : Outcome

abbrev pub body_length : Message → ℕ
body_length (http_request body) = length body
body_length http_disconnect = 0

-- The bytes of the bodies.
abbrev pub total : List Message → ℕ
total [] = 0
total (m ∷ messages) = body_length m + total messages

-- `consumed` after the message, and what the application gets.
unfoldable pub limited_receive : ℕ → ℕ → Message → ℕ × Received
limited_receive limit consumed http_disconnect = (consumed, message http_disconnect)
limited_receive limit consumed (http_request body) =
    let consumed' = consumed + length body in
    (consumed', if ltb limit consumed' then too_large else message (http_request body))

abbrev pub deliver : Received → List Message → List Message
deliver (message m) delivered = m ∷ delivered
deliver too_large delivered = delivered

-- The application on the messages of the client: how it ends, and the messages it was given.
unfoldable pub run_app : App → List Message → Outcome × List Message
run_app (respond status_code) messages = (responded status_code, [])
run_app raise_too_large messages = (body_too_large, [])
run_app (receive next) [] = (waiting, [])
run_app (receive next) (m ∷ messages) =
    let (outcome, delivered) = run_app (next (message m)) messages in (outcome, m ∷ delivered)

-- `self.app(scope, limited_receive, send)`
unfoldable pub run_limited : ℕ → ℕ → App → List Message → Outcome × List Message
unfolding limited_receive
run_limited limit consumed (respond status_code) messages = (responded status_code, [])
run_limited limit consumed raise_too_large messages = (body_too_large, [])
run_limited limit consumed (receive next) [] = (waiting, [])
run_limited limit consumed (receive next) (m ∷ messages) =
    let (consumed', received) = limited_receive limit consumed m in
    let (outcome, delivered) = run_limited limit consumed' (next received) messages in
    (outcome, deliver received delivered)
