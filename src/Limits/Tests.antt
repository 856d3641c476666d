-- ===== src/Limits/Tests.antt =====
-- Runs of the limiters as in backend/tests.
use race_frame.Prelude.{ℕ, ◌*◌, ◌≤◌, ◌≡◌, refl, [], ◌∷◌, some, length, take, arith, codes}
use race_frame.Matching.Token.{Text, upper}
use race_frame.Limits.Headers.{Scope, get_header, parse_int}
use race_frame.Limits.Receive.{
  http_request, message, too_large, App, respond, receive, responded, total, limited_receive,
  run_app, run_limited,
}
use race_frame.Limits.BodyLimit.{
  LimitSettings, limit_for, refuse_declared, answer, limited_call, call,
}
use race_frame.Limits.Delivered.{call-Within, call-Transparent}
use race_frame.Limits.InFlight.{Counts, Serving, idle, admitted, get, set, pop, enter, leave}
use race_frame.Limits.FixedWindow.{
  Hit, result, second, upsert, count_of, retry_after, judge, hit_persistent_limit,
}
use race_frame.Limits.Counted.{admitted_units, admitted_units-Bounded}
use race_frame.Limits.SlidingWindow.{
  Entry, timestamps_of, pop_expired, without, put_last, drop_first, hit,
}
use race_frame.Limits.Recent.{Watched, fresh, own, within_window, Watched-Bounded}

abbrev ascii : ℕ → Text
ascii c = []

abbrev settings : LimitSettings
settings = record {
  max_photo_upload_bytes = 20;
  max_photo_batch_files = 2;
  max_photo_request_bytes = 1000;
  max_selfie_upload_bytes = 10;
  max_selfie_batch_files = 3;
  max_participant_upload_bytes = 7;
  max_event_thumbnail_upload_bytes = 5;
  max_form_request_bytes = 4;
}

abbrev form : Scope
form = record {
  scope_type = codes "http";
  method = codes "post";
  path = codes "/admin/login";
  headers = (codes "Content-Length", codes " 4\n") ∷ [];
}

-- An application that reads on after a refusal.
abbrev reader : App
reader =
    receive
      (λ first. receive (λ next. elim next [ message m ↦ respond 200 | too_large ↦ respond 400 ]))

program : Unit {0}
unfolding upper limit_for get_header parse_int refuse_declared limited_receive run_app run_limited
    limited_call call get set pop enter leave upsert count_of retry_after judge hit_persistent_limit
    admitted_units take timestamps_of pop_expired without put_last drop_first hit
program = tt

declared_too_much : refuse_declared 4 (some (codes "5")) ≡ some 413
unfolding program
declared_too_much = refl

declared_nonsense : refuse_declared 4 (some (codes "1__0")) ≡ some 400
unfolding program
declared_nonsense = refl

declared_less_than_nothing : refuse_declared 4 (some (codes "-1")) ≡ some 400
unfolding program
declared_less_than_nothing = refl

cut_off :
    (call ascii settings reader form
      (http_request (codes "abc") ∷ http_request (codes "de") ∷ [])).0
    ≡ responded 400
unfolding program
cut_off = refl

call-Within_example :
    total (
      (call ascii settings reader form
        (http_request (codes "abc") ∷ http_request (codes "de") ∷ [])).1)
    ≤ 4
unfolding program
call-Within_example =
    call-Within ascii settings reader form
      (http_request (codes "abc") ∷ http_request (codes "de") ∷ []) 4 refl

call-Transparent_example :
    call ascii settings reader form (http_request (codes "abc") ∷ http_request (codes "d") ∷ [])
    ≡ answer (run_app reader (http_request (codes "abc") ∷ http_request (codes "d") ∷ []))
unfolding program
call-Transparent_example =
    call-Transparent ascii settings reader form
      (http_request (codes "abc") ∷ http_request (codes "d") ∷ []) 4 refl refl (omega arith)

abbrev entered : Counts
entered = (codes "photo-upload", 1) ∷ []

one_upload : Serving (codes "photo-upload") 4 entered 1
unfolding program
one_upload = admitted idle refl

abbrev search_hit : ℕ → Hit
search_hit now = record {
  hit_bucket = codes "search";
  key = codes "a";
  limit = 1;
  window_seconds = 60;
  units = 1;
  now = now;
}

second_refused :
    (hit_persistent_limit
      (λ key. key)
      (search_hit (119 * second))
      ((hit_persistent_limit (λ key. key) (search_hit (61 * second)) []).1)).0
    ≡ result (some 2)
unfolding program
second_refused = refl

admitted_units-Bounded_example :
    admitted_units
      (λ key. key)
      (codes "search")
      (codes "a")
      60
      (search_hit (61 * second) ∷ search_hit (119 * second) ∷ [])
      []
    ≤ 1
unfolding program
admitted_units-Bounded_example =
    admitted_units-Bounded (λ key. key) (codes "search") (codes "a") 60 1
      (search_hit (61 * second) ∷ search_hit (119 * second) ∷ []) []
      ((λ _. omega arith), ((λ _. omega arith), tt))

abbrev visitor : Entry
visitor = record { entry_bucket = codes "visitor"; entry_key = codes "a"; timestamps = 7 ∷ 8 ∷ [] }

two_searches : Watched 2 (codes "visitor") (codes "a") 5 60 (visitor ∷ []) (7 ∷ 8 ∷ []) 8
unfolding program
two_searches = own 8 (own 7 fresh (omega arith) (omega arith)) (omega arith) (omega arith)

Watched-Bounded_example :
    length (within_window 2 (codes "visitor") (codes "a") 5 60 10 (7 ∷ 8 ∷ [])) ≤ 5
Watched-Bounded_example =
    Watched-Bounded 2 (codes "visitor") (codes "a") 5 60 10 two_searches (omega arith)
