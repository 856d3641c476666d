-- ===== src/Lib.antt =====
-- RaceFrame finds the photos of a runner in a race event: by the bib number that was read in a photo, by
-- a face, or by both. Photographers upload photos to the backend, a recognition worker claims the jobs that
-- an upload makes and reports what it saw, and runners search. This library models the parts of the backend
-- that decide something, as functions on explicit states, and proves what makes them right.
--
-- The parts and how they interact:
--
-- Worker.antt, from backend/app/worker_api.py, backend/app/models.py, backend/app/face.py and
--   backend/app/db.py: the jobs that the worker claims, keeps alive and reports on. Worker/Session.antt is
--   the SQLAlchemy session, a row being what is flushed and what is in memory, so that a query of a session
--   without autoflush does not see pending changes. Worker/Job.antt has the rows, Worker/Attempt.antt
--   `_attempt_matches` and `_verify_active_attempt`, Worker/Parents.antt `_sync_terminal_parent_state`,
--   `_mark_parent_processing`, `mark_photo_ready_if_jobs_done` and
--   `mark_face_search_session_done_if_jobs_done`, Worker/Claim.antt `_reap_exhausted_jobs` and `_claim_job`,
--   Worker/Report.antt `_retry_delay`, `_fail_job`, `_heartbeat_job` and the handlers that call them. A claim
--   and a report are each one request in its own session; what one commits the next one finds.
--   Worker/CompletePhoto.antt has `complete_photo_job` with `complete_photo_ocr_job` and `complete_photo_face_job`,
--   Worker/CompleteFaces.antt the handlers of the other two kinds with `complete_participant_face_job` and
--   `complete_face_search_job`, Worker/Complete.antt what they share and Worker/CompleteRequest.antt the request.
-- Recognition.antt, from backend/app/face.py and backend/app/models.py: the rows that a completed job writes
--   (Recognition/Tables.antt), `create_face_matches` and `create_face_participant_matches_for_participant`
--   (Recognition/Faces.antt), and `apply_adaptive_reinforcement` (Recognition/Reinforcement.antt), which asks Search
--   for the results and Matching for the bib.
-- Matching.antt, from backend/app/face.py, backend/app/photographer.py and
--   backend/app/participant_lookup.py: what the texts of a photo say for a bib. Matching/Token.antt has the
--   normal forms, Matching/Candidates.antt `extract_match_candidates` of both files (the one of
--   photographer.py is called `rebuild_match_candidates` here), Matching/Substring.antt
--   `longest_common_substring_length` and `is_partial_bib_match`, Matching/Evidence.antt
--   `score_bib_evidence`, `exact_bib_match_values` and the decisions that combine a face score with it.
-- Limits.antt, from backend/app/web_security.py and backend/app/rate_limits.py: RequestBodyLimitMiddleware
--   (Limits/BodyLimit.antt; the application behind it is any tree of receives and responses,
--   Limits/Receive.antt), SlidingWindowLimiter, InFlightLimiter and `hit_persistent_limit`.
-- Archive.antt, from backend/app/photo_archive.py: the names in a download (Archive/Names.antt) and the ZIP
--   stream byte by byte (Archive/Zip.antt), with `struct.pack`, UTF-8 and CRC-32 in Archive/Bytes.antt.
-- Deletion.antt, from backend/app/maintenance.py and backend/app/storage.py: the outbox through which
--   objects leave the bucket. Deletion/Outbox.antt has the steps on one task, Deletion/Run.antt a
--   run of `process_object_deletions`, Deletion/Purge.antt `purge_expired_face_searches`.
-- Search.antt, from backend/app/face.py: the bounded heap of `create_face_search_results` (Search/Best.antt),
--   the merge of `upsert_final_photo_participant_match` (Search/Merge.antt), and the seeds of a search by
--   bib alone: `cluster_seed_faces` and `dedupe_seed_embeddings` (Search/Seeds.antt),
--   `select_consensus_seed_embeddings` and `select_bib_only_seed_embeddings` (Search/Consensus.antt), which
--   asks Matching for the photos with the bib. Search/Ocr.antt is `create_ocr_participant_matches`, which
--   leads from the candidates of Matching to the merge.
-- Uploads.antt, from backend/app/uploads.py: `read_upload_limited` (Uploads/Read.antt) and `validate_image_bytes`
--   (Uploads/Image.antt); what Pillow finds in the bytes is a parameter.
-- Security.antt, from backend/app/web_security.py and backend/app/config.py: `validate_production_configuration`
--   (Security/Configuration.antt), the search capability (Security/Capability.antt) with the Base64 that it
--   is written in (Security/Base64.antt), `require_browser_csrf` and what else is read of a request
--   (Security/Request.antt), and `BrowserSecurityMiddleware`: its admission (Security/Admission.antt), which asks
--   the limiters of Limits, and its responses (Security/Response.antt).
-- Client.antt, from raceframe-worker/worker.py: `BackendClient.post` (Client/Post.antt) and `download`
--   (Client/Download.antt), the processors of the three kinds of job, `_report_failure` and `handle_claimed_job`
--   (Client/Handle.antt), and `FairClaimPoller` (Client/Poller.antt). Client/Delivery.antt puts the post of a
--   completion and the handlers of Worker together, with a network between them that loses requests and replies.
-- Where a part has lemmas beside these files, a file is named for what it proves.
-- Prelude.antt and Http.antt are shared: Boolean tests, lists and quantifiers, and the result of a handler.
--
-- Conventions. A text is the list of its code points, an identifier is a number, a moment a whole number of
-- microseconds (nanoseconds on the monotonic clock), and a score is a number that orders as the float does.
-- Integers of Python do not overflow, so they are natural numbers where the code never goes below zero, and
-- where it can the condition is written without the subtraction. A method that runs under a lock and a
-- statement of the database are one step.
--
-- Fuel. The search for a free file name has one more step than there are names in use: its candidates differ,
-- so one of them is free, and the search is proved to end. The digits of a number have one more step than the number.
-- The attempts of a post and of a download, and the queues of a turn, are counted as the ranges of the source count them.
-- Every other loop follows a list or a tree.
--
-- Parameters. The case tables beyond ASCII, the keyed hash, `urlsplit`, `ipaddress`, the JSON of a capability, drawn identifiers and random factors, the
-- clock, the objects of the bucket and the failures of the storage, the application behind a middleware, and
-- what other processes do between the commits of an outbox run. What is computed in floats is a parameter
-- too: similarities and their text, normal forms, averages and qualities of embeddings.
--
-- Not modelled: routes that render templates, calls of boto3, Pillow and the recognition models, metrics and
-- logs, migrations, deployment. The boxes, detection scores and diagnostics of a report, which are stored and not
-- read again, are left out. The uploads of selfies and photos, the other purges and the administration are not
-- modelled, and of the recognition worker neither the main loop nor the threads of its heartbeats, nor how long it waits.
pub mod Prelude
pub mod Http
pub mod Worker
pub mod Matching
pub mod Limits
pub mod Archive
pub mod Deletion
pub mod Search
pub mod Uploads
pub mod Security
pub mod Recognition
pub mod Client
