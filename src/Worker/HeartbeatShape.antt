-- ===== src/Worker/HeartbeatShape.antt =====
-- backend/app/worker_api.py: a renewal of a lease keeps the shape of the rows.
use race_frame.Prelude.{ℕ, ◌≡◌, subst, sym, refl, ap, Bool, false, All, ◌∙◌}
use race_frame.Http.{ok, >>=-eq-ok, ok-injective}
use race_frame.Worker.Job.{Job, Model, Db}
use race_frame.Worker.Session.{Row, Session, open_session, request}
use race_frame.Worker.Invariant.{Shape, IsWellFormed, Db-IsWellFormed}
use race_frame.Worker.Attempt.{Current, processing, state, retry_scheduled, verify_active_attempt}
use race_frame.Worker.Ownership.{Owns, verify_active_attempt_iff}
use race_frame.Worker.Report.{
  Env, Reply, heartbeat_job, load_job, heartbeat_handler, renewed, renew_lease, heartbeat_current,
}
use race_frame.Worker.Requests.{
  request_keeps, All-load_job, saved-IsWellFormed, owned-Shape, opened-IsWellFormed,
}

renewed-IsWellFormed :
    (env : Env) (job : Job) {attempt_id now : ℕ}
    → Owns job attempt_id now
    → IsWellFormed job
    → IsWellFormed (renewed env job)
unfolding renewed
renewed-IsWellFormed env job o v =
    let shape = owned-Shape job o v in
    (
      v.0,
      subst (λ status. Shape status (renewed env job)) (sym o.running)
          (cc, shape.1, shape.2, shape.3, shape.4),
    )

renew_lease-IsWellFormed :
    (env : Env) (job : Job) (s : Session) {attempt_id now : ℕ}
    → Owns job attempt_id now
    → IsWellFormed job
    → All (λ (row : Row). IsWellFormed row.live) s.rows
    → All IsWellFormed (renew_lease env job s).0.durable.jobs
unfolding renew_lease
renew_lease-IsWellFormed env job s o v h =
    saved-IsWellFormed (renewed env job) s (renewed-IsWellFormed env job o v) h

heartbeat_current-eq-ok :
    (env : Env) (job : Job) (s s' : Session) (reply : Reply) (current : Current)
    → heartbeat_current env job s current ≡ ok (s', reply)
    → (current ≡ processing) × (renew_lease env job s ≡ (s', reply))
unfolding heartbeat_current
heartbeat_current-eq-ok env job s s' reply processing e = (refl, ok-injective e)
heartbeat_current-eq-ok env job s s' reply (state status) e = cc
heartbeat_current-eq-ok env job s s' reply retry_scheduled e = cc

-- A heartbeat, accepted or refused, keeps every committed row in its shape.
pub heartbeat_handler-IsWellFormed :
    (env : Env) (model : Model) (job_id attempt_id : ℕ) (autoflush : Bool) (db : Db)
    → Db-IsWellFormed db
    → Db-IsWellFormed (request autoflush (heartbeat_handler env model job_id attempt_id) db).0
unfolding heartbeat_handler heartbeat_job
heartbeat_handler-IsWellFormed env model job_id attempt_id autoflush db h =
    request_keeps Db-IsWellFormed autoflush (heartbeat_handler env model job_id attempt_id) db h
      λ s reply e.
        let opened = opened-IsWellFormed autoflush db h in
        let session = open_session autoflush db in
        let (job, found, e') = >>=-eq-ok (load_job model job_id session) _ e in
        let (current, verified, e'') =
          >>=-eq-ok (verify_active_attempt job attempt_id false env.verify_now) _ e' in
        let (is, result) = heartbeat_current-eq-ok env job session s reply current e'' in
        subst (λ (r : Session × Reply). All IsWellFormed r.0.durable.jobs) result
          (renew_lease-IsWellFormed env job session
            ((verify_active_attempt_iff job attempt_id env.verify_now false).0
              (verified ∙ ap ok is))
            (All-load_job IsWellFormed model job_id session opened found) opened)
