-- ===== src/Deletion/Sound.antt =====
-- backend/app/maintenance.py: a run of the outbox keeps every task in its shape.
use race_frame.Prelude.{ℕ}
use race_frame.Deletion.Task.{Task, World}
use race_frame.Deletion.Run.{Env}
use race_frame.Deletion.Shape.{AllSound}

-- Other processes keep every task in its shape too.
abbrev pub KeepsSound : Env → Type 0
KeepsSound env = (step : ℕ) (w : World) → AllSound w → AllSound (env.others step w)
