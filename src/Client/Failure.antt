-- ===== src/Client/Failure.antt =====
-- raceframe-worker/worker.py: the exceptions of the worker, with their texts.
use race_frame.Prelude.{codes}
use race_frame.Matching.Token.{Text}

-- `unexpected` is any other exception, by the name of its class.
pub data Kind : Type 0 where
  worker_config : Kind
  permanent_job : Kind
  transient_job : Kind
  control_plane : Kind
  lease_lost : Kind
  unexpected : Text → Kind

abbrev pub class_name : Kind → Text
class_name worker_config = codes "WorkerConfigError"
class_name permanent_job = codes "PermanentJobError"
class_name transient_job = codes "TransientJobError"
class_name control_plane = codes "ControlPlaneError"
class_name lease_lost = codes "LeaseLostError"
class_name (unexpected name) = name

pub data Outcome {ℓ} (A : Type ℓ) : Type ℓ where
  returned : A → Outcome A
  raised : Kind → Text → Outcome A
