-- ===== src/Search/Support.antt =====
-- backend/app/face.py: a consensus is only chosen from a cluster with the support of enough photos.
use race_frame.Prelude.{ℕ, Bool, any, List, leb}
use race_frame.Search.Seeds.{Face, photo_count}

-- Some cluster has faces of so many photos.
abbrev pub has_support : {E : Type 0} → ℕ → List (List (Face E)) → Bool
has_support n clusters = any (λ cluster. leb n (photo_count cluster)) clusters
