-- ===== src/Search/Best.antt =====
-- backend/app/face.py: `create_face_search_results`. The heap of `heapq` is its contract: a list in
-- ascending order, whose first element is the least. The similarity of an embedding to the probe is an
-- argument.
use race_frame.Prelude.{
  ℕ, max, Bool, ◌&&◌, ◌||◌, List, [], ◌∷◌, Option, none, some, leb, ltb, ◌==◌, if◌then◌else◌,
  length,
}

-- (score, str(detection_id), detection_id, photo_id): the identifiers are numbers that order as their
-- texts do.
pub record Item : Type 0 where
  pub score : ℕ
  pub detection_id : ℕ
  pub photo_id : ℕ

abbrev pub item_le : Item → Item → Bool
item_le a b = ltb a.score b.score || (a.score == b.score && leb a.detection_id b.detection_id)

-- `heapq.heappush`
unfoldable pub push : Item → List Item → List Item
push x [] = x ∷ []
push x (y ∷ heap) = if item_le x y then x ∷ y ∷ heap else y ∷ push x heap

pub record SearchSettings : Type 0 where
  pub face_candidate_similarity_threshold : ℕ
  pub max_search_results : ℕ
  pub max_search_faces_per_event : ℕ

-- A full heap takes an item only for a lesser score; `candidates[0]` of an empty one is an IndexError.
unfoldable pub replace_least : Item → List Item → Option (List Item)
unfolding push
replace_least x [] = none
replace_least x (least ∷ heap) =
    if ltb least.score x.score then some (push x heap) else some (least ∷ heap)

abbrev pub is_candidate : SearchSettings → Item → Bool
is_candidate settings x = leb settings.face_candidate_similarity_threshold x.score

unfoldable pub offer : SearchSettings → Item → List Item → Option (List Item)
unfolding push replace_least
offer settings x heap =
    if is_candidate settings x
    then (if ltb (length heap) settings.max_search_results
        then some (push x heap)
        else replace_least x heap)
    else some heap

-- The loop over the rows.
unfoldable pub keep_best : SearchSettings → List Item → List Item → Option (List Item)
unfolding offer
keep_best settings [] heap = some heap
keep_best settings (x ∷ rows) heap = elim (offer settings x heap) [
  | some heap' ↦ keep_best settings rows heap'
  | none ↦ none
]

-- A row of FaceSearchResult of the search session, by its detection.
pub record SearchResult : Type 0 where
  pub result_detection_id : ℕ
  pub result_photo_id : ℕ
  pub similarity_score : ℕ

abbrev result_of : Item → SearchResult
result_of x = record {
  result_detection_id = x.detection_id;
  result_photo_id = x.photo_id;
  similarity_score = x.score;
}

-- `INSERT … ON CONFLICT DO UPDATE`: the better score stays, the photo is the new one.
unfoldable pub upsert_result : Item → List SearchResult → List SearchResult
upsert_result x [] = result_of x ∷ []
upsert_result x (r ∷ results) =
    if r.result_detection_id == x.detection_id
    then record r {
      similarity_score = max r.similarity_score x.score;
      result_photo_id = x.photo_id;
    }
      ∷ results
    else r ∷ upsert_result x results

-- `for … in sorted(candidates, reverse=True)`: the last of the heap first.
unfoldable pub upsert_all : List Item → List SearchResult → List SearchResult
unfolding upsert_result
upsert_all [] results = results
upsert_all (x ∷ heap) results = upsert_result x (upsert_all heap results)

-- A row of PhotoFaceDetection.
pub record Detection (E : Type 0) : Type 0 where
  pub id : ℕ
  pub photo_of : ℕ
  pub embedding_json : E

abbrev scored : {E : Type 0} → (E → ℕ) → List (Detection E) → List Item
scored similarity [] = []
scored similarity (d ∷ detections) =
    record { score = similarity d.embedding_json; detection_id = d.id; photo_id = d.photo_of }
    ∷ scored similarity detections

abbrev stored_best : Option (List Item) → List SearchResult → Option (ℕ × List SearchResult)
stored_best none results = none
stored_best (some heap) results = some (length heap, upsert_all heap results)

-- The count and the results of the session; `none` is a RuntimeError, or the IndexError above.
unfoldable pub create_face_search_results :
    {E : Type 0}
    → SearchSettings
    → (E → ℕ)
    → List (Detection E)
    → List SearchResult
    → Option (ℕ × List SearchResult)
unfolding keep_best upsert_all
create_face_search_results settings similarity detections results =
    if ltb settings.max_search_faces_per_event (length detections)
    then none
    else stored_best (keep_best settings (scored similarity detections) []) results
