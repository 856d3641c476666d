-- ===== src/Search/Top.antt =====
-- backend/app/face.py: the heap of `create_face_search_results` holds the best candidates.
use mathlib.Core.List.Permᴰ
use mathlib.Core.List.{Permᴰ}
use race_frame.Prelude.{
  ◌≤◌, ◌<◌, ◌≡◌, refl, ◌∙◌, inl, inr, true, false, List, [], ◌∷◌, ◌++◌, some, ltb, if◌then◌else◌,
  length, keep, arith, Bool-cases,
}
use race_frame.Search.Best.{
  Item, SearchSettings, push, replace_least, is_candidate, offer, keep_best,
}
use race_frame.Search.Heap.{
  Ordered, Kept, pushed, skipped, replaced, after_push, after_skip, after_replace, Split,
}

-- What an offer makes of a heap and of what it has dropped.
abbrev Offered : SearchSettings → Item → List Item → List Item → Type 0
Offered settings x heap dropped =
    (heap' : List Item) × (dropped' : List Item) × (offer settings x heap ≡ some heap')
    × ((rest : List Item)
        → Permᴰ ((heap' ++ dropped') ++ rest)
            ((heap ++ dropped) ++ (if is_candidate settings x then x ∷ rest else rest)))
    × Split settings heap' dropped'

module _ (settings : SearchSettings) (positive : 0 < settings.max_search_results) where
  offer_full :
      (x : Item) (heap dropped : List Item)
      → is_candidate settings x ≡ true
      → ltb (length heap) settings.max_search_results ≡ false
      → Split settings heap dropped
      → Offered settings x heap dropped
  unfolding offer replace_least
  offer_full x [] dropped candidate no_room split = ground (arith, positive, no_room)
  offer_full x (least ∷ heap) dropped candidate no_room split =
      let is_full : settings.max_search_results ≤ length (least ∷ heap) = ground arith in
      elim (Bool-cases (ltb least.score x.score)) [
        | inl better ↦ (
          push x heap,
          least ∷ dropped,
          rw candidate rw no_room rw better refl,
          (λ rest. rw candidate (replaced x least heap dropped rest)),
          after_replace settings x least heap dropped (ground arith) is_full split,
        )
        | inr worse ↦ (
          least ∷ heap,
          x ∷ dropped,
          rw candidate rw no_room rw worse refl,
          (λ rest. rw candidate (skipped x (least ∷ heap) dropped rest)),
          after_skip settings x least heap dropped (ground arith) is_full split,
        )
      ]

  offer_cases :
      (x : Item) (heap dropped : List Item)
      → Split settings heap dropped
      → Offered settings x heap dropped
  unfolding offer
  offer_cases x heap dropped split = elim (Bool-cases (is_candidate settings x)) [
    | inr other ↦ (
      heap,
      dropped,
      rw other refl,
      (λ rest. rw other (Permᴰ.refl ((heap ++ dropped) ++ rest))),
      split,
    )
    | inl candidate ↦ elim (Bool-cases (ltb (length heap) settings.max_search_results)) [
      | inl room ↦ (
        push x heap,
        dropped,
        rw candidate rw room refl,
        (λ rest. rw candidate (pushed x heap dropped rest)),
        after_push settings x heap dropped (ground arith) split,
      )
      | inr no_room ↦ offer_full x heap dropped candidate no_room split
    ]
  ]

  keep_best_step :
      (x : Item) (rows heap : List Item) {heap' : List Item}
      → offer settings x heap ≡ some heap'
      → keep_best settings (x ∷ rows) heap ≡ keep_best settings rows heap'
  unfolding keep_best
  keep_best_step x rows heap offered = rw (offered, keep_best) refl

  keep_best-Kept :
      (rows heap dropped : List Item)
      → Split settings heap dropped
      → Kept settings rows heap dropped
  unfolding keep keep_best
  keep_best-Kept [] heap dropped split =
      (heap, dropped, refl, Permᴰ.symm (Permᴰ.append-nil (heap ++ dropped)), split)
  keep_best-Kept (x ∷ rows) heap dropped split =
      let (heap', dropped', offered, moves, split') = offer_cases x heap dropped split in
      let (kept, lost, is, perm, last) = keep_best-Kept rows heap' dropped' split' in
      (
        kept,
        lost,
        keep_best_step x rows heap offered ∙ is,
        Permᴰ.trans perm (moves (keep (is_candidate settings) rows)),
        last,
      )

  -- A search keeps the best of its candidates: its heap and a rest together are the rows that reach the
  -- threshold, no one of the rest has a greater score than one in the heap, the heap is as full as the
  -- maximum allows, and its scores ascend.
  pub keep_best-Best :
      (rows : List Item)
      → (kept : List Item) × (rest : List Item) × (keep_best settings rows [] ≡ some kept)
        × Permᴰ (kept ++ rest) (keep (is_candidate settings) rows)
        × Split settings kept rest
  unfolding Ordered
  keep_best-Best rows =
      keep_best-Kept rows [] []
        (record { ordered = tt; fits = omega arith; full = inl refl; below = tt })
