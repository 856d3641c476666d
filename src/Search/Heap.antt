-- ===== src/Search/Heap.antt =====
-- backend/app/face.py: the heap of `create_face_search_results` and what it has dropped.
use mathlib.Core.List.Permᴰ
use mathlib.Core.List.{Permᴰ}
use race_frame.Prelude.{
  suc, ◌≤◌, ◌<◌, ◌≡◌, ◌⊎◌, refl, sym, subst, inl, inr, List, [], ◌∷◌, ◌++◌, some, length, keep, All,
  All-mono, arith, Bool-cases,
}
use race_frame.Search.Best.{Item, SearchSettings, item_le, push, is_candidate, keep_best}

-- In ascending order of the scores.
unfoldable pub Ordered : List Item → Type 0
Ordered [] = Unit
Ordered (x ∷ heap) = All (λ y. x.score ≤ y.score) heap × Ordered heap

pub length-push : (x : Item) (heap : List Item) → length (push x heap) ≡ suc (length heap)
unfolding push
length-push x [] = refl
length-push x (y ∷ heap) = ground (arith, length-push x heap)

pub All-push :
    (P : Item → Type 0) (x : Item) (heap : List Item) → P x → All P heap → All P (push x heap)
unfolding push
All-push P x [] p h = (p, tt)
All-push P x (y ∷ heap) p (q, h) = elim (Bool-cases (item_le x y)) [
  | inl e ↦ rw e (p, (q, h))
  | inr e ↦ rw e (q, All-push P x heap p h)
]

pub push-Ordered : (x : Item) (heap : List Item) → Ordered heap → Ordered (push x heap)
unfolding push Ordered
push-Ordered x [] h = (tt, tt)
push-Ordered x (y ∷ heap) (below, h) = elim (Bool-cases (item_le x y)) [
  | inl e ↦
      rw e
        let first : x.score ≤ y.score = ground arith in
          ((first, All-mono heap (λ z le. omega (arith, le, first)) below), (below, h))
  | inr e ↦
      rw e (All-push (λ z. y.score ≤ z.score) x heap (ground arith) below, push-Ordered x heap h)
]

pub push-Perm : (x : Item) (heap : List Item) → Permᴰ (push x heap) (x ∷ heap)
unfolding push
push-Perm x [] = Permᴰ.refl (x ∷ [])
push-Perm x (y ∷ heap) = elim (Bool-cases (item_le x y)) [
  | inl e ↦ rw e (Permᴰ.refl (x ∷ y ∷ heap))
  | inr e ↦ rw e (Permᴰ.trans (Permᴰ.cons refl (push-Perm x heap)) (Permᴰ.swap refl refl))
]

-- The heap with the candidates that are not in it: none of them is better, and there are some only if the
-- heap is full.
pub record Split (settings : SearchSettings) (heap dropped : List Item) : Type 0 where
  pub ordered : Ordered heap
  pub fits : length heap ≤ settings.max_search_results
  pub full : (dropped ≡ []) ⊎ (length heap ≡ settings.max_search_results)
  pub below : All (λ (d : Item). All (λ (k : Item). d.score ≤ k.score) heap) dropped

-- The candidates that a run keeps and drops, from a heap and what it has dropped before.
abbrev pub Kept : SearchSettings → List Item → List Item → List Item → Type 0
Kept settings rows heap dropped =
    (kept : List Item) × (lost : List Item) × (keep_best settings rows heap ≡ some kept)
    × Permᴰ (kept ++ lost) ((heap ++ dropped) ++ keep (is_candidate settings) rows)
    × Split settings kept lost

-- A candidate that is put in front of what came before it, or behind.
pub to_front :
    (x : Item) (heap dropped rest : List Item)
    → Permᴰ (x ∷ ((heap ++ dropped) ++ rest)) ((heap ++ dropped) ++ (x ∷ rest))
to_front x heap dropped rest = Permᴰ.symm (Permᴰ.middle x (heap ++ dropped) rest)

pub pushed :
    (x : Item) (heap dropped rest : List Item)
    → Permᴰ ((push x heap ++ dropped) ++ rest) ((heap ++ dropped) ++ (x ∷ rest))
pushed x heap dropped rest =
    Permᴰ.trans (Permᴰ.append_right rest (Permᴰ.append_right dropped (push-Perm x heap)))
      (to_front x heap dropped rest)

pub skipped :
    (x : Item) (heap dropped rest : List Item)
    → Permᴰ ((heap ++ (x ∷ dropped)) ++ rest) ((heap ++ dropped) ++ (x ∷ rest))
skipped x heap dropped rest =
    Permᴰ.trans (Permᴰ.append_right rest (Permᴰ.middle x heap dropped))
      (to_front x heap dropped rest)

pub replaced :
    (x least : Item) (heap dropped rest : List Item)
    → Permᴰ ((push x heap ++ (least ∷ dropped)) ++ rest) (((least ∷ heap) ++ dropped) ++ (x ∷ rest))
replaced x least heap dropped rest =
    Permᴰ.trans (pushed x heap (least ∷ dropped) rest)
      (Permᴰ.append_right (x ∷ rest) (Permᴰ.middle least heap dropped))

pub after_push :
    (settings : SearchSettings) (x : Item) (heap dropped : List Item)
    → length heap < settings.max_search_results
    → Split settings heap dropped
    → Split settings (push x heap) dropped
after_push settings x heap dropped room split = elim split.full [
  | inr is_full ↦ ground (arith, room, is_full)
  | inl none_dropped ↦ record {
    ordered = push-Ordered x heap split.ordered;
    fits = omega (arith, room, length-push x heap);
    full = inl none_dropped;
    below =
        subst (All (λ (d : Item). All (λ (k : Item). d.score ≤ k.score) (push x heap)))
          (sym none_dropped) tt;
  }
]

pub after_skip :
    (settings : SearchSettings) (x least : Item) (heap dropped : List Item)
    → x.score ≤ least.score
    → settings.max_search_results ≤ length (least ∷ heap)
    → Split settings (least ∷ heap) dropped
    → Split settings (least ∷ heap) (x ∷ dropped)
unfolding Ordered
after_skip settings x least heap dropped worse is_full split = record {
  ordered = split.ordered;
  fits = split.fits;
  full = inr (omega (arith, is_full, split.fits));
  below = ((worse, All-mono heap (λ k le. omega (arith, le, worse)) split.ordered.0), split.below);
}

pub after_replace :
    (settings : SearchSettings) (x least : Item) (heap dropped : List Item)
    → least.score ≤ x.score
    → settings.max_search_results ≤ length (least ∷ heap)
    → Split settings (least ∷ heap) dropped
    → Split settings (push x heap) (least ∷ dropped)
unfolding Ordered
after_replace settings x least heap dropped better is_full split = record {
  ordered = push-Ordered x heap split.ordered.1;
  fits = omega (arith, length-push x heap, split.fits);
  full = inr (omega (arith, is_full, split.fits, length-push x heap));
  below = (
    All-push (λ k. least.score ≤ k.score) x heap better split.ordered.0,
    All-mono dropped
        (λ d (le, les). All-push (λ k. d.score ≤ k.score) x heap (omega (arith, le, better)) les)
        split.below,
  );
}
