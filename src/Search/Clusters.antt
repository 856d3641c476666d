-- ===== src/Search/Clusters.antt =====
-- backend/app/face.py: `cluster_seed_faces` puts each usable face in one cluster, and none is empty.
use mathlib.Core.List.Permᴰ
use mathlib.Core.List.{Permᴰ}
use race_frame.Prelude.{
  ℕ, zero, suc, ◌+◌, ◌<◌, ◌≡◌, refl, sym, ap, ◌∙◌, subst, inl, inr, Bool, true, false, List, [],
  ◌∷◌, ◌++◌, append_assoc, Option, none, some, leb, ltb, if◌then◌else◌, length, keep, is_empty, All,
  All-append, arith, Bool-cases,
}
use race_frame.Search.Seeds.{
  Face, SeedSettings, append_at, cluster_score, best_cluster, put_face, add_face, cluster_from,
  cluster_seed_faces,
}

abbrev pub concat : {A : Type 0} → List (List A) → List A
concat [] = []
concat (xs ∷ xss) = xs ++ concat xss

concat-append :
    {A : Type 0} (xss yss : List (List A)) → concat (xss ++ yss) ≡ concat xss ++ concat yss
concat-append [] yss = refl
concat-append (xs ∷ xss) yss =
    ap (λ rest. xs ++ rest) (concat-append xss yss)
    ∙ sym (append_assoc xs (concat xss) (concat yss))

abbrev pub is_some : {A : Type 0} → Option A → Bool
is_some none = false
is_some (some a) = true

abbrev AllFilled : {E : Type 0} → List (List (Face E)) → Type 0
AllFilled clusters = All (λ cluster. is_empty cluster ≡ false) clusters

filled-append :
    {E : Type 0} (cluster : List (Face E)) (face : Face E)
    → is_empty (cluster ++ (face ∷ [])) ≡ false
filled-append [] face = refl
filled-append (_ ∷ _) face = refl

append_at-AllFilled :
    {E : Type 0} (i : ℕ) (face : Face E) (clusters : List (List (Face E)))
    → AllFilled clusters
    → AllFilled (append_at i face clusters)
unfolding append_at
append_at-AllFilled i face [] h = tt
append_at-AllFilled zero face (cluster ∷ clusters) (first, h) = (filled-append cluster face, h)
append_at-AllFilled (suc i) face (cluster ∷ clusters) (first, h) =
    (first, append_at-AllFilled i face clusters h)

append_at-Perm :
    {E : Type 0} (i : ℕ) (face : Face E) (clusters : List (List (Face E)))
    → i < length clusters
    → Permᴰ (concat (append_at i face clusters)) (face ∷ concat clusters)
unfolding append_at
append_at-Perm i face [] h = ground (arith, h)
append_at-Perm zero face (cluster ∷ clusters) h =
    subst (λ faces. Permᴰ faces (face ∷ (cluster ++ concat clusters)))
      (sym (append_assoc cluster (face ∷ []) (concat clusters)))
      (Permᴰ.middle face cluster (concat clusters))
append_at-Perm (suc i) face (cluster ∷ clusters) h =
    Permᴰ.trans (Permᴰ.append_left cluster (append_at-Perm i face clusters (omega (arith, h))))
      (Permᴰ.middle face cluster (concat clusters))

new_cluster-Perm :
    {E : Type 0} (face : Face E) (clusters : List (List (Face E)))
    → Permᴰ (concat (clusters ++ ((face ∷ []) ∷ []))) (face ∷ concat clusters)
new_cluster-Perm face clusters =
    subst (λ faces. Permᴰ faces (face ∷ concat clusters))
      (sym (concat-append clusters ((face ∷ []) ∷ [])))
      (Permᴰ.trans (Permᴰ.middle face (concat clusters) [])
        (Permᴰ.cons refl (Permᴰ.append-nil (concat clusters))))

-- Where a best cluster is, there is one.
abbrev Within : ℕ → Option ℕ → Type 0
Within n none = Unit
Within n (some i) = i < n

module _ {E : Type 0} (similarity : E → E → ℕ) (normalize : E → Option E)
    (settings : SeedSettings) where
  best_cluster-Within :
      (embedding : E) (i : ℕ) (clusters : List (List (Face E))) (best : ℕ × Option ℕ) (n : ℕ)
      → i + length clusters ≡ n
      → Within n best.1
      → Within n (best_cluster similarity normalize embedding i clusters best).1
  unfolding best_cluster
  best_cluster-Within embedding i [] best n h within = within
  best_cluster-Within embedding i (cluster ∷ clusters) (score, place) n h within =
      elim (Bool-cases (ltb score (cluster_score similarity normalize embedding cluster))) [
        | inl e ↦
            rw (e, Within)
              (best_cluster-Within embedding (i + 1) clusters _ n (omega (arith, h))
                (omega (arith, h)))
        | inr e ↦
            rw (e, Within)
              (best_cluster-Within embedding (i + 1) clusters _ n (omega (arith, h)) within)
      ]

  put_face-Perm :
      (face : Face E) (best : ℕ × Option ℕ) (clusters : List (List (Face E)))
      → Within (length clusters) best.1
      → Permᴰ
          (concat (put_face similarity normalize settings face best clusters))
          (face ∷ concat clusters)
  unfolding put_face
  put_face-Perm face (score, none) clusters within = new_cluster-Perm face clusters
  put_face-Perm face (score, some i) clusters within =
      elim (Bool-cases (leb settings.face_reinforcement_similarity_threshold score)) [
        | inl e ↦ rw e (append_at-Perm i face clusters within)
        | inr e ↦ rw e (new_cluster-Perm face clusters)
      ]

  put_face-AllFilled :
      (face : Face E) (best : ℕ × Option ℕ) (clusters : List (List (Face E)))
      → AllFilled clusters
      → AllFilled (put_face similarity normalize settings face best clusters)
  unfolding put_face
  put_face-AllFilled face (score, none) clusters h =
      All-append (λ cluster. is_empty cluster ≡ false) clusters ((face ∷ []) ∷ []) h (refl, tt)
  put_face-AllFilled face (score, some i) clusters h =
      elim (Bool-cases (leb settings.face_reinforcement_similarity_threshold score)) [
        | inl e ↦ rw e (append_at-AllFilled i face clusters h)
        | inr e ↦ rw e (
            All-append (λ cluster. is_empty cluster ≡ false) clusters ((face ∷ []) ∷ []) h
              (refl, tt))
      ]

  -- A face whose embedding has a normal form.
  abbrev pub is_usable : Face E → Bool
  is_usable face = is_some (normalize face.embedding)

  abbrev IsPartition : List (List (Face E)) → List (Face E) → Type 0
  IsPartition clusters faces = Permᴰ (concat clusters) faces × AllFilled clusters

  add_face-IsPartition :
      (face : Face E) (o : Option E) (clusters : List (List (Face E))) (rest : List (Face E))
      → AllFilled clusters
      → Permᴰ
          (concat (add_face similarity normalize settings face o clusters) ++ rest)
          (concat clusters ++ (if is_some o then face ∷ rest else rest))
        × AllFilled (add_face similarity normalize settings face o clusters)
  unfolding add_face
  add_face-IsPartition face none clusters rest h = (Permᴰ.refl (concat clusters ++ rest), h)
  add_face-IsPartition face (some embedding) clusters rest h =
      let best = best_cluster similarity normalize embedding 0 clusters (0, none) in
      (
        Permᴰ.trans
            (Permᴰ.append_right rest (
              put_face-Perm face best clusters (
                best_cluster-Within embedding 0 clusters (0, none) (length clusters) (omega arith)
                  tt)))
            (Permᴰ.symm (Permᴰ.middle face (concat clusters) rest)),
        put_face-AllFilled face best clusters h,
      )

  cluster_from-IsPartition :
      (faces : List (Face E)) (clusters : List (List (Face E)))
      → AllFilled clusters
      → IsPartition
          (cluster_from similarity normalize settings faces clusters)
          (concat clusters ++ keep is_usable faces)
  unfolding cluster_from keep
  cluster_from-IsPartition [] clusters h = (Permᴰ.symm (Permᴰ.append-nil (concat clusters)), h)
  cluster_from-IsPartition (face ∷ faces) clusters h =
      let (moved, filled) =
        add_face-IsPartition face (normalize face.embedding) clusters (keep is_usable faces) h in
      let (parts, all_filled) =
        cluster_from-IsPartition faces
          (add_face similarity normalize settings face (normalize face.embedding) clusters)
          filled in
      (Permᴰ.trans parts moved, all_filled)

  -- The clusters together are the usable faces, each once, and no cluster is empty.
  pub cluster_seed_faces-Perm :
      (faces : List (Face E))
      → Permᴰ
          (concat (cluster_seed_faces similarity normalize settings faces))
          (keep is_usable faces)
        × All
            (λ cluster. is_empty cluster ≡ false)
            (cluster_seed_faces similarity normalize settings faces)
  unfolding cluster_seed_faces
  cluster_seed_faces-Perm faces = cluster_from-IsPartition faces [] tt
