-- ===== src/Security/InService.antt =====
-- backend/app/web_security.py: the requests that `BrowserSecurityMiddleware` has let through to the
-- application and that it has not finished.
use race_frame.Prelude.{
  codes, ℕ, suc, ◌+◌, ◌-◌, ◌≤◌, ◌≡◌, refl, sym, ap, ◌∙◌, subst, Bool, true, false, ◌&&◌, List, [],
  ◌∷◌, ◌++◌, Option, none, some, leb, if◌then◌else◌, arith, Bool-cases, inl, inr,
}
use race_frame.Matching.Token.{Text, text_eq, text_eq_sound}
use race_frame.Matching.Substring.{is_prefix}
use race_frame.Limits.SlidingWindow.{Entry, Answer, admitted, retry, index_error}
use race_frame.Limits.InFlight.{Counts, get, set, pop, enter, leave}
use race_frame.Security.Request.{BrowserRequest}
use race_frame.Security.Admission.{
  Limiters, Decision, refused, forwarded, raised, Outside, run_checks, enter_category, entered,
  behind_checks, public_search, photo_upload, has_browser_admission_context, search_checks,
  upload_checks, is_public_search, admit, release,
}

text_eq_sym : (a b : Text) → text_eq a b ≡ text_eq b a
text_eq_sym [] [] = refl
text_eq_sym [] (_ ∷ _) = refl
text_eq_sym (_ ∷ _) [] = refl
text_eq_sym (c ∷ s) (d ∷ t) = ground (arith, text_eq_sym s t)

text_eq_other :
    (c category other : Text)
    → text_eq c other ≡ true
    → text_eq c category ≡ false
    → text_eq category other ≡ false
text_eq_other c category other same apart =
    rw (sym (text_eq_sound c other same)) rw (text_eq_sym category c) apart

get-set-if :
    (category other : Text) (n : ℕ) (counts : Counts)
    → get other (set category n counts) ≡ (if text_eq category other then n else get other counts)
unfolding get set
get-set-if category other n [] = refl
get-set-if category other n ((c, m) ∷ counts) = elim (Bool-cases (text_eq c category)) [
  | inl e ↦ rw e rw (text_eq_sound c category e) ground arith
  | inr e ↦ rw e elim (Bool-cases (text_eq c other)) [
    | inl same ↦ rw same rw (text_eq_other c category other same e) refl
    | inr apart ↦ rw apart (get-set-if category other n counts)
  ]
]

get-pop-if :
    (category other : Text) (counts : Counts)
    → get other (pop category counts) ≡ (if text_eq category other then 0 else get other counts)
unfolding get pop
get-pop-if category other [] = ground arith
get-pop-if category other ((c, m) ∷ counts) = elim (Bool-cases (text_eq c category)) [
  | inl e ↦ rw e rw (text_eq_sound c category e) (get-pop-if category other counts ∙ ground arith)
  | inr e ↦ rw e elim (Bool-cases (text_eq c other)) [
    | inl same ↦ rw same rw (text_eq_other c category other same e) refl
    | inr apart ↦ rw apart (get-pop-if category other counts)
  ]
]

get-leave-if :
    (category other : Text) (counts : Counts)
    → get other (leave category counts)
      ≡ (if text_eq category other then get category counts - 1 else get other counts)
unfolding leave
get-leave-if category other counts = elim (Bool-cases (leb (get category counts) 1)) [
  | inl e ↦ rw e (get-pop-if category other counts ∙ ground arith)
  | inr e ↦ rw e (get-set-if category other (get category counts - 1) counts)
]

-- What a decision does to the counts: only a request that goes on in a category is counted.
abbrev Counted : Counts → Decision → Counts → Type 0
Counted before (refused status_code seconds) after = after ≡ before
Counted before raised after = after ≡ before
Counted before (forwarded none) after = after ≡ before
Counted before (forwarded (some category)) after =
    (get category before + 1 ≤ 4)
    × ((other : Text)
        → get other after
          ≡ (if text_eq category other then get category before + 1 else get other before))

entered-Counted :
    (category : Text) (entries : List Entry) (before : Counts)
    → let next = entered category entries (enter_category category before) in
      Counted before next.0 next.1.counts
unfolding enter_category enter
entered-Counted category entries before = elim (Bool-cases (leb 4 (get category before))) [
  | inl full ↦ rw full refl
  | inr free ↦
      rw free (ground arith, λ other. get-set-if category other (get category before + 1) before)
]

behind_checks-Counted :
    (category : Text) (before : Counts) (checked : Answer × List Entry)
    → let next = behind_checks category before checked in Counted before next.0 next.1.counts
behind_checks-Counted category before (admitted, entries) = entered-Counted category entries before
behind_checks-Counted category before (retry seconds, entries) = refl
behind_checks-Counted category before (index_error, entries) = refl

either-Counted :
    (b : Bool) (before : Counts) (x y : Decision × Limiters)
    → Counted before x.0 x.1.counts
    → Counted before y.0 y.1.counts
    → let next = if b then x else y in Counted before next.0 next.1.counts
either-Counted true before x y h k = h
either-Counted false before x y h k = k

-- The requests of a category among those that are with the application.
unfoldable pub in_category : Text → List (Option Text) → ℕ
in_category category [] = 0
in_category category (none ∷ active) = in_category category active
in_category category (some c ∷ active) =
    if text_eq c category then suc (in_category category active) else in_category category active

abbrev pub forwarded_on : Decision → List (Option Text) → List (Option Text)
forwarded_on (forwarded category) active = category ∷ active
forwarded_on (refused status_code seconds) active = active
forwarded_on raised active = active

abbrev pub fresh : Limiters
fresh = record { entries = []; counts = [] }

-- The counts agree with the requests, and no category has more than four.
abbrev pub AreCounted : Counts → List (Option Text) → Type 0
AreCounted counts active =
    (category : Text)
    → (get category counts ≡ in_category category active) × (get category counts ≤ 4)

advance :
    (before after : Counts) (decision : Decision) (active : List (Option Text))
    → Counted before decision after
    → AreCounted before active
    → AreCounted after (forwarded_on decision active)
unfolding in_category
advance before after (refused status_code seconds) active same h category = rw same (h category)
advance before after raised active same h category = rw same (h category)
advance before after (forwarded none) active same h category = rw same (h category)
advance before after (forwarded (some c)) active (room, now) h category =
    elim (Bool-cases (text_eq c category)) [
      | inl e ↦
          let count_is : get category after ≡ get c before + 1 = now category ∙ ground arith in
          let old : get c before ≡ in_category category active =
            subst (λ k. get c before ≡ in_category k active) (text_eq_sound c category e) (h c).0 in
          rw e (omega (arith, count_is, old, room), omega (arith, count_is, room))
      | inr e ↦
          let count_is : get category after ≡ get category before = now category ∙ ground arith in
          let (old, below) = h category in rw e (count_is ∙ old, omega (arith, count_is, below))
    ]

in_category-middle :
    (category c : Text) (before after : List (Option Text))
    → in_category category (before ++ (some c ∷ after)) ≡ (
        if text_eq c category
        then suc (in_category category (before ++ after))
        else in_category category (before ++ after))
unfolding in_category
in_category-middle category c [] after = refl
in_category-middle category c (none ∷ before) after = in_category-middle category c before after
in_category-middle category c (some d ∷ before) after =
    ground (arith, in_category-middle category c before after)

in_category-none :
    (category : Text) (before after : List (Option Text))
    → in_category category (before ++ (none ∷ after)) ≡ in_category category (before ++ after)
unfolding in_category
in_category-none category [] after = refl
in_category-none category (none ∷ before) after = in_category-none category before after
in_category-none category (some d ∷ before) after =
    ground (arith, in_category-none category before after)

retreat :
    (limiters : Limiters) (before : List (Option Text)) (ended : Option Text)
    (after : List (Option Text))
    → AreCounted limiters.counts (before ++ (ended ∷ after))
    → AreCounted (release ended limiters).counts (before ++ after)
unfolding release
retreat limiters before none after h category =
    let (old, below) = h category in (old ∙ in_category-none category before after, below)
retreat limiters before (some c) after h category =
    let (old, below) = h category in
    let (own, own_below) = h c in
    let now = get-leave-if c category limiters.counts in
    let were = in_category-middle category c before after in
    elim (Bool-cases (text_eq c category)) [
      | inl e ↦
          let same : get c limiters.counts ≡ get category limiters.counts =
            ap (λ k. get k limiters.counts) (text_eq_sound c category e) in
          (ground arith, ground arith)
      | inr e ↦ (ground arith, ground arith)
    ]

module _ (outside : Outside) where
  pub admit-Counted :
      (clock : Text → ℕ) (request : BrowserRequest) (visitor_id : Text) (limiters : Limiters)
      → let next = admit outside clock request visitor_id limiters in
        Counted limiters.counts next.0 next.1.counts
  unfolding admit
  admit-Counted clock request visitor_id limiters =
      let is_browser_post =
        text_eq request.method (codes "POST") && has_browser_admission_context outside request in
      let searches =
        run_checks outside.max_keys (search_checks outside clock request visitor_id)
          limiters.entries in
      let uploads =
        run_checks outside.max_keys (upload_checks outside clock visitor_id) limiters.entries in
      let passes : Decision × Limiters = (forwarded none, limiters) in
      let is_upload = is_browser_post && is_prefix (codes "/upload/events/") request.path in
      let uploaded = behind_checks photo_upload limiters.counts uploads in
      either-Counted (is_browser_post && is_public_search outside request.path) limiters.counts
        (behind_checks public_search limiters.counts searches)
        (if is_upload then uploaded else passes)
        (behind_checks-Counted public_search limiters.counts searches)
        (either-Counted is_upload limiters.counts uploaded passes
          (behind_checks-Counted photo_upload limiters.counts uploads) refl)

  -- The limiters while the requests of a list are with the application: one arrives, at any moments of the clock,
  -- or the application ends with one of them, by a response or by an exception.
  pub data InService : Limiters → List (Option Text) → Type 0 where
    quiet : InService fresh []
    arrives :
        {limiters : Limiters} {active : List (Option Text)}
        → InService limiters active
        → (clock : Text → ℕ) (request : BrowserRequest) (visitor_id : Text)
        → InService
            (admit outside clock request visitor_id limiters).1
            (forwarded_on (admit outside clock request visitor_id limiters).0 active)
    ends :
        {limiters : Limiters} (before : List (Option Text)) (ended : Option Text)
        (after : List (Option Text))
        → InService limiters (before ++ (ended ∷ after))
        → InService (release ended limiters) (before ++ after)

  -- However requests arrive, are refused, and end, the count of every category is the number of its requests that
  -- are with the application, and is four at most.
  pub InService-AreCounted :
      {limiters : Limiters} {active : List (Option Text)}
      → InService limiters active
      → (category : Text)
      → (get category limiters.counts ≡ in_category category active)
        × (get category limiters.counts ≤ 4)
  unfolding get in_category
  InService-AreCounted quiet category = (refl, omega arith)
  InService-AreCounted (arrives {limiters} {active} served clock request visitor_id) category =
      let next = admit outside clock request visitor_id limiters in
      advance limiters.counts next.1.counts next.0 active
        (admit-Counted clock request visitor_id limiters) (InService-AreCounted served) category
  InService-AreCounted (ends {limiters} before ended after served) category =
      retreat limiters before ended after (InService-AreCounted served) category
