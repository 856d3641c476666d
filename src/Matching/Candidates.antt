-- ===== src/Matching/Candidates.antt =====
-- backend/app/face.py and backend/app/photographer.py: `extract_match_candidates`.
use race_frame.Prelude.{ℕ, Bool, true, false, ◌||◌, List, [], ◌∷◌, ◌++◌, if◌then◌else◌, is_empty}
use race_frame.Matching.Token.{
  Text, is_digit, is_token, is_member, upper, normalize_match_token, normalize_bib_lookup,
}

-- A run that ends is a token, unless it is empty.
abbrev pub close_run : Text × List Text → List Text
close_run ([], done) = done
close_run (c ∷ run, done) = (c ∷ run) ∷ done

abbrev pub grow_run : Bool → ℕ → Text × List Text → Text × List Text
grow_run true c (run, done) = (c ∷ run, done)
grow_run false c runs = ([], close_run runs)

-- The run at the start of the text, and the runs behind it.
unfoldable pub split_runs : (ℕ → Bool) → Text → Text × List Text
split_runs p [] = ([], [])
split_runs p (c ∷ s) = grow_run (p c) c (split_runs p s)

-- `re.findall(r"[…]+", value)`: the longest runs of characters of the class, in their order.
unfoldable pub find_runs : (ℕ → Bool) → Text → List Text
unfolding split_runs
find_runs p s = close_run (split_runs p s)

-- The loop: each token normalised, without the empty and the repeated ones.
unfoldable pub collect : (Text → Text) → List Text → List Text → List Text
collect normalize seen [] = []
collect normalize seen (token ∷ tokens) =
    let normalized = normalize token in
    let skipped = collect normalize seen tokens in
    let kept = normalized ∷ collect normalize (normalized ∷ seen) tokens in
    if is_empty normalized || is_member normalized seen then skipped else kept

-- `if raw_candidate: tokens.insert(0, raw_candidate)`
abbrev pub insert_first : Text → List Text → List Text
insert_first [] tokens = tokens
insert_first (c ∷ raw) tokens = (c ∷ raw) ∷ tokens

-- face.py: the whole value, its runs of letters and digits, and its runs of digits.
unfoldable pub extract_match_candidates : (ℕ → Text) → Text → List Text
unfolding find_runs collect upper normalize_match_token
extract_match_candidates wide value =
    let tokens =
      insert_first (normalize_match_token value) (find_runs is_token (upper wide value)) in
    collect normalize_match_token [] (tokens ++ find_runs is_digit (upper wide value))

-- photographer.py has a function of the same name, without the runs of digits and with the bounded
-- token of participant_lookup.py.
unfoldable pub rebuild_match_candidates : (ℕ → Text) → Text → List Text
unfolding find_runs collect upper normalize_bib_lookup
rebuild_match_candidates wide value =
    collect (normalize_bib_lookup wide) []
      (insert_first (normalize_bib_lookup wide value) (find_runs is_token (upper wide value)))
