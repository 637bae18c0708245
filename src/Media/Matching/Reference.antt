-- ===== src/Media/Matching/Reference.antt =====
-- The selection of a recording without the loop's variables: each candidate has a verdict of its own,
-- and the verdicts decide.
use whiterun_music_bot.Base.{
  ℕ, ◌+◌, ◌≡◌, refl, sym, ap, ◌∙◌, inl, inr, Bool, true, false, not, ◌&&◌, ◌||◌, Option, none, some,
  List, [], ◌∷◌, ◌++◌, str_eq, if◌then◌else◌, arith, Bool-cases,
}
use mathlib.Core.List.{append_assoc, append-nil}
use whiterun_music_bot.Media.Errors.{
  Err, MatchStatus, confirmed, uncertain, rejected, match_error, wrapped, one_of,
  provider_unavailable,
}
use whiterun_music_bot.Media.Matching.{
  MatchPolicy, is_valid, compare_spotify, Candidate, ids, deduplicate,
}
use whiterun_music_bot.Media.Matching.Selecting.{
  Verification, full, failed, SpotifySearch, Selection, chosen, refused, Progress, Examined,
  proceeds, decides, first_progress, wrong_video, by_status, judge, examine, conclude, join_errors,
  follow, select_spotify_from, select_spotify,
}
use whiterun_music_bot.Media.Matching.Unique.{distinct, deduplicate_lem}

-- What is to be said of a candidate: nothing, that its verification failed, that the evidence is not
-- enough, or the end of the search.
pub data Verdict (M : Type 0) : Type 0 where
  unfit doubtful : Verdict M
  faulty : Err → Verdict M
  settles : Selection M → Verdict M

or_false : (b : Bool) → b ≡ (b || false)
or_false true = refl
or_false false = refl

both : (a b : Bool) → (not a && b) ≡ true → (a ≡ false) × (b ≡ true)
both a b h = ground arith

module _ {M : Type 0} where
  abbrev pub status_verdict : MatchStatus → Candidate M → Verdict M
  status_verdict confirmed f = settles (chosen f)
  status_verdict uncertain f = doubtful
  status_verdict rejected f = unfit

  abbrev pub verification_verdict :
      MatchPolicy → SpotifySearch M → Candidate M → Verification M → Verdict M
  verification_verdict p s c (failed e) =
      if provider_unavailable e then settles (refused e) else faulty e
  verification_verdict p s c (full f) =
      if str_eq f.id c.id
      then status_verdict (compare_spotify p (s.evidence f)) f
      else faulty wrong_video

  abbrev pub verdict : MatchPolicy → SpotifySearch M → Candidate M → Verdict M
  verdict p s c = if s.accepts c then verification_verdict p s c (s.verify c) else unfit

  abbrev pub verdicts : MatchPolicy → SpotifySearch M → List (Candidate M) → List (Verdict M)
  verdicts p s [] = []
  verdicts p s (c ∷ cs) = verdict p s c ∷ verdicts p s cs

  -- The first verdict that settles the search.
  abbrev pub first_settled : List (Verdict M) → Option (Selection M)
  first_settled [] = none
  first_settled (settles r ∷ vs) = some r
  first_settled (unfit ∷ vs) = first_settled vs
  first_settled (doubtful ∷ vs) = first_settled vs
  first_settled (faulty e ∷ vs) = first_settled vs

  abbrev pub faults : List (Verdict M) → List Err
  faults [] = []
  faults (faulty e ∷ vs) = e ∷ faults vs
  faults (unfit ∷ vs) = faults vs
  faults (doubtful ∷ vs) = faults vs
  faults (settles r ∷ vs) = faults vs

  abbrev pub has_doubt : List (Verdict M) → Bool
  has_doubt [] = false
  has_doubt (doubtful ∷ vs) = true
  has_doubt (unfit ∷ vs) = has_doubt vs
  has_doubt (faulty e ∷ vs) = has_doubt vs
  has_doubt (settles r ∷ vs) = has_doubt vs

  abbrev pub or_else : Option (Selection M) → Selection M → Selection M
  or_else none r = r
  or_else (some q) r = q

  -- The error when nothing settles a search: failed verifications come before doubt, and doubt before
  -- a plain refusal.
  abbrev pub no_result : List Err → Bool → Selection M
  no_result (e ∷ es) doubts =
      refused (wrapped "candidate verification infrastructure failed: " (join_errors e es))
  no_result [] true = refused (match_error uncertain "insufficient_metadata")
  no_result [] false = refused (match_error rejected "no_acceptable_candidate")

  conclude-no_result : (es : List Err) (doubts : Bool) → conclude es doubts ≡ no_result es doubts
  conclude-no_result [] true = refl
  conclude-no_result [] false = refl
  conclude-no_result (e ∷ es) doubts = refl

  -- What comes of verdicts, after earlier faults and doubts.
  abbrev pub settlement : List Err → Bool → List (Verdict M) → Selection M
  settlement errors doubts vs =
      or_else (first_settled vs) (no_result (errors ++ faults vs) (doubts || has_doubt vs))

  -- Going on with one verdict more.
  goes_on : List Err → Bool → Verdict M → List (Verdict M) → Selection M
  goes_on errors doubts unfit vs = settlement errors doubts vs
  goes_on errors doubts doubtful vs = settlement errors true vs
  goes_on errors doubts (faulty e) vs = settlement (errors ++ e ∷ []) doubts vs
  goes_on errors doubts (settles r) vs = r

  goes_on-settlement :
      (errors : List Err) (doubts : Bool) (v : Verdict M) (vs : List (Verdict M))
      → goes_on errors doubts v vs ≡ settlement errors doubts (v ∷ vs)
  unfolding goes_on
  goes_on-settlement errors doubts unfit vs = refl
  goes_on-settlement errors true doubtful vs = refl
  goes_on-settlement errors false doubtful vs = refl
  goes_on-settlement errors doubts (faulty e) vs =
      ap (λ (es : List Err). or_else (first_settled vs) (no_result es (doubts || has_doubt vs)))
        (append_assoc errors (e ∷ []) (faults vs))
  goes_on-settlement errors doubts (settles r) vs = refl

  -- The loop's variables after a verdict.
  after_verdict : Progress → Verdict M → Examined M
  after_verdict st unfit = proceeds st
  after_verdict st doubtful = proceeds (record st { saw_uncertain = true })
  after_verdict st (faulty e) = proceeds (record st { errors = st.errors ++ e ∷ [] })
  after_verdict st (settles r) = decides r

  by_status-verdict :
      (m : MatchStatus) (f : Candidate M) (st : Progress)
      → by_status m f st ≡ after_verdict st (status_verdict m f)
  unfolding after_verdict
  by_status-verdict confirmed f st = refl
  by_status-verdict uncertain f st = refl
  by_status-verdict rejected f st = refl

  judge-verdict :
      (p : MatchPolicy) (s : SpotifySearch M) (c : Candidate M) (v : Verification M) (st : Progress)
      → judge p s c v st ≡ after_verdict st (verification_verdict p s c v)
  unfolding judge after_verdict
  judge-verdict p s c (failed e) st = elim (Bool-cases (provider_unavailable e)) [
    | inl k ↦ rw k refl
    | inr k ↦ rw k refl
  ]
  judge-verdict p s c (full f) st = elim (Bool-cases (str_eq f.id c.id)) [
    | inl k ↦ rw k (by_status-verdict (compare_spotify p (s.evidence f)) f st)
    | inr k ↦ rw k refl
  ]

  module _ (p : MatchPolicy) (s : SpotifySearch M) (lasting : (k : ℕ) → s.ended k ≡ false) where
    examine-verdict :
        (c : Candidate M) (st : Progress)
        → one_of c.id st.seen ≡ false
        → (n : ℕ) × (examine p s c st
            ≡ after_verdict (record st { looks = n; seen = c.id ∷ st.seen }) (verdict p s c))
    unfolding examine after_verdict
    examine-verdict c st h = elim (Bool-cases (s.accepts c)) [
      | inl e ↦ (
        st.looks + 2,
        rw (lasting st.looks, h, e, lasting (st.looks + 1))
            (judge-verdict p s c (s.verify c)
              (record st { looks = st.looks + 2; seen = c.id ∷ st.seen })),
      )
      | inr e ↦ (st.looks + 1, rw (lasting st.looks, h, e) refl)
    ]

    following :
        (cs : List (Candidate M)) (st : Progress) (v : Verdict M)
        → ((st' : Progress)
            → distinct st'.seen (ids cs) ≡ true
            → select_spotify_from p s cs st'
              ≡ settlement st'.errors st'.saw_uncertain (verdicts p s cs))
        → distinct st.seen (ids cs) ≡ true
        → follow (after_verdict st v) (select_spotify_from p s cs)
          ≡ goes_on st.errors st.saw_uncertain v (verdicts p s cs)
    unfolding after_verdict goes_on
    following cs st unfit ih d = ih st d
    following cs st doubtful ih d = ih (record st { saw_uncertain = true }) d
    following cs st (faulty e) ih d = ih (record st { errors = st.errors ++ e ∷ [] }) d
    following cs st (settles r) ih d = refl

    select_spotify_from_lem :
        (cs : List (Candidate M)) (st : Progress)
        → distinct st.seen (ids cs) ≡ true
        → select_spotify_from p s cs st ≡ settlement st.errors st.saw_uncertain (verdicts p s cs)
    unfolding select_spotify_from
    select_spotify_from_lem [] st d =
        conclude-no_result st.errors st.saw_uncertain
        ∙ ap (λ (es : List Err). no_result es st.saw_uncertain) (sym (append-nil st.errors))
        ∙ ap (no_result (st.errors ++ [])) (or_false st.saw_uncertain)
    select_spotify_from_lem (c ∷ cs) st d =
        let parts = both (one_of c.id st.seen) _ d in
        let x = examine-verdict c st parts.0 in
        ap (λ (y : Examined M). follow y (select_spotify_from p s cs)) x.1
        ∙ following cs (record st { looks = x.0; seen = c.id ∷ st.seen }) (verdict p s c)
            (select_spotify_from_lem cs) parts.1
        ∙ goes_on-settlement st.errors st.saw_uncertain (verdict p s c) (verdicts p s cs)

-- For a valid policy and a context that lasts, the candidates of any pools are selected as their own
-- verdicts say. The first that settles the search decides: one that summary metadata lets pass, whose
-- verification is of the same video and whose full metadata confirms the recording, or one whose
-- verification finds the provider unavailable. Without such a one the result is an error: every failed
-- verification in order, or else that a recording is uncertain, or else that none is acceptable.
pub select_spotify_lem :
    {M : Type 0} (p : MatchPolicy) (s : SpotifySearch M)
    (pools : List (List (Option (Candidate M))))
    → is_valid p ≡ true
    → ((k : ℕ) → s.ended k ≡ false)
    → select_spotify p s (deduplicate pools)
      ≡ settlement [] false (verdicts p s (deduplicate pools))
unfolding select_spotify
select_spotify_lem p s pools valid lasting = rw valid (
    select_spotify_from_lem p s lasting (deduplicate pools) first_progress
      (deduplicate_lem pools).0)
