-- ===== src/Media/Matching/Confirmed.antt =====
-- What a selected recording has behind it.
use whiterun_music_bot.Base.{
  ◌+◌, ◌≡◌, refl, sym, ap, ◌∙◌, ◌⊎◌, inl, inr, Bool, true, false, not, Option, none, some, List, [],
  ◌∷◌, str_eq, if◌then◌else◌, arith,
}
use whiterun_music_bot.Media.Errors.{
  Err, MatchStatus, confirmed, uncertain, rejected, one_of, provider_unavailable,
}
use whiterun_music_bot.Media.Matching.{
  MatchPolicy, is_valid, compare_spotify, Candidate, deduplicate,
}
use whiterun_music_bot.Media.Matching.Selecting.{
  Verification, full, failed, SpotifySearch, Selection, chosen, refused, Progress, Examined,
  proceeds, decides, first_progress, by_status, judge, examine, conclude, doubt, follow,
  select_spotify_from, select_spotify,
}
use whiterun_music_bot.Media.Matching.Discovery.{
  Query, Discovery, lookup, first_unavailable, is_nil, in_query, after_selection, decided, give_up,
  discover_from, discover_spotify,
}

true_of_not : (b : Bool) → not b ≡ false → b ≡ true
true_of_not true h = refl
true_of_not false h = sym h

module _ {M : Type 0} (p : MatchPolicy) where
  -- The recording is the full metadata of a candidate that summary metadata let pass, under its own
  -- identity, and that metadata confirms it.
  pub record IsConfirmed (s : SpotifySearch M) (f : Candidate M) : Type 0 where
    pub candidate : Candidate M
    pub accepted : s.accepts candidate ≡ true
    pub verified : s.verify candidate ≡ full f
    pub identical : str_eq f.id candidate.id ≡ true
    pub status : compare_spotify p (s.evidence f) ≡ confirmed

  not_stopped :
      (b : Bool) (e : Err) (x : Examined M) (g : Candidate M)
      → (if b then decides (refused e) else x) ≡ decides (chosen g)
      → x ≡ decides (chosen g)
  not_stopped true e x g h = ground arith
  not_stopped false e x g h = h

  not_passed :
      (b : Bool) (st : Progress) (x : Examined M) (r : Selection M)
      → (if b then proceeds st else x) ≡ decides r
      → (b ≡ false) × (x ≡ decides r)
  not_passed true st x r h = ground arith
  not_passed false st x r h = (refl, h)

  by_status_chosen :
      (m : MatchStatus) (f g : Candidate M) (st : Progress)
      → by_status m f st ≡ decides (chosen g)
      → (m ≡ confirmed) × (f ≡ g)
  by_status_chosen confirmed f g st h = (refl, ground arith)
  by_status_chosen uncertain f g st h = ground arith
  by_status_chosen rejected f g st h = ground arith

  judge_chosen :
      (s : SpotifySearch M) (c g : Candidate M) (v : Verification M) (st : Progress)
      → judge p s c v st ≡ decides (chosen g)
      → (v ≡ full g) × (str_eq g.id c.id ≡ true) × (compare_spotify p (s.evidence g) ≡ confirmed)
  unfolding judge
  judge_chosen s c g (failed e) st h = ground arith
  judge_chosen s c g (full f) st h =
      let same = not_passed (not (str_eq f.id c.id)) _ _ _ h in
      let by = by_status_chosen (compare_spotify p (s.evidence f)) f g st same.1 in
      (
        ap full by.1,
        ap (λ (x : Candidate M). str_eq x.id c.id) (sym by.1) ∙ true_of_not _ same.0,
        ap (λ (x : Candidate M). compare_spotify p (s.evidence x)) (sym by.1) ∙ by.0,
      )

  examine_chosen :
      (s : SpotifySearch M) (c g : Candidate M) (st : Progress)
      → examine p s c st ≡ decides (chosen g)
      → IsConfirmed s g
  unfolding examine
  examine_chosen s c g st h =
      let unseen =
        not_passed (one_of c.id st.seen) _ _ _ (not_stopped (s.ended st.looks) _ _ g h) in
      let fit = not_passed (not (s.accepts c)) _ _ _ unseen.1 in
      let judged =
        judge_chosen s c g (s.verify c) _ (not_stopped (s.ended (st.looks + 1)) _ _ g fit.1) in
      record {
        candidate = c;
        accepted = true_of_not _ fit.0;
        verified = judged.0;
        identical = judged.1;
        status = judged.2;
      }

  followed :
      (x : Examined M) (k : Progress → Selection M) (g : Candidate M)
      → follow x k ≡ chosen g
      → (x ≡ decides (chosen g)) ⊎ ((st : Progress) × (k st ≡ chosen g))
  followed (proceeds st) k g h = inr (st, h)
  followed (decides r) k g h = inl (ap decides h)

  doubt_refuses : (b : Bool) (g : Candidate M) → doubt b ≡ chosen g → ⊥
  doubt_refuses true g h = ground arith
  doubt_refuses false g h = ground arith

  conclude_refuses : (es : List Err) (b : Bool) (g : Candidate M) → conclude es b ≡ chosen g → ⊥
  conclude_refuses [] b g h = doubt_refuses b g h
  conclude_refuses (e ∷ es) b g h = ground arith

  select_spotify_from_chosen :
      (s : SpotifySearch M) (cs : List (Candidate M)) (st : Progress) (g : Candidate M)
      → select_spotify_from p s cs st ≡ chosen g
      → IsConfirmed s g
  unfolding select_spotify_from
  select_spotify_from_chosen s [] st g h =
      elim (conclude_refuses st.errors st.saw_uncertain g h) [ ]
  select_spotify_from_chosen s (c ∷ cs) st g h =
      elim (followed (examine p s c st) (select_spotify_from p s cs) g h) [
        | inl e ↦ examine_chosen s c g st e
        | inr (st', e) ↦ select_spotify_from_chosen s cs st' g e
      ]

  chosen_if :
      (b : Bool) (x : Selection M) (e : Err) (g : Candidate M)
      → (if b then x else refused e) ≡ chosen g
      → x ≡ chosen g
  chosen_if true x e g h = h
  chosen_if false x e g h = ground arith

  chosen_unless :
      (b : Bool) (e : Err) (x : Selection M) (g : Candidate M)
      → (if b then refused e else x) ≡ chosen g
      → x ≡ chosen g
  chosen_unless true e x g h = ground arith
  chosen_unless false e x g h = h

  select_spotify_chosen :
      (s : SpotifySearch M) (cs : List (Candidate M)) (g : Candidate M)
      → select_spotify p s cs ≡ chosen g
      → IsConfirmed s g
  unfolding select_spotify
  select_spotify_chosen s cs g h =
      select_spotify_from_chosen s cs first_progress g (chosen_if (is_valid p) _ _ g h)

  give_up_refuses : (es : List Err) (b : Bool) (g : Candidate M) → give_up es b ≡ chosen g → ⊥
  give_up_refuses [] b g h = doubt_refuses b g h
  give_up_refuses (e ∷ es) b g h = ground arith

  next_of :
      (a b : Bool) (x y next : Selection M) (g : Candidate M)
      → decided (if a then some x else if b then some y else none) next ≡ chosen g
      → (x ≡ chosen g → ⊥)
      → (y ≡ chosen g → ⊥)
      → next ≡ chosen g
  next_of true b x y next g h nx ny = elim (nx h) [ ]
  next_of false true x y next g h nx ny = elim (ny h) [ ]
  next_of false false x y next g h nx ny = h

  -- The looks at the context are no part of what confirms a recording.
  same_query :
      (s : SpotifySearch M) (q : Query M) (g : Candidate M)
      → IsConfirmed (in_query s q) g
      → IsConfirmed s g
  same_query s q g c = record {
    candidate = c.candidate;
    accepted = c.accepted;
    verified = c.verified;
    identical = c.identical;
    status = c.status;
  }

  either_selection :
      (s : SpotifySearch M) (q : Query M) (b : Bool) (x next : Selection M) (g : Candidate M)
      → (if b then next else decided (after_selection s.ending q x) next) ≡ chosen g
      → (next ≡ chosen g) ⊎ (x ≡ chosen g)
  either_selection s q true x next g h = inl h
  either_selection s q false (chosen c) next g h = inr h
  either_selection s q false (refused e) next g h = inl (
      next_of (provider_unavailable e) q.ended_after (refused e) (refused s.ending) next g h
        (λ k. ground arith) (λ k. ground arith))

  available :
      (o : Option Err) (x : Selection M) (g : Candidate M)
      → (elim o [ some e ↦ refused e | none ↦ x ]) ≡ chosen g
      → x ≡ chosen g
  available none x g h = h
  available (some e) x g h = ground arith

  discover_from_chosen :
      (s : SpotifySearch M) (qs : List (Query M)) (d : Discovery M) (g : Candidate M)
      → discover_from p s qs d ≡ chosen g
      → IsConfirmed s g
  unfolding discover_from
  discover_from_chosen s [] d g h = elim (give_up_refuses d.failures d.saw_uncertain g h) [ ]
  discover_from_chosen s (q ∷ qs) d g h =
      let d' = lookup q.music q.found d in
      let x = select_spotify p (in_query s q) (deduplicate d'.pools) in
      let on =
        available (first_unavailable d'.failures) _ g (chosen_unless q.ended_before _ _ g h) in
      elim (either_selection s q (is_nil d'.pools) x _ g on) [
        | inl e ↦ discover_from_chosen s qs _ g e
        | inr e ↦ same_query s q g (select_spotify_chosen (in_query s q) _ g e)
      ]

-- Whatever the searches bring, whatever fails and whenever the context ends: a recording that the
-- discovery returns is the full metadata of a candidate that its summary let pass, of the same video,
-- and CompareSpotify confirms it. Neither a summary nor an uncertain or rejected recording is returned.
pub discover_spotify_chosen :
    {M : Type 0} (p : MatchPolicy) (s : SpotifySearch M) (qs : List (Query M)) (g : Candidate M)
    → discover_spotify p s qs ≡ chosen g
    → IsConfirmed p s g
unfolding discover_spotify
discover_spotify_chosen p s qs g h =
    discover_from_chosen p s qs _ g (chosen_if p (is_valid p) _ _ g h)
