-- ===== src/Media/Ranking/Score.antt =====
-- internal/media/ranking.go: how well a candidate fits a query, and the selection of the best. What
-- the source counts up from 0 is a natural number, and its scores are integers; with a query of at
-- most 500 bytes they stay far from an int's bounds.
use whiterun_music_bot.Base.{
  ℕ, ◌+◌, ◌*◌, ◌/◌, min, max, Bool, false, not, ◌&&◌, ◌||◌, Option, none, some, List, [], ◌∷◌, map,
  ltb, leb, ◌==◌, if◌then◌else◌, ℤ, pos, sub_ℕ, ◌+ℤ◌, neg, ltb_ℤ,
}
use whiterun_music_bot.Media.Ranking.{Text, codes, text_eq, contains, token_weight}
use whiterun_music_bot.Media.Ranking.Music.{
  Unicode, Candidate, is_nothing, any, cut_before, trim_prefix, trim_suffix, without_spaces, trim,
  variants, words, has, channel_text, is_music, requested, semantic_tokens,
}

-- What the loop over the query's tokens counts.
pub record Counts : Type 0 where
  pub songs : ℕ
  pub artists : ℕ
  pub matched : ℕ
  pub exact : ℕ
  pub fuzzy : ℕ

-- scoreBreakdown.
pub record Breakdown : Type 0 where
  pub artist_score : ℕ
  pub exact_score : ℕ
  pub fuzzy_score : ℕ
  pub unmatched_penalty : ℕ
  pub version_score : ℤ
  pub official_bonus : ℤ
  pub final_score : ℤ

unfoldable pub best_weight : Text → List Text → ℕ
best_weight q [] = 0
best_weight q (t ∷ ts) = max (token_weight q t) (best_weight q ts)

unfoldable pub count_artist : Counts → Counts
count_artist n = record n { artists = n.artists + 1; matched = n.matched + 1 }

unfoldable pub count_song : ℕ → Counts → Counts
count_song weight n = record n {
  songs = n.songs + 1;
  matched = n.matched + (if ltb 0 weight then 1 else 0);
  exact = n.exact + (if weight == 100 then 300 else 0);
  fuzzy = n.fuzzy + (if weight == 100 then 0 else weight * 3);
}

abbrev pub nothing_counted : Counts
nothing_counted = record { songs = 0; artists = 0; matched = 0; exact = 0; fuzzy = 0 }

abbrev pub average : ℕ → ℕ → ℕ
average n k = if k == 0 then n else n / k

-- Without an artist in the query, the title counts for a third more.
abbrev pub third_more : ℕ → ℕ → ℕ
third_more artists n = if artists == 0 then n * 4 / 3 else n

-- The scores of the counts.
unfoldable pub scaled : Counts → ℕ × ℕ × ℕ
scaled n = (
  average (n.artists * 100) n.artists,
  (if n.songs == 0 then n.exact else third_more n.artists (average n.exact n.songs)),
  (if n.songs == 0 then n.fuzzy else third_more n.artists (average n.fuzzy n.songs)),
)

abbrev pub relevant_score : Counts × ℕ → ℤ
relevant_score (n, penalty) = sub_ℕ ((scaled n).0 + (scaled n).1 + (scaled n).2) penalty

abbrev pub final : Option Breakdown → Option ℤ
final none = none
final (some b) = some b.final_score

abbrev pub beats : Option ℤ → ℤ → Bool
beats none best = false
beats (some s) best = ltb_ℤ best s

abbrev pub better : Option ℤ → ℤ → ℤ
better none best = best
better (some s) best = if ltb_ℤ best s then s else best

module _ (u : Unicode) where
  -- The artist that relevance takes from the metadata.
  unfoldable pub inferred_artist : Candidate → Text
  unfolding cut_before
  inferred_artist c =
      if is_nothing c.artist
      then elim (cut_before c.title (codes " - ")) [ none ↦ channel_text u c | some p ↦ p ]
      else c.artist

  unfoldable pub count_tokens : Text → List Text → List Text → Counts → Counts
  unfolding count_artist count_song best_weight has
  count_tokens artist titles [] n = n
  count_tokens artist titles (q ∷ qs) n =
      count_tokens artist titles qs
        (if has u artist q then count_artist n else count_song (best_weight q titles) n)

  unfoldable pub unmatched : Text → List Text → List Text → ℕ
  unfolding has
  unmatched artist queries [] = 0
  unmatched artist queries (t ∷ ts) =
      (if has u artist t || any (λ (q : Text). ltb 0 (token_weight q t)) queries then 0 else 8)
      + unmatched artist queries ts

  unfoldable pub relevance : Text → Candidate → Counts × ℕ
  unfolding inferred_artist count_tokens unmatched semantic_tokens
  relevance query c =
      let artist = inferred_artist c in
      let queries = semantic_tokens u query in
      let titles = semantic_tokens u c.title in
      (count_tokens artist titles queries nothing_counted, min (unmatched artist queries titles) 64)

  unfoldable pub channel_identity : Text → Text
  unfolding trim without_spaces words
  channel_identity s = without_spaces (
      trim_suffix
        (trim_suffix
          (trim_suffix (trim_prefix (trim (λ (c : ℕ). c == 32) (words u s)) (codes "official "))
            (codes " official"))
          (codes " topic"))
        (codes "vevo"))

  -- strings.Cut gives the whole text where the separator is missing.
  abbrev pub named_artist : Candidate → Text
  named_artist c =
      if is_nothing c.artist
      then elim (cut_before c.title (codes " - ")) [ none ↦ c.title | some p ↦ p ]
      else c.artist

  unfoldable pub artist_channel : Candidate → Bool
  unfolding channel_identity cut_before
  artist_channel c =
      let artist = named_artist c in
      not (is_nothing artist)
      && (text_eq (channel_identity artist) (channel_identity c.channel)
          || text_eq (channel_identity artist) (channel_identity c.uploader))

  -- The switch of sourceBonus.
  unfoldable pub source_base : Candidate → ℕ
  unfolding artist_channel has
  source_base c =
      if c.verified && artist_channel c
      then 85
      else if has u (channel_text u c) (codes "topic")
          || contains (map u.lower c.description) (codes "provided to youtube by")
      then 75
      else if has u c.title (codes "official audio")
      then 60
      else if artist_channel c && contains (map u.lower (channel_text u c)) (codes "vevo")
      then 50
      else if has u c.title (codes "official video") || has u c.title (codes "official music video")
      then 35
      else if artist_channel c
      then 25
      else 0

  unfoldable pub source_bonus : Text → Candidate → ℤ
  unfolding source_base has
  source_bonus query c =
      if has u c.title (codes "video") && not (has u query (codes "video"))
      then (if leb 35 (source_base c) then pos 20 else sub_ℕ (source_base c) 20)
      else pos (source_base c)

  -- What one variant adds.
  unfoldable pub version_change : Text → Candidate → Text → ℤ
  unfolding has requested
  version_change query c variant =
      if requested u query variant
      then (if has u c.title variant then pos 100 else neg 60)
      else (if has u c.title variant then neg 100 else pos 0)

  unfoldable pub version_changes : Text → Candidate → List Text → ℤ
  unfolding version_change
  version_changes query c [] = pos 0
  version_changes query c (v ∷ vs) = version_change query c v +ℤ version_changes query c vs

  -- musicScoreBreakdown: nothing without a matched token.
  unfoldable pub music_score : Text → Candidate → Option Breakdown
  unfolding relevance scaled version_changes source_bonus
  music_score query c =
      let r = relevance query c in
      let versions = version_changes query c variants in
      let bonus = source_bonus query c in
      if ltb 0 r.0.matched
      then some (record {
        artist_score = (scaled r.0).0;
        exact_score = (scaled r.0).1;
        fuzzy_score = (scaled r.0).2;
        unmatched_penalty = r.1;
        version_score = versions;
        official_bonus = bonus;
        final_score = (relevant_score r +ℤ versions) +ℤ bonus;
      })
      else none

  -- Score.
  unfoldable pub score : Text → Candidate → Option ℤ
  unfolding music_score is_music
  score query c = if is_music u c then final (music_score query c) else none

  -- The loop of Select, with the best score so far.
  unfoldable pub select_from : Text → ℤ → Option Candidate → List Candidate → Option Candidate
  unfolding score
  select_from query best found [] = found
  select_from query best found (c ∷ cs) =
      select_from query (better (score query c) best)
        (if beats (score query c) best then some c else found) cs

  unfoldable pub select_best : Text → List Candidate → Option Candidate
  unfolding select_from
  select_best query cs = select_from query (neg 100000) none cs
