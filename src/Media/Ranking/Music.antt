-- ===== src/Media/Ranking/Music.antt =====
-- internal/media/ranking.go: the words of a text, and which candidates are music. Package unicode and
-- the folding of package strings are a parameter. A duration, in the source a float of seconds, is
-- counted in milliseconds.
use whiterun_music_bot.Base.{
  ℕ, ◌-◌, Bool, true, false, not, ◌&&◌, ◌||◌, Option, none, some, List, [], ◌∷◌, ◌++◌, map, length,
  drop, take, leb, ◌==◌, if◌then◌else◌,
}
use mathlib.Core.Option
use whiterun_music_bot.Media.Ranking.{Text, codes, text_eq, begins_with, contains}

pub record Unicode : Type 0 where
  pub lower : ℕ → ℕ
  pub is_word : ℕ → Bool
  pub is_space : ℕ → Bool
  pub equal_fold : Text → Text → Bool

-- Candidate, as far as ranking reads it.
pub record Candidate : Type 0 where
  pub id : Text
  pub title : Text
  pub channel : Text
  pub uploader : Text
  pub description : Text
  pub categories : List Text
  pub duration : ℕ
  pub artist : Text
  pub song : Text
  pub verified : Bool
  pub live : Bool
  pub live_status : Text

abbrev pub is_nothing : Text → Bool
is_nothing [] = true
is_nothing _ = false

abbrev pub flush_field : Text → List Text → List Text
flush_field [] rest = rest
flush_field (c ∷ t) rest = (c ∷ t) ∷ rest

-- strings.FieldsFunc, with the field read so far.
unfoldable pub fields_from : (ℕ → Bool) → Text → Text → List Text
fields_from separates now [] = flush_field now []
fields_from separates now (c ∷ s) =
    let rest = fields_from separates (if separates c then [] else now ++ c ∷ []) s in
    if separates c then flush_field now rest else rest

unfoldable pub join_words : List Text → Text
join_words [] = []
join_words (w ∷ []) = w
join_words (w ∷ v ∷ ws) = w ++ 32 ∷ join_words (v ∷ ws)

abbrev pub any : (Text → Bool) → List Text → Bool
any p [] = false
any p (x ∷ xs) = p x || any p xs

-- strings.Cut, the part before the separator.
unfoldable pub cut_before : Text → Text → Option Text
cut_before [] sep = if begins_with [] sep then some [] else none
cut_before (c ∷ s) sep =
    let rest = Option.map (◌∷◌ c) (cut_before s sep) in
    if begins_with (c ∷ s) sep then some [] else rest

abbrev pub has_suffix : Text → Text → Bool
has_suffix s t = leb (length t) (length s) && text_eq (drop (length s - length t) s) t

abbrev pub trim_prefix : Text → Text → Text
trim_prefix s t = if begins_with s t then drop (length t) s else s

abbrev pub trim_suffix : Text → Text → Text
trim_suffix s t = if has_suffix s t then take (length s - length t) s else s

-- Without the spaces; and without those at the start.
unfoldable pub without_spaces : Text → Text
without_spaces [] = []
without_spaces (c ∷ s) = if c == 32 then without_spaces s else c ∷ without_spaces s

unfoldable pub trim_left : (ℕ → Bool) → Text → Text
trim_left p [] = []
trim_left p (c ∷ s) = if p c then trim_left p s else c ∷ s

abbrev pub reverse_onto : Text → Text → Text
reverse_onto [] t = t
reverse_onto (c ∷ s) t = reverse_onto s (c ∷ t)

-- strings.TrimFunc.
unfoldable pub trim : (ℕ → Bool) → Text → Text
unfolding trim_left
trim p s = reverse_onto (trim_left p (reverse_onto (trim_left p s) [])) []

abbrev pub space : Text
space = 32 ∷ []

abbrev pub variants : List Text
variants = map codes (
    "live" ∷ "cover" ∷ "remix" ∷ "slowed" ∷ "reverb" ∷ "nightcore" ∷ "lyrics" ∷ "karaoke"
    ∷ "unplugged" ∷ "acoustic" ∷ [])

abbrev pub not_music : List Text
not_music = map codes (
    "podcast" ∷ "interview" ∷ "reaction" ∷ "reacts" ∷ "review" ∷ "tutorial" ∷ "documentary"
    ∷ "gameplay" ∷ "news" ∷ "shorts" ∷ "short" ∷ "full album" ∷ "complete album" ∷ [])

abbrev pub stop_words : List Text
stop_words = map codes (
    "the" ∷ "and" ∷ "official" ∷ "audio" ∷ "video" ∷ "music" ∷ "lyrics" ∷ "remastered" ∷ "hd" ∷ "4k"
    ∷ [])

module _ (u : Unicode) where
  unfoldable pub words : Text → Text
  unfolding fields_from join_words
  words s =
      32 ∷ (join_words (fields_from (λ (c : ℕ). not (u.is_word c)) [] (map u.lower s)) ++ space)

  unfoldable pub has : Text → Text → Bool
  unfolding words
  has s term = contains (words s) (words term)

  -- The channel's names as one text.
  abbrev pub channel_text : Candidate → Text
  channel_text c = c.channel ++ (space ++ c.uploader)

  unfoldable pub music_shape : Candidate → Bool
  unfolding has
  music_shape c =
      not (is_nothing c.title)
      && (leb 45000 c.duration
          && (leb c.duration 1200000
              && (not c.live
                  && (not (text_eq c.live_status (codes "is_upcoming"))
                      && (not (text_eq c.live_status (codes "is_live"))
                          && not (any (has (c.title ++ (space ++ channel_text c))) not_music))))))

  unfoldable pub is_music : Candidate → Bool
  unfolding music_shape has trim
  is_music c =
      music_shape c
      && (any (λ (t : Text). u.equal_fold t (codes "Music")) c.categories
          || ((not (is_nothing c.artist) && not (is_nothing c.song))
              || (has (channel_text c) (codes "topic")
                  || (has_suffix (map u.lower (trim u.is_space c.channel)) (codes "vevo")
                      || (has c.title (codes "official audio")
                          || (has c.title (codes "official video")
                              || (has c.title (codes "official music video")
                                  || contains (map u.lower c.description)
                                      (codes "provided to youtube by"))))))))

  unfoldable pub requested : Text → Text → Bool
  unfolding has
  requested query variant =
      has query variant
      || (text_eq variant (codes "live")
          && (has query (codes "unplugged") || has query (codes "concert")))

  abbrev pub kept : Text → List Text → List Text
  kept t rest = if any (text_eq t) stop_words then rest else t ∷ rest

  unfoldable pub without_stop_words : List Text → List Text
  without_stop_words [] = []
  without_stop_words (t ∷ ts) = kept t (without_stop_words ts)

  -- The only white space that `words` leaves is the one it puts in.
  unfoldable pub semantic_tokens : Text → List Text
  unfolding words fields_from without_stop_words
  semantic_tokens s = without_stop_words (fields_from (λ (c : ℕ). c == 32) [] (words s))
