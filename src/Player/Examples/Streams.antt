-- ===== src/Player/Examples/Streams.antt =====
-- Concrete inputs for the theorems on the Ogg reader and on timestamps.
use whiterun_music_bot.Base.{
  ℕ, ◌+◌, ◌≡◌, refl, Bool, true, false, List, [], ◌∷◌, none, some, arith, ◌==◌, if◌then◌else◌,
}
use whiterun_music_bot.Player.Seek.{parse_timestamp}
use whiterun_music_bot.Player.Ogg.{Demuxed, opus_head, opus_tags, ogg_packets, has_prefix}
use whiterun_music_bot.Player.Ogg.Segments.{AllAudio}
use whiterun_music_bot.Player.Ogg.Total.{IsResult, ogg_packets-IsResult}
use whiterun_music_bot.Player.Ogg.RoundTrip.{IsHeader, lace}
use whiterun_music_bot.Player.Ogg.Pages.{Marks, encode, ogg_packets-encode}

abbrev accepts : List ℕ → Bool
accepts p = true

abbrev two_packets : List (List ℕ)
two_packets = (1 ∷ 2 ∷ []) ∷ (3 ∷ []) ∷ []

-- The tags share a page with the first packet.
abbrev three_pages : List (List (List ℕ))
three_pages = (opus_head ∷ []) ∷ (opus_tags ∷ (1 ∷ 2 ∷ []) ∷ []) ∷ ((3 ∷ []) ∷ []) ∷ []

-- A stream that ends within a page.
ogg_packets-IsResult_example :
    (r : Demuxed) × ((ogg_packets accepts (79 ∷ 103 ∷ []) ≡ some r) × IsResult r)
ogg_packets-IsResult_example = ogg_packets-IsResult accepts (79 ∷ 103 ∷ [])

headers : IsHeader opus_head opus_tags
unfolding has_prefix
headers = record {
  head_first = refl;
  head_fits = omega arith;
  tags_next = refl;
  tags_only = refl;
  tags_fit = omega arith;
}

packets-AllAudio : AllAudio two_packets
unfolding has_prefix
packets-AllAudio = (
  record { nonempty = omega arith; bounded = omega arith; no_head = refl; no_tags = refl },
  (record { nonempty = omega arith; bounded = omega arith; no_head = refl; no_tags = refl }, tt),
)

-- The first of the three pages is marked as the stream's first and the last as its last.
abbrev stamped : ℕ → Marks
stamped k = record {
  flags = if k == 2 then 1 else (if k == 0 then 2 else 0);
  bytes = λ (i : ℕ). i + k;
}

ogg_packets-encode_example :
    (r : Demuxed) × ((ogg_packets accepts (encode stamped false three_pages) ≡ some r)
      × ((r.error ≡ none) × (r.final.sent ≡ two_packets)))
unfolding lace
ogg_packets-encode_example =
    ogg_packets-encode accepts stamped opus_head opus_tags two_packets three_pages headers
      packets-AllAudio (λ p. refl) refl

-- "1:05" and "1:60".
one_minute_five : parse_timestamp (49 ∷ 58 ∷ 48 ∷ 53 ∷ []) ≡ some 65000000000
unfolding parse_timestamp
one_minute_five = refl

sixty_seconds : parse_timestamp (49 ∷ 58 ∷ 54 ∷ 48 ∷ []) ≡ none
unfolding parse_timestamp
sixty_seconds = refl
