-- ===== src/Player/Ogg/Segments.antt =====
-- What holds of every stream: the reader ends, and it sends only sound packets.
use whiterun_music_bot.Base.{
  ℕ, ◌+◌, ◌≤◌, ◌<◌, ◌≡◌, Bool, true, false, not, ◌&&◌, ◌||◌, List, [], ◌∷◌, ◌++◌, ◌⊎◌, inl, inr,
  arith, length, take, drop, get_or, min, ltb, leb, ◌==◌, length-append, length-take, Bool-cases,
}
use whiterun_music_bot.Player.Ogg.{
  Demux, Read, got, read_fails, read_full, has_prefix, opus_head, opus_tags, Flow, goes_on, fails,
  end_packet, add_segment, segment, segments, page, page_sizes, is_continued, same, ogg_s,
  max_packet,
}

-- The packets that may be sent.
pub record IsAudio (p : List ℕ) : Type 0 where
  pub nonempty : 0 < length p
  pub bounded : length p ≤ max_packet
  pub no_head : has_prefix p opus_head ≡ false
  pub no_tags : has_prefix p opus_tags ≡ false

abbrev pub AllAudio : List (List ℕ) → Type 0
AllAudio [] = Unit {0}
AllAudio (p ∷ ps) = IsAudio p × AllAudio ps

AllAudio-append :
    (ps : List (List ℕ)) (p : List ℕ) → AllAudio ps → IsAudio p → AllAudio (ps ++ p ∷ [])
AllAudio-append [] p a b = (b, tt)
AllAudio-append (q ∷ ps) p a b = (a.0, AllAudio-append ps p a.1 b)

-- The packet in the making is bounded, all that was sent is audio, and it was sent after a head.
pub record Sound (d : Demux) : Type 0 where
  pub bounded : length d.packet ≤ max_packet
  pub audio : AllAudio d.sent
  pub headed : (d.seen_head ≡ true) ⊎ (d.sent ≡ [])

abbrev pub demux_of : Flow → Demux
demux_of (goes_on d rest) = d
demux_of (fails d e) = d

abbrev pub rest_of : Flow → List ℕ
rest_of (goes_on d rest) = rest
rest_of (fails d e) = []

module _ (send : List ℕ → Bool) where
  end_packet-headed :
      (d : Demux) (rest : List ℕ)
      → (d.seen_head ≡ true) ⊎ (d.sent ≡ [])
      → ((demux_of (end_packet send d rest)).seen_head ≡ true)
        ⊎ ((demux_of (end_packet send d rest)).sent ≡ [])
  unfolding end_packet
  end_packet-headed d rest h = ground arith

  end_packet-bounded :
      (d : Demux) (rest : List ℕ)
      → length d.packet ≤ max_packet
      → length (demux_of (end_packet send d rest)).packet ≤ max_packet
  unfolding end_packet
  end_packet-bounded d rest h = ground arith

  -- Either nothing is sent, or the packet, which is audio.
  end_packet-sent :
      (d : Demux) (rest : List ℕ)
      → length d.packet ≤ max_packet
      → ((demux_of (end_packet send d rest)).sent ≡ d.sent)
        ⊎ (((demux_of (end_packet send d rest)).sent ≡ d.sent ++ d.packet ∷ []) × IsAudio d.packet)
  unfolding end_packet
  end_packet-sent d rest h = elim (Bool-cases (has_prefix d.packet opus_head)) [
    | inl p ↦ inl (ground arith)
    | inr p ↦ elim (Bool-cases (has_prefix d.packet opus_tags)) [
      | inl q ↦ inl (ground arith)
      | inr q ↦ elim (Bool-cases (length d.packet == 0)) [
        | inl z ↦ inl (ground arith)
        | inr z ↦ elim (Bool-cases (d.seen_head && send d.packet)) [
          | inl s ↦ inr (
            ground arith,
            record { nonempty = ground arith; bounded = h; no_head = p; no_tags = q },
          )
          | inr s ↦ inl (ground arith)
        ]
      ]
    ]
  ]

  end_packet-Sound :
      (d : Demux) (rest : List ℕ) → Sound d → Sound (demux_of (end_packet send d rest))
  end_packet-Sound d rest v = record {
    bounded = end_packet-bounded d rest v.bounded;
    audio = elim (end_packet-sent d rest v.bounded) [
      | inl e ↦ rw e v.audio
      | inr (e, a) ↦ rw e (AllAudio-append d.sent d.packet v.audio a)
    ];
    headed = end_packet-headed d rest v.headed;
  }

  grown-Sound :
      (d : Demux) (bytes : List ℕ) (size n : ℕ)
      → Sound d
      → length d.packet + size ≤ max_packet
      → length bytes ≡ min size n
      → Sound (record d { packet = d.packet ++ bytes })
  grown-Sound d bytes size n v h e = record {
    bounded = omega (arith, length-append d.packet bytes);
    audio = v.audio;
    headed = v.headed;
  }

  add_segment-Sound :
      (size : ℕ) (d : Demux) (input : List ℕ)
      → Sound d
      → length d.packet + size ≤ max_packet
      → Sound (demux_of (add_segment send size d (read_full size input)))
  unfolding add_segment read_full
  add_segment-Sound size d input v h = elim (Bool-cases (leb size (length input))) [
    | inl e ↦
        let grown = record d { packet = d.packet ++ take size input } in
        let w = grown-Sound d (take size input) size (length input) v h (length-take size input) in
        elim (Bool-cases (size == 255)) [
          | inl f ↦ rw (e, f) w
          | inr f ↦ rw (e, f) (end_packet-Sound grown (drop size input) w)
        ]
    | inr e ↦ elim (Bool-cases (length input == 0)) [ inl f ↦ rw (e, f) v | inr f ↦ rw (e, f) v ]
  ]

  segment-Sound :
      (size : ℕ) (d : Demux) (input : List ℕ)
      → Sound d
      → Sound (demux_of (segment send size d input))
  unfolding segment
  segment-Sound size d input v = elim (Bool-cases (ltb max_packet (length d.packet + size))) [
    | inl e ↦ rw e v
    | inr e ↦ rw e (add_segment-Sound size d input v (ground arith))
  ]

  segments-Sound :
      (sizes : List ℕ) (f : Flow) → Sound (demux_of f) → Sound (demux_of (segments send sizes f))
  unfolding segments
  segments-Sound [] f v = v
  segments-Sound (size ∷ sizes) (fails d e) v = v
  segments-Sound (size ∷ sizes) (goes_on d input) v =
      segments-Sound sizes (segment send size d input) (segment-Sound size d input v)

  page_sizes-Sound : (d : Demux) (r : Read) → Sound d → Sound (demux_of (page_sizes send d r))
  page_sizes-Sound d (read_fails e) v = v
  page_sizes-Sound d (got sizes rest) v = segments-Sound sizes (goes_on d rest) v

  pub page-Sound :
      (header : List ℕ) (d : Demux) (rest : List ℕ)
      → Sound d
      → Sound (demux_of (page send header d rest))
  unfolding page
  page-Sound header d rest v =
      elim (Bool-cases (not (has_prefix header ogg_s) || not (get_or header 4 0 == 0))) [
        | inl e ↦ rw e v
        | inr e ↦ elim (Bool-cases (not (same (is_continued header) (ltb 0 (length d.packet))))) [
          | inl f ↦ rw (e, f) v
          | inr f ↦ rw (e, f) (page_sizes-Sound d (read_full (get_or header 26 0) rest) v)
        ]
      ]
