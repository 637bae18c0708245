-- ===== src/Player/Ogg/Total.antt =====
-- The reader comes to an end on every stream, and its result is sound.
use whiterun_music_bot.Base.{
  ℕ, zero, suc, ◌+◌, ◌≤◌, ◌<◌, ◌≡◌, refl, Bool, true, List, [], ◌∷◌, ◌++◌, some, ◌⊎◌, inl, inr,
  arith, length, take, drop, get_or, is_some, leb, ◌==◌, length-drop, Bool-cases,
}
use whiterun_music_bot.Player.Ogg.{
  Demux, start, read_full, Flow, goes_on, fails, end_packet, add_segment, segment, segments, page,
  Demuxed, at_end, header_fails, pages, ogg_packets,
}
use whiterun_music_bot.Player.Ogg.Segments.{Sound, demux_of, rest_of, page-Sound}

-- A result that is sound, and successful only when a head was seen and no packet is cut short.
pub record IsResult (r : Demuxed) : Type 0 where
  pub sound : Sound r.final
  pub complete :
      (is_some r.error ≡ true) ⊎ ((r.final.seen_head ≡ true) × (length r.final.packet ≡ 0))

module _ (send : List ℕ → Bool) where
  -- What is left to read never grows.
  end_packet-rest :
      (d : Demux) (rest : List ℕ) → length (rest_of (end_packet send d rest)) ≤ length rest
  unfolding end_packet
  end_packet-rest d rest = ground arith

  add_segment-rest :
      (size : ℕ) (d : Demux) (input : List ℕ)
      → length (rest_of (add_segment send size d (read_full size input))) ≤ length input
  unfolding add_segment read_full
  add_segment-rest size d input = ground (
    arith,
    length-drop size input,
    end_packet-rest (record d { packet = d.packet ++ take size input }) (drop size input),
  )

  segment-rest :
      (size : ℕ) (d : Demux) (input : List ℕ)
      → length (rest_of (segment send size d input)) ≤ length input
  unfolding segment
  segment-rest size d input = ground (arith, add_segment-rest size d input)

  segments-rest :
      (sizes : List ℕ) (f : Flow) → length (rest_of (segments send sizes f)) ≤ length (rest_of f)
  unfolding segments
  segments-rest [] f = omega arith
  segments-rest (size ∷ sizes) (fails d e) = omega arith
  segments-rest (size ∷ sizes) (goes_on d input) =
      omega (arith, segments-rest sizes (segment send size d input), segment-rest size d input)

  page-rest :
      (header : List ℕ) (d : Demux) (rest : List ℕ)
      → length (rest_of (page send header d rest)) ≤ length rest
  unfolding page read_full
  page-rest header d rest = ground (
    arith,
    length-drop (get_or header 26 0) rest,
    segments-rest (take (get_or header 26 0) rest) (goes_on d (drop (get_or header 26 0) rest)),
  )

  at_end-final : (d : Demux) → (at_end d).final ≡ d
  unfolding at_end
  at_end-final d = ground arith

  at_end_complete :
      (d : Demux)
      → (is_some (at_end d).error ≡ true)
        ⊎ (((at_end d).final.seen_head ≡ true) × (length (at_end d).final.packet ≡ 0))
  unfolding at_end
  at_end_complete d = ground arith

  at_end-IsResult : (d : Demux) → Sound d → IsResult (at_end d)
  at_end-IsResult d v = record { sound = rw (at_end-final d) v; complete = at_end_complete d }

  pages-IsResult :
      (fuel : ℕ) (f : Flow)
      → Sound (demux_of f)
      → length (rest_of f) < fuel
      → (r : Demuxed) × ((pages send fuel f ≡ some r) × IsResult r)
  unfolding pages read_full header_fails
  pages-IsResult fuel (fails d e) v h = (_, (refl, record { sound = v; complete = inl refl }))
  pages-IsResult zero (goes_on d input) v h = absurd (omega arith)
  pages-IsResult (suc fuel) (goes_on d input) v h = elim (Bool-cases (leb 27 (length input))) [
    | inl e ↦
        let next = page send (take 27 input) d (drop 27 input) in
        let shorter = page-rest (take 27 input) d (drop 27 input) in
        rw (e, pages)
          (pages-IsResult fuel next (page-Sound send (take 27 input) d (drop 27 input) v)
            (ground (arith, shorter, length-drop 27 input)))
    | inr e ↦ elim (Bool-cases (length input == 0)) [
      | inl z ↦ rw (e, z, pages) (at_end d, (refl, at_end-IsResult d v))
      | inr z ↦ rw (e, z, pages) (_, (refl, record { sound = v; complete = inl refl }))
    ]
  ]

  -- On every stream the reader comes to an end, and all that it has sent by then are non-empty
  -- packets of at most 65,536 bytes, neither heads nor tags, and none before a head; without an
  -- error there was a head and no packet is left incomplete.
  pub ogg_packets-IsResult :
      (input : List ℕ) → (r : Demuxed) × ((ogg_packets send input ≡ some r) × IsResult r)
  unfolding ogg_packets
  ogg_packets-IsResult input =
      pages-IsResult (length input + 1) (goes_on start input)
        (record { bounded = omega arith; audio = tt; headed = inr refl }) (omega arith)
