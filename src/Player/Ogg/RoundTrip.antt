-- ===== src/Player/Ogg/RoundTrip.antt =====
-- A stream of packets is read back: the segments of the packets, put on pages in any way.
use whiterun_music_bot.Base.{
  ℕ, zero, suc, ◌+◌, ◌≤◌, ◌≡◌, refl, ◌∙◌, Bool, true, false, List, [], ◌∷◌, ◌++◌, inl, inr, arith,
  length, take, drop, map, ltb, if◌then◌else◌, length-append, length-take, length-drop,
  take-append-drop, Bool-cases, ap,
}
use whiterun_music_bot.Player.Ogg.{
  Demux, start, goes_on, end_packet, max_packet, has_prefix, opus_head, opus_tags,
}
use whiterun_music_bot.Player.Ogg.Segments.{IsAudio, AllAudio}
use whiterun_music_bot.Player.Ogg.Lacing.{
  join, append_assoc, feed, feed-append, segment-full, segment-last,
}

not_ltb : (a b : ℕ) → ltb a b ≡ false → b ≤ a
not_ltb a b e = ground arith

append-nil {ℓ} : {A : Type ℓ} (xs : List A) → xs ≡ xs ++ []
append-nil [] = refl
append-nil (x ∷ xs) = ap (◌∷◌ x) (append-nil xs)

-- The segments of a packet; the length of the packet is fuel enough.
abbrev lace_fuel : ℕ → List ℕ → List (List ℕ)
lace_fuel zero p = p ∷ []
lace_fuel (suc fuel) p =
    let rest = lace_fuel fuel (drop 255 p) in
    if ltb (length p) 255 then p ∷ [] else take 255 p ∷ rest

unfoldable pub lace : List ℕ → List (List ℕ)
lace p = lace_fuel (length p) p

abbrev pub between : List (List ℕ) → Demux
between sent = record { packet = []; seen_head = true; first = false; sent = sent }

-- The headers of a stream, then the audio.
pub record IsHeader (head tags : List ℕ) : Type 0 where
  pub head_first : has_prefix head opus_head ≡ true
  pub head_fits : length head ≤ max_packet
  pub tags_next : has_prefix tags opus_tags ≡ true
  pub tags_only : has_prefix tags opus_head ≡ false
  pub tags_fit : length tags ≤ max_packet

module _ (send : List ℕ → Bool) where
  feed-lace_fuel :
      (fuel : ℕ) (p : List ℕ) (d : Demux)
      → length p ≤ fuel
      → length d.packet + length p ≤ max_packet
      → feed send (lace_fuel fuel p) (goes_on d [])
        ≡ end_packet send (record d { packet = d.packet ++ p }) []
  unfolding feed
  feed-lace_fuel zero p d h b = segment-last send d p (omega arith) b
  feed-lace_fuel (suc fuel) p d h b = elim (Bool-cases (ltb (length p) 255)) [
    | inl e ↦ rw e (segment-last send d p (ground arith) b)
    | inr e ↦
        let long = not_ltb (length p) 255 e in
        let n : length (take 255 p) ≡ 255 = omega (arith, length-take 255 p) in
        let next = record d { packet = d.packet ++ take 255 p } in
        let whole : (d.packet ++ take 255 p) ++ drop 255 p ≡ d.packet ++ p =
          append_assoc d.packet (take 255 p) (drop 255 p)
          ∙ ap (λ q. d.packet ++ q) (take-append-drop 255 p) in
        let size = length-append d.packet (take 255 p) in
        let more =
          feed-lace_fuel fuel (drop 255 p) next (omega (arith, length-drop 255 p))
            (omega (arith, length-drop 255 p, n, size)) in
        rw e (
          ap (feed send (lace_fuel fuel (drop 255 p)))
            (segment-full send d (take 255 p) n (omega arith))
          ∙ more
          ∙ ap (λ q. end_packet send (record d { packet = q }) []) whole)
  ]

  -- The segments of a packet make the packet.
  pub feed-lace :
      (p : List ℕ) (d : Demux)
      → d.packet ≡ []
      → length p ≤ max_packet
      → feed send (lace p) (goes_on d []) ≡ end_packet send (record d { packet = p }) []
  unfolding lace
  feed-lace p d e b =
      let fits : length d.packet + length p ≤ max_packet = rw e (omega arith) in
      let same : d.packet ++ p ≡ p = rw e refl in
      feed-lace_fuel (length p) p d (omega arith) fits
      ∙ ap (λ q. end_packet send (record d { packet = q }) []) same

  end_packet-audio :
      (p : List ℕ) (sent : List (List ℕ))
      → IsAudio p
      → send p ≡ true
      → end_packet send (record (between sent) { packet = p }) []
        ≡ goes_on (between (sent ++ p ∷ [])) []
  unfolding end_packet
  end_packet-audio p sent a ok = ground (arith, a.no_head, a.no_tags, a.nonempty)

  -- Packets that are audio are sent in order.
  feed-audio :
      (ps sent : List (List ℕ))
      → AllAudio ps
      → ((p : List ℕ) → send p ≡ true)
      → feed send (join (map lace ps)) (goes_on (between sent) [])
        ≡ goes_on (between (sent ++ ps)) []
  unfolding feed
  feed-audio [] sent a ok = ap (λ s. goes_on (between s) []) (append-nil sent)
  feed-audio (p ∷ ps) sent a ok =
      let once = feed-lace p (between sent) refl a.0.bounded ∙ end_packet-audio p sent a.0 (ok p) in
      let all = append_assoc sent (p ∷ []) ps in
      rw (feed-append send (lace p) (join (map lace ps)) (goes_on (between sent) []), once)
        (feed-audio ps (sent ++ p ∷ []) a.1 ok ∙ ap (λ s. goes_on (between s) []) all)

  end_packet-head :
      (p : List ℕ)
      → has_prefix p opus_head ≡ true
      → end_packet send (record start { packet = p }) [] ≡ goes_on (between []) []
  unfolding end_packet
  end_packet-head p h = rw h refl

  end_packet-tags :
      (p : List ℕ)
      → has_prefix p opus_tags ≡ true
      → has_prefix p opus_head ≡ false
      → end_packet send (record (between []) { packet = p }) [] ≡ goes_on (between []) []
  unfolding end_packet
  end_packet-tags p h n = rw (n, h) refl

  pub feed-stream :
      (head tags : List ℕ) (ps : List (List ℕ))
      → IsHeader head tags
      → AllAudio ps
      → ((p : List ℕ) → send p ≡ true)
      → feed send (join (map lace (head ∷ tags ∷ ps))) (goes_on start []) ≡ goes_on (between ps) []
  unfolding feed
  feed-stream head tags ps h a ok =
      let first = feed-lace head start refl h.head_fits ∙ end_packet-head head h.head_first in
      let second =
        feed-lace tags (between []) refl h.tags_fit
        ∙ end_packet-tags tags h.tags_next h.tags_only in
      rw
        (
          feed-append send (lace head) (lace tags ++ join (map lace ps)) (goes_on start []),
          first,
          feed-append send (lace tags) (join (map lace ps)) (goes_on (between []) []),
          second,
        )
        (feed-audio ps [] a ok)
