-- ===== src/Player/Ogg/Lacing.antt =====
-- The reader on whole pages: what it does with the segments of a page and of a packet.
use whiterun_music_bot.Base.{
  ℕ, ◌+◌, ◌≤◌, ◌<◌, ◌≡◌, refl, sym, Bool, true, false, List, [], ◌∷◌, ◌++◌, arith, length, drop,
  map, ltb, leb, ◌==◌, length-append, take-length-append, ap,
}
use whiterun_music_bot.Player.Ogg.Segments.{rest_of}
use whiterun_music_bot.Player.Ogg.{
  Demux, got, read_full, Flow, goes_on, fails, end_packet, add_segment, segment, segments,
  max_packet,
}

abbrev pub join {ℓ} : {A : Type ℓ} → List (List A) → List A
join [] = []
join (xs ∷ xss) = xs ++ join xss

pub append_assoc {ℓ} : {A : Type ℓ} (xs ys zs : List A) → (xs ++ ys) ++ zs ≡ xs ++ (ys ++ zs)
append_assoc [] ys zs = refl
append_assoc (x ∷ xs) ys zs = ap (◌∷◌ x) (append_assoc xs ys zs)

pub join-append {ℓ} :
    {A : Type ℓ} (xss yss : List (List A)) → join (xss ++ yss) ≡ join xss ++ join yss
join-append [] yss = refl
join-append (xs ∷ xss) yss = rw (join-append xss yss) (sym (append_assoc xs (join xss) (join yss)))

pub drop-length-append {ℓ} : {A : Type ℓ} (xs ys : List A) → drop (length xs) (xs ++ ys) ≡ ys
drop-length-append [] ys = refl
drop-length-append (x ∷ xs) ys = drop-length-append xs ys

fits {ℓ} : {A : Type ℓ} (xs ys : List A) → leb (length xs) (length (xs ++ ys)) ≡ true
fits xs ys = ground (arith, length-append xs ys)

pub read_full-append : (xs ys : List ℕ) → read_full (length xs) (xs ++ ys) ≡ got xs ys
unfolding read_full
read_full-append xs ys = rw (fits xs ys, take-length-append xs ys, drop-length-append xs ys) refl

-- More input after the segment changes nothing but the rest.
abbrev pub with_rest : List ℕ → Flow → Flow
with_rest more (goes_on d rest) = goes_on d (rest ++ more)
with_rest more (fails d e) = fails d e

-- Whether a packet is pending, or `b` after an error.
abbrev pub pending_of : Bool → Flow → Bool
pending_of b (goes_on d rest) = ltb 0 (length d.packet)
pending_of b (fails d e) = b

module _ (send : List ℕ → Bool) where
  end_packet-with_rest :
      (d : Demux) (more : List ℕ) → end_packet send d more ≡ with_rest more (end_packet send d [])
  unfolding end_packet
  end_packet-with_rest d more = ground arith

  segment-append :
      (d : Demux) (s more : List ℕ)
      → segment send (length s) d (s ++ more) ≡ with_rest more (segment send (length s) d (s ++ []))
  unfolding segment add_segment
  segment-append d s more =
      rw (read_full-append s more, read_full-append s [])
        (ground (arith, end_packet-with_rest (record d { packet = d.packet ++ s }) more))

  -- The segments one after the other, each with its own bytes.
  unfoldable pub feed : List (List ℕ) → Flow → Flow
  feed [] f = f
  feed (s ∷ ss) (fails d e) = fails d e
  feed (s ∷ ss) (goes_on d rest) = feed ss (segment send (length s) d (s ++ []))

  end_packet-rest_of : (d : Demux) → rest_of (end_packet send d []) ≡ []
  unfolding end_packet
  end_packet-rest_of d = ground arith

  pub segment-rest_of :
      (d : Demux) (s : List ℕ) → rest_of (segment send (length s) d (s ++ [])) ≡ []
  unfolding segment add_segment
  segment-rest_of d s =
      rw (read_full-append s [])
        (ground (arith, end_packet-rest_of (record d { packet = d.packet ++ s })))

  -- The inner loop over a page whose segments are `ss`.
  pub segments-feed :
      (ss : List (List ℕ)) (f : Flow) (more : List ℕ)
      → rest_of f ≡ []
      → segments send (map length ss) (with_rest (join ss ++ more) f) ≡ with_rest more (feed ss f)
  unfolding segments feed
  segments-feed [] f more e = refl
  segments-feed (s ∷ ss) (fails d x) more e = refl
  segments-feed (s ∷ ss) (goes_on d rest) more e =
      rw (e, append_assoc s (join ss) more, segment-append d s (join ss ++ more))
        (segments-feed ss (segment send (length s) d (s ++ [])) more (segment-rest_of d s))

  pub feed-append : (ss ts : List (List ℕ)) (f : Flow) → feed (ss ++ ts) f ≡ feed ts (feed ss f)
  unfolding feed
  feed-append [] ts f = refl
  feed-append (s ∷ ss) [] (fails d e) = refl
  feed-append (s ∷ ss) (t ∷ ts) (fails d e) = refl
  feed-append (s ∷ ss) ts (goes_on d rest) = feed-append ss ts (segment send (length s) d (s ++ []))

  end_packet-pending : (d : Demux) → pending_of false (end_packet send d []) ≡ false
  unfolding end_packet
  end_packet-pending d = ground arith

  -- After a segment of 255 bytes a packet is pending, after a shorter one none is.
  pub segment-pending :
      (d : Demux) (s : List ℕ)
      → pending_of (length s == 255) (segment send (length s) d (s ++ [])) ≡ (length s == 255)
  unfolding segment add_segment
  segment-pending d s = rw (read_full-append s []) (
      ground
        (arith, end_packet-pending (record d { packet = d.packet ++ s }), length-append d.packet s))

  -- The segments of a packet: full ones and a shorter one, the packet in between being `d.packet`.
  pub segment-full :
      (d : Demux) (s : List ℕ)
      → length s ≡ 255
      → length d.packet + 255 ≤ max_packet
      → segment send (length s) d (s ++ []) ≡ goes_on (record d { packet = d.packet ++ s }) []
  unfolding segment add_segment
  segment-full d s e h = rw (read_full-append s []) (ground arith)

  pub segment-last :
      (d : Demux) (s : List ℕ)
      → length s < 255
      → length d.packet + length s ≤ max_packet
      → segment send (length s) d (s ++ [])
        ≡ end_packet send (record d { packet = d.packet ++ s }) []
  unfolding segment add_segment
  segment-last d s e h = rw (read_full-append s []) (ground arith)
