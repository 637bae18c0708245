-- ===== src/Player/Ogg/Pages.antt =====
-- A stream of packets, its segments put on pages in any way, is read back.
use whiterun_music_bot.Base.{
  ℕ, zero, suc, ◌+◌, ◌*◌, ◌%◌, ◌≤◌, ◌<◌, ◌≡◌, refl, sym, ◌∙◌, Bool, true, false, List, [], ◌∷◌,
  ◌++◌, none, some, arith, length, map, ltb, ◌==◌, if◌then◌else◌, length-append, length-map, ap,
}
use whiterun_music_bot.Player.Ogg.{
  OggError, Demux, start, got, read_full, Flow, goes_on, fails, segment, ogg_s, page, pages,
  ogg_packets, Demuxed, at_end, header_fails, has_prefix,
}
use whiterun_music_bot.Player.Ogg.Segments.{AllAudio, rest_of}
use whiterun_music_bot.Player.Ogg.Lacing.{
  join, append_assoc, read_full-append, with_rest, feed, segments-feed, feed-append, pending_of,
  segment-rest_of, segment-pending,
}
use whiterun_music_bot.Player.Ogg.RoundTrip.{lace, IsHeader, feed-stream, between}

-- Whether the last segment of a page is full, so that the next page goes on with its packet.
abbrev pub ends_full : Bool → List (List ℕ) → Bool
ends_full b [] = b
ends_full b (s ∷ ss) = ends_full (length s == 255) ss

-- What a page's header says that the reader does not need: the flags above the lowest one, those of
-- the stream's first and last page among them, and the twenty bytes of the granule position, the
-- stream's serial number, the page's number and the checksum.
pub record Marks : Type 0 where
  pub flags : ℕ
  pub bytes : ℕ → ℕ

abbrev pub twenty : (ℕ → ℕ) → List ℕ
twenty b =
    b 0
    ∷ b 1
    ∷ b 2
    ∷ b 3
    ∷ b 4
    ∷ b 5
    ∷ b 6
    ∷ b 7
    ∷ b 8
    ∷ b 9
    ∷ b 10
    ∷ b 11
    ∷ b 12
    ∷ b 13
    ∷ b 14
    ∷ b 15
    ∷ b 16
    ∷ b 17
    ∷ b 18
    ∷ b 19
    ∷ []

-- The header of a page; the lowest flag says that it goes on with a packet.
abbrev pub header_of : Marks → Bool → List (List ℕ) → List ℕ
header_of m continued ss =
    ogg_s ++ 0 ∷ ((if continued then 1 else 0) + 2 * m.flags) ∷ twenty m.bytes ++ length ss ∷ []

-- A page: its header, the sizes of its segments, and the segments.
unfoldable pub encode_page : Marks → Bool → List (List ℕ) → List ℕ
encode_page m continued ss = header_of m continued ss ++ (map length ss ++ join ss)

-- The pages of a stream; `marks k` are those of the page that k others follow.
unfoldable pub encode : (ℕ → Marks) → Bool → List (List (List ℕ)) → List ℕ
unfolding encode_page
encode marks continued [] = []
encode marks continued (ss ∷ more) =
    encode_page (marks (length more)) continued ss ++ encode marks (ends_full continued ss) more

-- The lowest flag can be read whatever the others are.
lowest : (c n : ℕ) → c < 2 → (c + 2 * n) % 2 ≡ c
lowest c n h = omega arith

read_full-middle :
    (n : ℕ) (xs ys zs : List ℕ) → n ≡ length xs → read_full n ((xs ++ ys) ++ zs) ≡ got xs (ys ++ zs)
read_full-middle n xs ys zs e = rw (e, append_assoc xs ys zs) (read_full-append xs (ys ++ zs))

module _ (send : List ℕ → Bool) where
  feed-pending :
      (ss : List (List ℕ)) (f : Flow) (b : Bool)
      → pending_of b f ≡ b
      → pending_of (ends_full b ss) (feed send ss f) ≡ ends_full b ss
  unfolding feed
  feed-pending [] f b e = e
  feed-pending (s ∷ ss) (fails d x) b e = refl
  feed-pending (s ∷ ss) (goes_on d r) b e =
      feed-pending ss (segment send (length s) d (s ++ [])) (length s == 255)
        (segment-pending send d s)

  feed-rest_of : (ss : List (List ℕ)) (f : Flow) → rest_of f ≡ [] → rest_of (feed send ss f) ≡ []
  unfolding feed
  feed-rest_of [] f e = e
  feed-rest_of (s ∷ ss) (fails d x) e = refl
  feed-rest_of (s ∷ ss) (goes_on d r) e =
      feed-rest_of ss (segment send (length s) d (s ++ [])) (segment-rest_of send d s)

  page-header_of :
      (m : Marks) (c : Bool) (ss : List (List ℕ)) (d : Demux) (more : List ℕ)
      → ltb 0 (length d.packet) ≡ c
      → page send (header_of m c ss) d ((map length ss ++ join ss) ++ more)
        ≡ with_rest more (feed send ss (goes_on d []))
  unfolding page has_prefix
  page-header_of m true ss d more e =
      rw
        (
          e,
          lowest 1 m.flags (omega arith),
          read_full-middle (length ss) (map length ss) (join ss) more (sym (length-map length ss)),
        )
        (segments-feed send ss (goes_on d []) more refl)
  page-header_of m false ss d more e =
      rw
        (
          e,
          lowest 0 m.flags (omega arith),
          read_full-middle (length ss) (map length ss) (join ss) more (sym (length-map length ss)),
        )
        (segments-feed send ss (goes_on d []) more refl)

  -- One page is read, and the loop goes on with the rest of the stream.
  pages-encode_page :
      (fuel : ℕ) (m : Marks) (c : Bool) (ss : List (List ℕ)) (d : Demux) (more : List ℕ)
      → ltb 0 (length d.packet) ≡ c
      → pages send (suc fuel) (goes_on d (encode_page m c ss ++ more))
        ≡ pages send fuel (with_rest more (feed send ss (goes_on d [])))
  unfolding pages encode_page
  pages-encode_page fuel m c ss d more e =
      let read = read_full-middle 27 (header_of m c ss) (map length ss ++ join ss) more refl in
      rw (read, pages) (ap (pages send fuel) (page-header_of m c ss d more e))

  pages-end : (fuel : ℕ) (d : Demux) → pages send (suc fuel) (goes_on d []) ≡ some (at_end d)
  unfolding pages read_full header_fails
  pages-end fuel d = refl

  feed-fails :
      (ss : List (List ℕ)) (d : Demux) (x : OggError) → feed send ss (fails d x) ≡ fails d x
  unfolding feed
  feed-fails [] d x = refl
  feed-fails (s ∷ ss) d x = refl

  pages-encode :
      (marks : ℕ → Marks) (pss : List (List (List ℕ))) (fuel : ℕ) (c : Bool) (g : Flow) (e : Demux)
      → rest_of g ≡ []
      → pending_of c g ≡ c
      → feed send (join pss) g ≡ goes_on e []
      → length pss < fuel
      → pages send fuel (with_rest (encode marks c pss) g) ≡ some (at_end e)
  unfolding encode feed
  pages-encode marks pss zero c g e r p f h = absurd (omega arith)
  pages-encode marks pss (suc fuel) c (fails d x) e r p f h =
      let failed = feed-fails (join pss) d x in cc
  pages-encode marks [] (suc fuel) c (goes_on d s) e r p f h = rw r (pages-end fuel d ∙ cc)
  pages-encode marks (ss ∷ pss) (suc fuel) c (goes_on d s) e r p f h =
      let next = feed send ss (goes_on d []) in
      let pending = feed-pending ss (goes_on d []) c p in
      rw r (
        pages-encode_page fuel (marks (length pss)) c ss d (encode marks (ends_full c ss) pss) p
        ∙ pages-encode marks pss fuel (ends_full c ss) next e (feed-rest_of ss (goes_on d []) refl)
            pending
            (sym (feed-append send ss (join pss) (goes_on d []))
              ∙ ap (λ z. feed send (ss ++ join pss) (goes_on d z)) (sym r)
              ∙ f)
            (omega arith))

length-encode :
    (marks : ℕ → Marks) (pss : List (List (List ℕ))) (c : Bool)
    → length pss ≤ length (encode marks c pss)
unfolding encode encode_page
length-encode marks [] c = omega arith
length-encode marks (ss ∷ pss) c = omega (
  arith,
  length-encode marks pss (ends_full c ss),
  length-append (encode_page (marks (length pss)) c ss) (encode marks (ends_full c ss) pss),
)

at_end-between :
    (ps : List (List ℕ))
    → ((at_end (between ps)).error ≡ none) × ((at_end (between ps)).final.sent ≡ ps)
unfolding at_end
at_end-between ps = (refl, refl)

-- A stream of a head, tags and audio packets, cut into segments that are put on pages in any way,
-- each page with its header and whatever other flags, numbers and checksum it has there, is read to its end without an error when every send succeeds, and
-- what is sent is the audio packets in order.
pub ogg_packets-encode :
    (send : List ℕ → Bool) (marks : ℕ → Marks) (head tags : List ℕ) (ps : List (List ℕ))
    (pss : List (List (List ℕ)))
    → IsHeader head tags
    → AllAudio ps
    → ((p : List ℕ) → send p ≡ true)
    → join pss ≡ join (map lace (head ∷ tags ∷ ps))
    → (r : Demuxed) × ((ogg_packets send (encode marks false pss) ≡ some r)
        × ((r.error ≡ none) × (r.final.sent ≡ ps)))
unfolding ogg_packets
ogg_packets-encode send marks head tags ps pss h a ok e =
    let fed = ap (λ s. feed send s (goes_on start [])) e ∙ feed-stream send head tags ps h a ok in
    let read =
      pages-encode send marks pss (length (encode marks false pss) + 1) false (goes_on start [])
        (between ps) refl refl fed (omega (arith, length-encode marks pss false)) in
    (at_end (between ps), (read, at_end-between ps))
