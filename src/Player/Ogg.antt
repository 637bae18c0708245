-- ===== src/Player/Ogg.antt =====
-- internal/player/ogg.go: the Opus packets of an Ogg stream. The reader is the list of the bytes
-- that it still gives, and then ends; sending a packet succeeds or fails as a parameter says.
pub mod Segments
pub mod Total
pub mod Lacing
pub mod RoundTrip
pub mod Pages
use whiterun_music_bot.Base.{
  ℕ, zero, suc, ◌+◌, ◌%◌, Bool, true, false, not, ◌&&◌, ◌||◌, List, [], ◌∷◌, ◌++◌, Option, none,
  some, length, take, drop, get_or, ltb, leb, ◌==◌, if◌then◌else◌,
}

pub data OggError : Type 0 where
  eof unexpected_eof missing_opus_header invalid_ogg_stream invalid_ogg_continuation : OggError
  oversized_packet audio_before_header empty_audio_packet send_failed : OggError

abbrev pub max_packet : ℕ
max_packet = 65536

-- The loop's variables, and the packets that were sent.
pub record Demux : Type 0 where
  pub packet : List ℕ
  pub seen_head : Bool
  pub first : Bool
  pub sent : List (List ℕ)

abbrev pub start : Demux
start = record { packet = []; seen_head = false; first = true; sent = [] }

-- io.ReadFull: the bytes and what is left, or the error.
pub data Read : Type 0 where
  got : List ℕ → List ℕ → Read
  read_fails : OggError → Read

unfoldable pub read_full : ℕ → List ℕ → Read
read_full n input =
    if leb n (length input)
    then got (take n input) (drop n input)
    else if length input == 0
    then read_fails eof
    else read_fails unexpected_eof

-- bytes.HasPrefix.
unfoldable pub has_prefix : List ℕ → List ℕ → Bool
has_prefix bytes [] = true
has_prefix [] (p ∷ ps) = false
has_prefix (b ∷ bs) (p ∷ ps) = let rest = has_prefix bs ps in b == p && rest

abbrev pub opus_head : List ℕ
opus_head = 79 ∷ 112 ∷ 117 ∷ 115 ∷ 72 ∷ 101 ∷ 97 ∷ 100 ∷ []

abbrev pub opus_tags : List ℕ
opus_tags = 79 ∷ 112 ∷ 117 ∷ 115 ∷ 84 ∷ 97 ∷ 103 ∷ 115 ∷ []

abbrev pub ogg_s : List ℕ
ogg_s = 79 ∷ 103 ∷ 103 ∷ 83 ∷ []

-- What a part of the loop ends with: the rest of the input, or the end of the function.
pub data Flow : Type 0 where
  goes_on : Demux → List ℕ → Flow
  fails : Demux → OggError → Flow

-- The packet's last segment has been read.
unfoldable pub end_packet : (List ℕ → Bool) → Demux → List ℕ → Flow
end_packet send d0 rest =
    let d = record d0 { first = false } in
    let next = record d { packet = [] } in
    if has_prefix d.packet opus_head
    then goes_on (record next { seen_head = true }) rest
    else if has_prefix d.packet opus_tags
    then goes_on next rest
    else if not d.seen_head
    then fails d audio_before_header
    else if length d.packet == 0
    then fails d empty_audio_packet
    else if send d.packet
    then goes_on (record next { sent = d.sent ++ d.packet ∷ [] }) rest
    else fails d send_failed

-- A segment of the given size, once its bytes are read.
unfoldable pub add_segment : (List ℕ → Bool) → ℕ → Demux → Read → Flow
add_segment send size d (read_fails e) = fails d e
add_segment send size d (got bytes rest) =
    let grown = record d { packet = d.packet ++ bytes } in
    if size == 255 then goes_on grown rest else end_packet send grown rest

-- One turn of the inner loop.
unfoldable pub segment : (List ℕ → Bool) → ℕ → Demux → List ℕ → Flow
segment send size d input =
    if ltb max_packet (length d.packet + size)
    then fails d oversized_packet
    else add_segment send size d (read_full size input)

-- The inner loop.
unfoldable pub segments : (List ℕ → Bool) → List ℕ → Flow → Flow
segments send [] f = f
segments send (size ∷ sizes) (fails d e) = fails d e
segments send (size ∷ sizes) (goes_on d input) = segments send sizes (segment send size d input)

-- A page, once its header is read.
abbrev pub is_continued : List ℕ → Bool
is_continued header = get_or header 5 0 % 2 == 1

abbrev pub page_sizes : (List ℕ → Bool) → Demux → Read → Flow
page_sizes send d (read_fails e) = fails d e
page_sizes send d (got sizes rest) = segments send sizes (goes_on d rest)

abbrev pub same : Bool → Bool → Bool
same true b = b
same false b = not b

unfoldable pub page : (List ℕ → Bool) → List ℕ → Demux → List ℕ → Flow
page send header d rest =
    if not (has_prefix header ogg_s) || not (get_or header 4 0 == 0)
    then fails d invalid_ogg_stream
    else if not (same (is_continued header) (ltb 0 (length d.packet)))
    then fails d invalid_ogg_continuation
    else page_sizes send d (read_full (get_or header 26 0) rest)

-- The result of the function: the packets sent, and the error, if any.
pub record Demuxed : Type 0 where
  pub final : Demux
  pub error : Option OggError

-- The stream ended between pages.
unfoldable pub at_end : Demux → Demuxed
at_end d =
    if not (length d.packet == 0)
    then record { final = d; error = some unexpected_eof }
    else if not d.seen_head
    then record { final = d; error = some missing_opus_header }
    else record { final = d; error = none }

unfoldable pub header_fails : Demux → OggError → Demuxed
unfolding at_end
header_fails d eof = at_end d
header_fails d e = record { final = d; error = some e }

-- The outer loop; the fuel bounds the pages, and none is that it ran out.
unfoldable pub pages : (List ℕ → Bool) → ℕ → Flow → Option Demuxed
pages send fuel (fails d e) = some (record { final = d; error = some e })
pages send zero (goes_on d input) = none
pages send (suc fuel) (goes_on d input) = elim (read_full 27 input) [
  | got header rest ↦ pages send fuel (page send header d rest)
  | read_fails e ↦ some (header_fails d e)
]

-- oggPackets: every page takes at least 27 bytes, so the length of the input is fuel enough.
unfoldable pub ogg_packets : (List ℕ → Bool) → List ℕ → Option Demuxed
ogg_packets send input = pages send (length input + 1) (goes_on start input)
