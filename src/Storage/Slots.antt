-- ===== src/Storage/Slots.antt =====
-- internal/storage/physical_linux.go: the two slots of the quota's control file. A state is saved
-- into the slot its sequence number selects, with a length and a checksum, so that a torn write
-- leaves the other slot as it was. The JSON codec and the checksum are parameters.
pub mod Laws
pub mod Crash
pub mod Saves
use whiterun_music_bot.Base.{
  ℕ, ◌+◌, ◌-◌, ◌*◌, ◌/◌, ◌%◌, ◌^◌, Bool, true, false, List, [], ◌∷◌, ◌++◌, Option, none, some,
  String, length, take, drop, replicate, ltb, ◌==◌, if◌then◌else◌, inc64,
}

-- CatalogChannel.
pub record CatalogChannel : Type 0 where
  pub guild : String
  pub channel : String
  pub commands : ℕ

pub record PhysicalEvent : Type 0 where
  pub pending : Bool
  pub delivered : Bool
  pub attempts : ℕ
  pub retry : ℕ
  pub used : ℕ
  pub channel : CatalogChannel

abbrev pub no_event : PhysicalEvent
no_event = record {
  pending = false;
  delivered = false;
  attempts = 0;
  retry = 0;
  used = 0;
  channel = record { guild = ""; channel = ""; commands = 0 };
}

pub record PhysicalState : Type 0 where
  pub sequence : ℕ
  pub limit : ℕ
  pub base : ℕ
  pub episode : ℕ
  pub warn : PhysicalEvent
  pub full : PhysicalEvent
  pub armed : Bool
  pub exhausted : Bool

abbrev pub physical_slot : ℕ
physical_slot = 4096

-- binary.LittleEndian.PutUint32 and Uint32.
abbrev pub put_uint32 : ℕ → List ℕ
put_uint32 n = n % 256 ∷ n / 256 % 256 ∷ n / 65536 % 256 ∷ n / 16777216 % 256 ∷ []

abbrev pub uint32 : List ℕ → ℕ
uint32 (a ∷ b ∷ c ∷ d ∷ _) = a + 256 * b + 65536 * c + 16777216 * d
uint32 _ = 0

-- binary.LittleEndian.PutUint64.
abbrev pub put_uint64 : ℕ → List ℕ
put_uint64 n = put_uint32 (n % 2 ^ 32) ++ put_uint32 (n / 2 ^ 32)

-- The control file: what a read of each slot gives, none when it fails.
pub record ControlFile : Type 0 where
  pub even : Option (List ℕ)
  pub odd : Option (List ℕ)

-- Which slot a sequence number selects.
abbrev pub slot_of : ℕ → ControlFile → Option (List ℕ)
slot_of sequence f = if sequence % 2 == 0 then f.even else f.odd

abbrev pub other_slot : ℕ → ControlFile → Option (List ℕ)
other_slot sequence f = if sequence % 2 == 0 then f.odd else f.even

abbrev pub put_slot : ℕ → Option (List ℕ) → ControlFile → ControlFile
put_slot sequence b f = if sequence % 2 == 0 then record f { even = b } else record f { odd = b }

-- What the next write of a slot does: it lands, it fails and leaves some bytes, or its sync fails.
pub data SlotWrite : Type 0 where
  lands : SlotWrite
  tears : Option (List ℕ) → SlotWrite
  unsynced : SlotWrite

-- The saved state of the quota, the file behind it, and the outcomes of its next writes.
pub record Saved : Type 0 where
  pub state : PhysicalState
  pub file : ControlFile
  pub writes : List SlotWrite

-- A limit is needed.
abbrev pub limited : Option PhysicalState → Option PhysicalState
limited none = none
limited (some s) = if ltb 0 s.limit then some s else none

-- The slot read later wins with a greater sequence only.
abbrev pub newest : Option PhysicalState → Option PhysicalState → Option PhysicalState
newest none s = s
newest (some best) none = some best
newest (some best) (some s) = if ltb best.sequence s.sequence then some s else some best

module _ (unmarshal : List ℕ → Option PhysicalState) (crc32 : List ℕ → ℕ) where
  -- One turn of the loop of load: the state a slot holds, if it passes the checks.
  unfoldable pub read_slot : Option (List ℕ) → Option PhysicalState
  read_slot none = none
  read_slot (some b) =
      let n = uint32 (drop 8 b) in
      let raw = take n (drop 16 b) in
      if ltb (physical_slot - 16) n
      then none
      else if crc32 raw == uint32 (drop 12 b)
      then limited (unmarshal raw)
      else none

  -- load; none when the state is corrupt.
  unfoldable pub load : Saved → Option Saved
  load s = elim (newest (read_slot s.file.even) (read_slot s.file.odd)) [
    | none ↦ none
    | some best ↦ some (record s { state = best })
  ]

-- The write and its sync, by the outcomes that are next; true when both succeed.
unfoldable pub write_slot : ℕ → List ℕ → List SlotWrite → Saved → Saved × Bool
write_slot sequence b [] s = (record s { file = put_slot sequence (some b) s.file }, true)
write_slot sequence b (lands ∷ ws) s =
    (record s { file = put_slot sequence (some b) s.file; writes = ws }, true)
write_slot sequence b (tears t ∷ ws) s =
    (record s { file = put_slot sequence t s.file; writes = ws }, false)
write_slot sequence b (unsynced ∷ ws) s =
    (record s { file = put_slot sequence (some b) s.file; writes = ws }, false)

-- The bytes of a slot, with the checksum of its text.
abbrev pub slot_bytes : ℕ → ℕ → List ℕ → List ℕ
slot_bytes sequence crc raw =
    put_uint64 sequence
    ++ put_uint32 (length raw)
    ++ put_uint32 crc
    ++ raw
    ++ replicate (physical_slot - 16 - length raw) 0

module _ (crc32 : List ℕ → ℕ) where
  -- save, once the state is encoded.
  unfoldable pub write_state : Option (List ℕ) → Saved → Saved × Bool
  unfolding write_slot
  write_state none s = (s, false)
  write_state (some raw) s =
      let n = s.state.sequence in
      if ltb (physical_slot - 16) (length raw)
      then (s, false)
      else write_slot n (slot_bytes n (crc32 raw) raw) s.writes s

module _ (marshal : PhysicalState → Option (List ℕ)) (crc32 : List ℕ → ℕ) where
  unfoldable pub save_state : Saved → Saved × Bool
  unfolding write_state
  save_state s =
      let state = record s.state { sequence = inc64 s.state.sequence } in
      write_state crc32 (marshal state) (record s { state = state })
