-- ===== src/Storage/Examples.antt =====
-- Concrete inputs for the theorems on the physical quota: a codec that carries the sequence number
-- and the limit, a sum for a checksum, and a database of one file.
use whiterun_music_bot.Base.{
  ℕ, zero, suc, if◌then◌else◌, ◌+◌, ◌%◌, ◌^◌, ◌≤◌, refl, true, false, List, [], ◌∷◌, Option, none,
  some, arith,
}
use whiterun_music_bot.Storage.Slots.{
  PhysicalState, CatalogChannel, no_event, Saved, tears, slot_bytes, load, read_slot,
}
use whiterun_music_bot.Storage.Slots.Laws.{Codec, Settled, bumped}
use whiterun_music_bot.Storage.Physical.{
  PhysicalQuota, PhysicalUsage, GuardedCall, Files, found, missing, main, guard, guard_projected,
  noted, note_exhausted, note_armed, note_events, current_usage, total, charge, rounded, growth,
  rounded_length, is_admitted,
}
use whiterun_music_bot.Storage.Physical.Limit.{guard-total}
use whiterun_music_bot.Storage.Physical.Episodes.{Refused, guard_projected-Refused}

abbrev plain : ℕ → ℕ → PhysicalState
plain sequence limit = record {
  sequence = sequence;
  limit = limit;
  base = 0;
  episode = 0;
  warn = no_event;
  full = no_event;
  armed = true;
  exhausted = false;
}

abbrev marshal : PhysicalState → Option (List ℕ)
marshal s = some (s.sequence ∷ s.limit ∷ [])

abbrev unmarshal : List ℕ → Option PhysicalState
unmarshal (sequence ∷ limit ∷ []) = some (plain sequence limit)
unmarshal _ = none

abbrev sum : List ℕ → ℕ
sum [] = 0
sum (x ∷ xs) = x + sum xs

abbrev checksum : List ℕ → ℕ
checksum raw = sum raw % 2 ^ 32

abbrev saved : Saved
saved = record {
  state = plain 6 1000000;
  file = record { even = some (slot_bytes 6 1000006 (6 ∷ 1000000 ∷ [])); odd = some (0 ∷ []) };
  writes = tears (some (7 ∷ [])) ∷ [];
}

abbrev database : ℕ → ℕ → Files
database size blocks main = found size blocks
database size blocks _ = missing

abbrev quota : PhysicalQuota
quota = record { files = database 8192 16; saved = saved; peak = 8192 }

abbrev extend : GuardedCall
extend = record {
  lock_granted = true;
  target = some (main, 12288);
  wal_reset = false;
  body = λ f. (database 12288 24, 0);
}

-- The file is extended by a block within the limit of a million bytes.
guard-total_example : total (guard marshal unmarshal checksum extend quota).0.files ≤ 1000000
unfolding load read_slot total charge rounded growth rounded_length
guard-total_example =
    guard-total marshal unmarshal checksum extend quota saved refl (omega arith) (omega arith)

-- A block too many: only 60,000 bytes are allowed, and the control file holds that state.
abbrev tight : PhysicalQuota
tight = record quota {
  saved = record {
    state = plain 6 60000;
    file = record { even = some (slot_bytes 6 60006 (6 ∷ 60000 ∷ 0 ∷ [])); odd = none };
    writes = [];
  };
}

-- What the refusal makes of it.
abbrev alarmed : PhysicalState
alarmed = bumped (noted true (current_usage tight) (plain 6 60000)).state

-- A codec of these two states.
abbrev marshal_either : PhysicalState → Option (List ℕ)
marshal_either s = some (s.sequence ∷ s.limit ∷ (if s.exhausted then 1 else 0) ∷ [])

abbrev unmarshal_either : List ℕ → Option PhysicalState
unmarshal_either (sequence ∷ limit ∷ zero ∷ []) = some (plain sequence limit)
unmarshal_either (sequence ∷ limit ∷ suc k ∷ []) = some alarmed
unmarshal_either _ = none

tight-Settled : Settled unmarshal_either checksum tight.saved
unfolding read_slot
tight-Settled = record { held = refl; older = tt }

alarmed-Codec : Codec marshal_either unmarshal_either checksum alarmed
unfolding noted note_exhausted note_armed note_events current_usage total charge rounded
alarmed-Codec = record { round_trip = λ (raw : List ℕ) e. cc; narrow = λ raw. omega arith }

guard_projected-Refused_example :
    Refused marshal_either unmarshal_either checksum 0 tight
      (guard_projected marshal_either checksum 0 extend tight)
unfolding is_admitted total rounded growth rounded_length
guard_projected-Refused_example =
    guard_projected-Refused marshal_either unmarshal_either checksum 0 extend tight refl refl
      alarmed-Codec tight-Settled (omega arith)

abbrev usage : ℕ → PhysicalUsage
usage reserved = record {
  files = reserved;
  reserved = reserved;
  limit = 1000;
  blocked = false;
  peak = 0;
}

abbrev warned : PhysicalState
warned = record (plain 1 1000) { warn = record no_event { pending = true; used = 950 } }

abbrev channel : CatalogChannel
channel = record { guild = "g"; channel = "c"; commands = 3 }
