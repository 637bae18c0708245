-- ===== src/Storage/Slots/Crash.antt =====
-- A save of the quota's state survives a crash: the next load finds the state before or after it.
use whiterun_music_bot.Base.{
  ℕ, ◌+◌, ◌^◌, ◌<◌, ◌≡◌, refl, List, [], ◌∷◌, Option, none, some, inl, inr, arith, length, ltb,
  inc64, Bool-cases,
}
use whiterun_music_bot.Storage.Slots.{
  PhysicalState, Saved, SlotWrite, lands, tears, unsynced, save_state, write_state, write_slot,
  slot_bytes,
}

pub inc64-plain : (n : ℕ) → n + 1 < 2 ^ 64 → inc64 n ≡ n + 1
inc64-plain n h = omega arith

-- A save changes nothing of the state but its sequence number.
write_slot-state :
    (n : ℕ) (b : List ℕ) (ws : List SlotWrite) (s : Saved) → (write_slot n b ws s).0.state ≡ s.state
unfolding write_slot
write_slot-state n b [] s = refl
write_slot-state n b (lands ∷ ws) s = refl
write_slot-state n b (tears t ∷ ws) s = refl
write_slot-state n b (unsynced ∷ ws) s = refl

write_state-state :
    (crc32 : List ℕ → ℕ) (m : Option (List ℕ)) (s : Saved)
    → (write_state crc32 m s).0.state ≡ s.state
unfolding write_state
write_state-state crc32 none s = refl
write_state-state crc32 (some raw) s = elim (Bool-cases (ltb 4080 (length raw))) [
  | inl big ↦ rw big refl
  | inr fits ↦ rw fits (write_slot-state _ (slot_bytes s.state.sequence (crc32 raw) raw) s.writes s)
]

pub save_state-state :
    (marshal : PhysicalState → Option (List ℕ)) (crc32 : List ℕ → ℕ) (s : Saved)
    → (save_state marshal crc32 s).0.state ≡ record s.state { sequence = inc64 s.state.sequence }
unfolding save_state
save_state-state marshal crc32 s =
    let state = record s.state { sequence = inc64 s.state.sequence } in
    write_state-state crc32 (marshal state) (record s { state = state })
