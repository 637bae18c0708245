-- ===== src/Storage/Slots/Saves.antt =====
-- A save of a changed state that reports success: the next load finds what was saved.
use whiterun_music_bot.Base.{
  ℕ, ◌+◌, ◌^◌, ◌<◌, ◌≡◌, refl, ap, Bool, false, List, [], ◌∷◌, Option, none, some, ◌⊎◌, inl, inr,
  arith, length, ltb, Bool-cases,
}
use whiterun_music_bot.Storage.Slots.{
  PhysicalState, Saved, SlotWrite, lands, tears, unsynced, read_slot, load, save_state, write_state,
  write_slot, slot_bytes,
}
use whiterun_music_bot.Storage.Slots.Laws.{
  Codec, Settled, bumped, load-Settled, put_slot-Settled, read_slot-slot_bytes, read_slot-limit,
}
use whiterun_music_bot.Storage.Slots.Crash.{inc64-plain}

module _ (unmarshal : List ℕ → Option PhysicalState) (crc32 : List ℕ → ℕ) where
  -- The save failed, or what it left is loaded again as it is.
  abbrev pub IsStored : Saved × Bool → Type 0
  IsStored r = (r.1 ≡ false) ⊎ (load unmarshal crc32 r.0 ≡ some r.0)

  write_slot-IsStored :
      (s : Saved) (t : PhysicalState) (b : List ℕ) (ws : List SlotWrite)
      → Settled unmarshal crc32 s
      → t.sequence ≡ s.state.sequence + 1
      → read_slot unmarshal crc32 (some b) ≡ some t
      → IsStored (write_slot t.sequence b ws (record s { state = t }))
  unfolding write_slot
  write_slot-IsStored s t b [] v n r = inr (
      load-Settled unmarshal crc32 _ (put_slot-Settled unmarshal crc32 s t (some b) s.writes v n r))
  write_slot-IsStored s t b (lands ∷ ws) v n r =
      inr (load-Settled unmarshal crc32 _ (put_slot-Settled unmarshal crc32 s t (some b) ws v n r))
  write_slot-IsStored s t b (unsynced ∷ ws) v n r = inl refl
  write_slot-IsStored s t b (tears x ∷ ws) v n r = inl refl

  write_state-IsStored :
      (s : Saved) (t : PhysicalState) (m : Option (List ℕ))
      → ((raw : List ℕ) → m ≡ some raw → unmarshal raw ≡ some t)
      → ((raw : List ℕ) → crc32 raw < 2 ^ 32)
      → Settled unmarshal crc32 s
      → t.sequence ≡ s.state.sequence + 1
      → t.limit ≡ s.state.limit
      → IsStored (write_state crc32 m (record s { state = t }))
  unfolding write_state
  write_state-IsStored s t none e c v n l = inl refl
  write_state-IsStored s t (some raw) e c v n l = elim (Bool-cases (ltb 4080 (length raw))) [
    | inl big ↦ rw big (inl refl)
    | inr fits ↦
        let limit = read_slot-limit unmarshal crc32 _ s.state v.held in
        let r =
          read_slot-slot_bytes unmarshal crc32 t.sequence raw t (e raw refl)
            (omega (arith, limit, l)) (ground arith) (c raw) in
        rw fits (write_slot-IsStored s t (slot_bytes t.sequence (crc32 raw) raw) s.writes v n r)
  ]

module _ (marshal : PhysicalState → Option (List ℕ)) (unmarshal : List ℕ → Option PhysicalState)
    (crc32 : List ℕ → ℕ) where
  -- A save of `t`, of the same sequence number and limit as the settled state on disk.
  pub save_state-IsStored :
      (s : Saved) (t : PhysicalState)
      → Codec marshal unmarshal crc32 (bumped t)
      → Settled unmarshal crc32 s
      → s.state.sequence + 1 < 2 ^ 64
      → t.sequence ≡ s.state.sequence
      → t.limit ≡ s.state.limit
      → IsStored unmarshal crc32 (save_state marshal crc32 (record s { state = t }))
  unfolding save_state
  save_state-IsStored s t codec v small n l =
      let plain = inc64-plain t.sequence (omega (arith, small, n)) in
      rw plain (
        write_state-IsStored unmarshal crc32 s (bumped t) (marshal (bumped t)) codec.round_trip
          codec.narrow v (ap (λ k. k + 1) n) l)
