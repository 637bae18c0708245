-- ===== src/Storage/Slots/Laws.antt =====
-- What is read back from the control file after a save, whatever becomes of the write.
use whiterun_music_bot.Base.{
  ℕ, ◌+◌, ◌-◌, ◌%◌, ◌^◌, ◌≤◌, ◌<◌, ◌≡◌, Bool, false, List, [], ◌∷◌, ◌++◌, Option, none, some, ◌⊎◌,
  inl, inr, arith, length, take, drop, replicate, ◌==◌, take-length-append, Option-cases,
  Bool-cases,
}
use whiterun_music_bot.Storage.Slots.{
  PhysicalState, ControlFile, Saved, SlotWrite, tears, read_slot, load, slot_bytes, slot_of,
  other_slot, put_slot, put_uint32, uint32,
}

uint32-put_uint32 : (n : ℕ) (rest : List ℕ) → n < 2 ^ 32 → uint32 (put_uint32 n ++ rest) ≡ n
uint32-put_uint32 n rest h = omega arith

-- Nothing, or a state older than `n`.
abbrev pub IsOlder : Option PhysicalState → ℕ → Type 0
IsOlder none n = Unit {0}
IsOlder (some s) n = s.sequence < n

abbrev pub bumped : PhysicalState → PhysicalState
bumped s = record s { sequence = s.sequence + 1 }

-- What the checksum and the codec do, the codec on one state: it reads what it writes.
pub record Codec (marshal : PhysicalState → Option (List ℕ))
    (unmarshal : List ℕ → Option PhysicalState) (crc32 : List ℕ → ℕ) (s : PhysicalState)
    : Type 0 where
  pub round_trip : (raw : List ℕ) → marshal s ≡ some raw → unmarshal raw ≡ some s
  pub narrow : (raw : List ℕ) → crc32 raw < 2 ^ 32

pub read_slot-slot_bytes :
    (unmarshal : List ℕ → Option PhysicalState) (crc32 : List ℕ → ℕ) (n : ℕ) (raw : List ℕ)
    (s : PhysicalState)
    → unmarshal raw ≡ some s
    → 0 < s.limit
    → length raw ≤ 4080
    → crc32 raw < 2 ^ 32
    → read_slot unmarshal crc32 (some (slot_bytes n (crc32 raw) raw)) ≡ some s
unfolding read_slot
read_slot-slot_bytes unmarshal crc32 n raw s e l h c =
    let len = uint32-put_uint32 (length raw) [] (omega arith) in
    let sum = uint32-put_uint32 (crc32 raw) [] c in
    let whole = take-length-append raw (replicate (4080 - length raw) 0) in
    rw (len, sum, whole, e) (ground arith)

module _ (unmarshal : List ℕ → Option PhysicalState) (crc32 : List ℕ → ℕ) where
  -- The slot of the current sequence holds the current state, and the other nothing newer.
  pub record Settled (s : Saved) : Type 0 where
    pub held : read_slot unmarshal crc32 (slot_of s.state.sequence s.file) ≡ some s.state
    pub older :
        IsOlder (read_slot unmarshal crc32 (other_slot s.state.sequence s.file)) s.state.sequence

  pub load-Settled : (s : Saved) → Settled s → load unmarshal crc32 s ≡ some s
  unfolding load
  load-Settled s v = elim (Bool-cases (s.state.sequence % 2 == 0)) [
    | inl p ↦ elim (Option-cases (read_slot unmarshal crc32 s.file.odd)) [
      | inl e ↦ ground (arith, p, e, v.held)
      | inr (t, e) ↦ ground (arith, p, e, v.held, v.older)
    ]
    | inr p ↦ elim (Option-cases (read_slot unmarshal crc32 s.file.even)) [
      | inl e ↦ ground (arith, p, e, v.held)
      | inr (t, e) ↦ ground (arith, p, e, v.held, v.older)
    ]
  ]

module _ (n : ℕ) (b : Option (List ℕ)) (f : ControlFile) where
  slot_of-put_slot : slot_of n (put_slot n b f) ≡ b
  slot_of-put_slot = ground arith

  other_slot-put_slot : other_slot n (put_slot n b f) ≡ other_slot n f
  other_slot-put_slot = ground arith

-- A write of the next sequence number leaves the slot of this one.
module _ (n : ℕ) (b : Option (List ℕ)) (f : ControlFile) where
  slot_of-put_next : slot_of n (put_slot (n + 1) b f) ≡ slot_of n f
  slot_of-put_next = ground arith

  other_slot-put_next : other_slot n (put_slot (n + 1) b f) ≡ b
  other_slot-put_next = ground arith

slot_of-suc : (n : ℕ) (f : ControlFile) → other_slot (n + 1) f ≡ slot_of n f
slot_of-suc n f = ground arith

module _ (unmarshal : List ℕ → Option PhysicalState) (crc32 : List ℕ → ℕ) where
  pub read_slot-limit :
      (b : Option (List ℕ)) (s : PhysicalState) → read_slot unmarshal crc32 b ≡ some s → 0 < s.limit
  unfolding read_slot
  read_slot-limit none s e = ground arith
  read_slot-limit (some b) s e =
      elim (Option-cases (unmarshal (take (uint32 (drop 8 b)) (drop 16 b)))) [
        | inl d ↦ ground (arith, d)
        | inr (t, d) ↦ ground (arith, d)
      ]

  pub put_slot-Settled :
      (s : Saved) (t : PhysicalState) (b : Option (List ℕ)) (ws : List SlotWrite)
      → Settled unmarshal crc32 s
      → t.sequence ≡ s.state.sequence + 1
      → read_slot unmarshal crc32 b ≡ some t
      → Settled unmarshal crc32
          (record { state = t; file = put_slot t.sequence b s.file; writes = ws })
  put_slot-Settled s t b ws v n r = record {
    held = rw (slot_of-put_slot t.sequence b s.file) r;
    older =
        rw (other_slot-put_slot t.sequence b s.file, n, slot_of-suc s.state.sequence s.file, v.held)
          (omega arith);
  }

  -- A slot that reads as nothing, or as something older, leaves what the other one holds.
  pub torn-Settled :
      (s : Saved) (n : ℕ) (b : Option (List ℕ)) (ws : List SlotWrite)
      → Settled unmarshal crc32 s
      → n ≡ s.state.sequence + 1
      → IsOlder (read_slot unmarshal crc32 b) s.state.sequence
      → Settled unmarshal crc32
          (record { state = s.state; file = put_slot n b s.file; writes = ws })
  torn-Settled s n b ws v e r = record {
    held = rw (e, slot_of-put_next s.state.sequence b s.file) v.held;
    older = rw (e, other_slot-put_next s.state.sequence b s.file) r;
  }

module _ (unmarshal : List ℕ → Option PhysicalState) (crc32 : List ℕ → ℕ) where
  -- What a failed write leaves in its slot fails the checks, or is older than the state that the other
  -- slot holds, as what stood there before is, or is all that was to be written.
  abbrev pub TearsSafely : PhysicalState → List SlotWrite → Type 0
  TearsSafely s (tears b ∷ ws) =
      IsOlder (read_slot unmarshal crc32 b) s.sequence
      ⊎ (read_slot unmarshal crc32 b ≡ some (bumped s))
  TearsSafely s _ = Unit {0}

  -- The state that a load finds after a save, settled again: the new one when the save succeeded,
  -- else the new one or the one before.
  pub record Survives (s : Saved) (next : Saved × Bool) : Type 0 where
    pub after : Saved
    pub loaded : load unmarshal crc32 next.0 ≡ some after
    pub settled : Settled unmarshal crc32 after
    pub either : (after.state ≡ s.state) ⊎ (after.state ≡ bumped s.state)
    pub saved : (next.1 ≡ false) ⊎ (after ≡ next.0)
