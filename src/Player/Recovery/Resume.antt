-- ===== src/Player/Recovery/Resume.antt =====
-- The failures of an attempt that was resumed at an offset (run in internal/player/player.go).
use whiterun_music_bot.Base.{
  ℕ, ◌||◌, ◌<◌, ◌≡◌, ◌⊎◌, inl, inr, Bool, true, false, Option, none, some, ◌∷◌, is_some, arith,
  Bool-cases, String,
}
use whiterun_music_bot.Media.Track.{Track}
use whiterun_music_bot.Media.Admission.{ProviderAdmission, is_nil}
use whiterun_music_bot.Player.State.{GuildPlayer, ready_entry}
use whiterun_music_bot.Player.Provider.{block_provider}
use whiterun_music_bot.Player.Durable.{advance_interrupted}
use whiterun_music_bot.Player.Finish.{
  Stage, schedule_retry, is_network_failure, ending_category, Ending, finish_attempt, err_is_voice,
  on_voice_failure, on_provider_failure, finish_permit, on_network_failure, on_resume_failure,
  repeat_track, at_offset, retain,
}
use whiterun_music_bot.Player.Recovery.{
  finish_permit-Frame, network_expected, resume_expected, tail_stage, finish_queue,
  voice_loss_keeps_position,
}

-- Where an ending leaves a position that is to be tried again.
abbrev pub Retained : Track → GuildPlayer → GuildPlayer → Type 0
Retained t p q =
    let kept = at_offset p.confirmed_offset t in
    (q.queue ≡ ready_entry kept ∷ p.queue)
    ⊎ ((advance_interrupted kept ≡ true) × (q.queue ≡ p.queue))

provider_stage :
    (now : ℕ) (x : Ending) (g : Option ProviderAdmission) (t : Track) (p : GuildPlayer)
    → p.current ≡ some t
    → let s = (on_provider_failure now x g (p, false)).0 in
      (s.0.current ≡ some t)
      × (s.0.canceled ≡ p.canceled)
      × (s.0.confirmed_offset ≡ p.confirmed_offset)
      × (((s.1 ≡ false) × (s.0.queue ≡ p.queue)) ⊎ ((s.1 ≡ true) × Retained t p s.0))
unfolding on_provider_failure
provider_stage now x none t p c = unfold retain block_provider in ground arith
provider_stage now x (some g) t p c = unfold retain block_provider in ground arith

network_stage :
    (now jitter : ℕ) (x : Ending) (category : String) (t : Track) (p : GuildPlayer)
    → p.current ≡ some t
    → is_nil x.err ≡ false
    → let s = on_network_failure now jitter x category (p, false) in
      (s ≡ (p, false)) ⊎ ((q : GuildPlayer) × (s ≡ (q, true)) × Retained t p q)
unfolding on_network_failure
network_stage now jitter x category t p c e = elim (Bool-cases (is_network_failure x category)) [
  | inl hit ↦ inr (
    schedule_retry now jitter (retain t p),
    ground (arith, c, hit),
    unfold retain schedule_retry in ground arith,
  )
  | inr miss ↦ inl (ground (arith, c, e, miss))
]

resume_stage :
    (x : Ending) (t : Track) (p : GuildPlayer)
    → p.current ≡ some t
    → is_nil x.err ≡ false
    → 0 < x.selected.resume_offset
    → let s = on_resume_failure x (p, false) in (s.1 ≡ true) × Retained t p s.0
unfolding on_resume_failure
resume_stage x t p c e h = ground (arith, c, e)

-- The failure stages after the voice's.
later_stages :
    (now jitter : ℕ) (x : Ending) (category : String) (t : Track) (p r : GuildPlayer)
    (expected : Bool)
    → p.current ≡ some t
    → is_nil x.err ≡ false
    → 0 < x.selected.resume_offset
    → r.current ≡ some t
    → r.confirmed_offset ≡ p.confirmed_offset
    → ((expected ≡ false) × (r.queue ≡ p.queue)) ⊎ ((expected ≡ true) × Retained t p r)
    → let u = on_resume_failure x (on_network_failure now jitter x category (r, expected)) in
      (u.1 ≡ true) × Retained t p u.0
later_stages now jitter x category t p r true c e h rc ro s =
    rw (network_expected now jitter x category r, resume_expected x r) (ground arith)
later_stages now jitter x category t p r false c e h rc ro s =
    elim (network_stage now jitter x category t r rc e) [
      | inl same ↦ rw same (ground (arith, resume_stage x t r rc e h))
      | inr (q, stopped, kept) ↦ rw (stopped, resume_expected x q) (ground (arith, kept))
    ]

repeat_failed : (x : Ending) (s : Stage) → s.1 ≡ true → repeat_track x s ≡ s.0
unfolding repeat_track
repeat_failed x s e = ground (arith, e)

other_failure :
    (now jitter : ℕ) (x : Ending) (g : Option ProviderAdmission) (t : Track) (p : GuildPlayer)
    → p.current ≡ some t
    → p.canceled ≡ false
    → is_some x.cause ≡ false
    → is_nil x.err ≡ false
    → 0 < x.selected.resume_offset
    → err_is_voice x.err ≡ false
    → Retained t p (finish_attempt now jitter x g p).0
other_failure now jitter x g t p c r n e h other =
    let passed : on_voice_failure x (p, is_some x.cause || p.canceled) ≡ (p, false) =
      unfold on_voice_failure in ground (arith, c, r, n, other) in
    let o = on_provider_failure now x g (p, false) in
    let q = (finish_permit now x o.1 o.0.0).0 in
    let s = provider_stage now x g t p c in
    let f = finish_permit-Frame now x o.1 o.0.0 in
    let (flag, kept) =
      later_stages now jitter x (ending_category x (is_some x.cause || p.canceled)) t p q o.0.1 c e
        h (ground (arith, s, f)) (ground (arith, s, f)) (ground (arith, s, f)) in
    rw (finish_queue now jitter x g p passed)
      (rw (repeat_failed x (tail_stage now jitter x g p) flag) kept)

-- An attempt that was resumed at an offset and fails, for whatever reason, while the player runs and
-- nobody canceled it, never loses its position: it stands at the head of the queue again at its
-- confirmed offset, or at least half of it was heard.
pub resumed_failure_keeps_position :
    (now jitter : ℕ) (x : Ending) (g : Option ProviderAdmission) (t : Track) (p : GuildPlayer)
    → p.current ≡ some t
    → p.canceled ≡ false
    → is_some x.cause ≡ false
    → is_nil x.err ≡ false
    → 0 < x.selected.resume_offset
    → Retained t p (finish_attempt now jitter x g p).0
resumed_failure_keeps_position now jitter x g t p c r n e h =
    elim (Bool-cases (err_is_voice x.err)) [
      | inl lost ↦
          let kept = voice_loss_keeps_position now jitter x g t p (inl lost) c r in
          ground (arith, kept)
      | inr other ↦ other_failure now jitter x g t p c r n e h other
    ]
