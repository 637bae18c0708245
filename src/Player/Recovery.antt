-- ===== src/Player/Recovery.antt =====
-- What the end of an attempt does to the logical position (run in internal/player/player.go): the
-- attempts that the voice or a command ended, and what all endings share.
pub mod Resume
pub mod Finished
use whiterun_music_bot.Base.{
  ℕ, ◌||◌, ◌≡◌, refl, ◌⊎◌, Bool, true, false, Option, none, some, ◌∷◌, is_some, arith,
  if◌then◌else◌, String,
}
use whiterun_music_bot.Media.Track.{Track}
use whiterun_music_bot.Media.Admission.{ProviderAdmission}
use whiterun_music_bot.Player.State.{mutation, GuildPlayer, ready_entry}
use whiterun_music_bot.Player.Durable.{advance_interrupted}
use whiterun_music_bot.Player.Finish.{
  Stage, ending_category, Ending, finish_attempt, caused_by_voice, err_is_voice, on_voice_failure,
  on_provider_failure, finish_permit, on_network_failure, on_resume_failure, repeat_track,
  tear_down, announce, at_offset, retain,
}
use whiterun_music_bot.Player.Voice.{suspend_voice_locked, open_circuit}

-- The voice was the cause: the transport failed or its loss canceled the attempt.
abbrev pub IsVoiceLoss : Ending → Type 0
IsVoiceLoss x = (err_is_voice x.err ≡ true) ⊎ (caused_by_voice x.cause ≡ true)

pub finish_permit-Frame :
    (now : ℕ) (x : Ending) (g : Option ProviderAdmission) (p : GuildPlayer)
    → ((finish_permit now x g p).0.queue ≡ p.queue)
      × ((finish_permit now x g p).0.current ≡ p.current)
      × ((finish_permit now x g p).0.voice_circuit ≡ p.voice_circuit)
      × ((finish_permit now x g p).0.canceled ≡ p.canceled)
      × ((finish_permit now x g p).0.confirmed_offset ≡ p.confirmed_offset)
      × ((finish_permit now x g p).0.loop ≡ p.loop)
unfolding finish_permit
finish_permit-Frame now x none p = ground arith
finish_permit-Frame now x (some g) p = ground arith

provider_expected :
    (now : ℕ) (x : Ending) (g : Option ProviderAdmission) (p : GuildPlayer)
    → on_provider_failure now x g (p, true) ≡ ((p, true), g)
unfolding on_provider_failure
provider_expected now x g p = ground arith

pub network_expected :
    (now jitter : ℕ) (x : Ending) (category : String) (p : GuildPlayer)
    → on_network_failure now jitter x category (p, true) ≡ (p, true)
unfolding on_network_failure
network_expected now jitter x category p = ground arith

pub resume_expected : (x : Ending) (p : GuildPlayer) → on_resume_failure x (p, true) ≡ (p, true)
unfolding on_resume_failure
resume_expected x p = ground arith

repeat_expected : (x : Ending) (p : GuildPlayer) → repeat_track x (p, true) ≡ p
unfolding repeat_track
repeat_expected x p = ground arith

-- An ending that the voice stage accounts for has no other failure handling.
finish_expected :
    (now jitter : ℕ) (x : Ending) (g : Option ProviderAdmission) (p q : GuildPlayer)
    → on_voice_failure x (p, is_some x.cause || p.canceled) ≡ (q, true)
    → (finish_attempt now jitter x g p).0 ≡ tear_down x true (finish_permit now x g q).0
unfolding finish_attempt announce
finish_expected now jitter x g p q e =
    rw
      (
        e,
        provider_expected now x g q,
        network_expected now jitter x (ending_category x (is_some x.cause || p.canceled))
            (finish_permit now x g q).0,
        resume_expected x (finish_permit now x g q).0,
        repeat_expected x (finish_permit now x g q).0,
      )
      refl

voice_stage :
    (x : Ending) (expected : Bool) (t : Track) (p : GuildPlayer)
    → IsVoiceLoss x
    → p.current ≡ some t
    → p.canceled ≡ false
    → on_voice_failure x (p, expected) ≡ (mutation (retain t (suspend_voice_locked p)), true)
unfolding on_voice_failure
voice_stage x expected t p v c r = ground (arith, v, c, r)

-- When an attempt ends because the voice was lost, a current track goes back to the head of the
-- queue at its confirmed offset, unless at least half of it was heard; nothing else in the queue
-- changes, nothing is current any more, and the voice circuit is blocked until recovery.
pub voice_loss_keeps_position :
    (now jitter : ℕ) (x : Ending) (g : Option ProviderAdmission) (t : Track) (p : GuildPlayer)
    → IsVoiceLoss x
    → p.current ≡ some t
    → p.canceled ≡ false
    → let q = (finish_attempt now jitter x g p).0 in
      let kept = at_offset p.confirmed_offset t in
      (q.queue ≡ (if advance_interrupted kept then p.queue else ready_entry kept ∷ p.queue))
      × (q.current ≡ none)
      × (q.attempt ≡ none)
      × (q.voice_circuit.blocked ≡ true)
unfolding tear_down
voice_loss_keeps_position now jitter x g t p v c r =
    rw
      (finish_expected now jitter x g p _ (voice_stage x (is_some x.cause || p.canceled) t p v c r))
      (let f = finish_permit-Frame now x g (mutation (retain t (suspend_voice_locked p))) in
        unfold retain open_circuit in ground (arith, f, r))

-- An attempt whose track was canceled (skipped, jumped over, replayed or stopped) leaves the queue
-- as the command made it, whatever error it comes back with, and its end counts as no failure.
canceled_attempt_lem :
    (now jitter : ℕ) (x : Ending) (g : Option ProviderAdmission) (p : GuildPlayer)
    → p.current ≡ none
    → let q = (finish_attempt now jitter x g p).0 in
      (q.queue ≡ p.queue) × (q.current ≡ none) × (q.attempt ≡ none) × (q.failures ≡ 0)
unfolding tear_down
canceled_attempt_lem now jitter x g p c =
    rw (finish_expected now jitter x g p p (unfold on_voice_failure in ground (arith, c)))
      (let f = finish_permit-Frame now x g p in ground (arith, f, c))

tear_down-queue :
    (x : Ending) (expected : Bool) (p : GuildPlayer) → (tear_down x expected p).queue ≡ p.queue
unfolding tear_down
tear_down-queue x expected p = ground arith

announce-queue : (failed : Bool) (p : GuildPlayer) → (announce failed p).queue ≡ p.queue
unfolding announce
announce-queue failed p = ground arith

-- The stages after the voice's, for an attempt that it does not account for.
abbrev pub tail_stage : ℕ → ℕ → Ending → Option ProviderAdmission → GuildPlayer → Stage
tail_stage now jitter x g p =
    let s = on_provider_failure now x g (p, false) in
    let r = (finish_permit now x s.1 s.0.0).0 in
    on_resume_failure x (
      on_network_failure now jitter x (ending_category x (is_some x.cause || p.canceled))
        (r, s.0.1))

pub finish_queue :
    (now jitter : ℕ) (x : Ending) (g : Option ProviderAdmission) (p : GuildPlayer)
    → on_voice_failure x (p, is_some x.cause || p.canceled) ≡ (p, false)
    → (finish_attempt now jitter x g p).0.queue
      ≡ (repeat_track x (tail_stage now jitter x g p)).queue
unfolding finish_attempt
finish_queue now jitter x g p e = rw (e, announce-queue, tear_down-queue) refl
