-- ===== src/Player/Recovery/Finished.antt =====
-- The end of a track that was heard to its end (run in internal/player/player.go).
use whiterun_music_bot.Base.{
  ℕ, ◌||◌, ◌≡◌, true, false, Option, none, some, [], ◌∷◌, ◌++◌, length, is_some, arith,
  if◌then◌else◌, String, str_eq, leb,
}
use whiterun_music_bot.Media.Track.{Track}
use whiterun_music_bot.Media.Errors.Provider.{is_provider_failure}
use whiterun_music_bot.Media.Admission.{ProviderAdmission}
use whiterun_music_bot.Player.State.{GuildPlayer, ready_entry, max_queue_tracks}
use whiterun_music_bot.Player.Finish.{
  is_network_failure, ending_category, Ending, finish_attempt, on_voice_failure,
  on_provider_failure, finish_permit, on_network_failure, on_resume_failure, repeat_track,
  tear_down, announce, at_offset,
}
use whiterun_music_bot.Player.Voice.{complete_recovery}
use whiterun_music_bot.Player.Recovery.{finish_permit-Frame, tail_stage, finish_queue}

eof_provider :
    (now : ℕ) (x : Ending) (g : Option ProviderAdmission) (p : GuildPlayer)
    → x.err ≡ none
    → on_provider_failure now x g (p, false) ≡ ((p, false), g)
unfolding on_provider_failure is_provider_failure
eof_provider now x g p e = ground (arith, e)

eof_network :
    (now jitter : ℕ) (x : Ending) (category : String) (p : GuildPlayer)
    → x.err ≡ none
    → on_network_failure now jitter x category (p, false)
      ≡ (if is_some p.current then complete_recovery p else p, false)
unfolding on_network_failure is_network_failure
eof_network now jitter x category p e = ground (arith, e)

eof_stage :
    (now jitter : ℕ) (x : Ending) (g : Option ProviderAdmission) (p : GuildPlayer)
    → x.err ≡ none
    → let u = tail_stage now jitter x g p in
      (u.0.queue ≡ p.queue) × (u.0.current ≡ p.current) × (u.0.loop ≡ p.loop) × (u.1 ≡ false)
eof_stage now jitter x g p e = rw (eof_provider now x g p e) (
    let f = finish_permit-Frame now x g p in
    let r = (finish_permit now x g p).0 in
    rw (eof_network now jitter x (ending_category x (is_some x.cause || p.canceled)) r e)
      (unfold on_resume_failure complete_recovery in ground (arith, e, f)))

-- A track that was heard to its end is repeated as the loop mode asks, at its start: in front for
-- "track", behind for "queue", and not at all for any other mode or where the queue is full. The
-- rest of the queue stays, and nothing is current any more.
finished_track_lem :
    (now jitter : ℕ) (x : Ending) (g : Option ProviderAdmission) (t : Track) (p : GuildPlayer)
    → p.current ≡ some t
    → p.canceled ≡ false
    → x.cause ≡ none
    → x.err ≡ none
    → x.played ≡ true
    → let q = (finish_attempt now jitter x g p).0 in
      (q.queue ≡ (
        if leb max_queue_tracks (length p.queue)
        then p.queue
        else if str_eq p.loop "track"
        then ready_entry (at_offset 0 t) ∷ p.queue
        else if str_eq p.loop "queue"
        then p.queue ++ ready_entry (at_offset 0 t) ∷ []
        else p.queue))
      × (q.current ≡ none)
finished_track_lem now jitter x g t p c r n e h = (queued, idle)
  where
    passed : on_voice_failure x (p, is_some x.cause || p.canceled) ≡ (p, false)
    passed = unfold on_voice_failure in ground (arith, c, r, n, e)

    queued : (finish_attempt now jitter x g p).0.queue ≡ (
        if leb max_queue_tracks (length p.queue)
        then p.queue
        else if str_eq p.loop "track"
        then ready_entry (at_offset 0 t) ∷ p.queue
        else if str_eq p.loop "queue"
        then p.queue ++ ready_entry (at_offset 0 t) ∷ []
        else p.queue)
    queued =
        rw (finish_queue now jitter x g p passed) (
          let s = eof_stage now jitter x g p e in unfold repeat_track in ground (arith, s, c, e, h))

    idle : (finish_attempt now jitter x g p).0.current ≡ none
    idle = unfold finish_attempt tear_down announce in ground arith
