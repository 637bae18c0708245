-- ===== src/Player/Provider.antt =====
-- internal/player/provider_recovery.go, with blockProviderLocked (internal/player/player.go) and
-- resetProviderLocked (internal/player/pause.go): the latch that keeps provider work waiting. The
-- shared gate of internal/media is read as a snapshot.
use whiterun_music_bot.Base.{
  ℕ, ◌+◌, ◌-◌, Bool, true, false, not, ◌&&◌, ◌||◌, Option, none, some, String, ltb, leb,
  if◌then◌else◌, inc64, is_some,
}
use whiterun_music_bot.Media.Errors.{Err, is_canceled}
use whiterun_music_bot.Media.Errors.Provider.{is_provider_failure}
use whiterun_music_bot.Media.Admission.{
  Tag, blank, session, is_blank, tag_eq, provider_backoff, recovery_trials, ProviderStatus,
  ProviderAdmission, finish_trial, observe, was_canceled, is_nil,
}
use whiterun_music_bot.Player.State.{GuildPlayer, ProviderLatch, CommandError, Outcome}
use whiterun_music_bot.Player.Jobs.{signal, cancel_searches}

-- resetProviderLocked, on the latch.
unfoldable pub reset_latch : ProviderLatch → ProviderLatch
reset_latch l = if not l.blocked && is_blank l.incident then l else record l {
  blocked = false;
  global = false;
  reason = "";
  incident = blank;
  notice = false;
  probe = false;
  retries = 0;
  changes = l.changes + 1;
}

unfoldable pub reset_provider : GuildPlayer → GuildPlayer
unfolding reset_latch
reset_provider p = record p { provider = reset_latch p.provider }

-- A shared block names the incident and the attempts; another incident is announced anew.
unfoldable pub join_shared : ProviderStatus → ProviderLatch → ProviderLatch
join_shared shared l =
    let same = tag_eq l.incident shared.incident in
    if shared.blocked
    then record l {
      generation = if same then l.generation else inc64 l.generation;
      notice = if same then l.notice else false;
      global = true;
      incident = shared.incident;
      retries = shared.attempts;
    }
    else l

-- A block without a shared incident opens one of this session.
unfoldable pub open_local : ProviderLatch → ProviderLatch
open_local l =
    if is_blank l.incident
    then record l {
      generation = inc64 l.generation;
      incident = session (inc64 l.generation);
      retries = 0;
      notice = false;
    }
    else l

unfoldable pub close_latch : ℕ → String → ProviderLatch → ProviderLatch
unfolding open_local
close_latch now reason l =
    let opened = open_local l in
    record opened {
      blocked = true;
      retry_at = now + provider_backoff opened.retries;
      reason = reason;
    }

-- blockProviderLocked.
unfoldable pub block_provider : ℕ → ProviderStatus → String → GuildPlayer → GuildPlayer
unfolding join_shared close_latch signal cancel_searches
block_provider now shared reason p =
    let l = join_shared shared p.provider in
    if l.blocked
    then record p { provider = l }
    else cancel_searches (signal (record p { provider = close_latch now reason l }))

-- waitProvider before its loop, where the shared gate decides: the latch joins a shared block.
-- The result says whether the caller waits at the shared gate.
unfoldable pub enter_shared : ℕ → ProviderStatus → GuildPlayer → GuildPlayer × Bool
unfolding block_provider
enter_shared now shared p =
    let global = shared.blocked || p.provider.global in
    if shared.blocked then (block_provider now shared shared.category p, global) else (p, global)

-- What WaitRecovery granted, with the gate's status then: no permit means that the gate is open.
unfoldable pub adopt_permit : Tag → ProviderStatus → GuildPlayer → GuildPlayer
unfolding reset_provider
adopt_permit permit status p =
    if is_blank permit
    then reset_provider p
    else record p { provider = record p.provider { probe = true; retries = status.attempts } }

-- A round of waitProvider's own loop, once the shared gate does not decide.
pub data Permission : Type 0 where
  given_up : Permission
  free : Permission
  probing : Tag → Permission
  waits : Bool → Permission

unfoldable pub wait_latch : ℕ → Bool → ProviderLatch → ProviderLatch × Permission
wait_latch now done l =
    let can_probe = not l.probe && ltb l.retries recovery_trials in
    if done
    then (l, given_up)
    else if not l.blocked
    then (l, free)
    else if can_probe && leb l.retry_at now
    then (record l { probe = true; retries = l.retries + 1 }, probing l.incident)
    else (l, waits can_probe)

-- The failures that keep a local trial's incident open.
unfoldable pub keeps_incident : Option Err → Bool
unfolding is_canceled
keeps_incident err = not (is_nil err) && (is_provider_failure err || was_canceled err)

-- finishProviderLocked when the gate is the player's own.
unfoldable pub finish_local : ℕ → Option Err → Tag → ProviderLatch → ProviderLatch
unfolding keeps_incident reset_latch
finish_local now err incident l =
    let retries = if was_canceled err then l.retries - 1 else l.retries in
    if not l.probe || not (tag_eq incident l.incident)
    then l
    else if keeps_incident err
    then record l {
      probe = false;
      retries = retries;
      retry_at = now + provider_backoff retries;
      changes = l.changes + 1;
    }
    else reset_latch (record l { probe = false })

-- finishProviderLocked when the shared gate decides: `shared` is its status after FinishTrial.
unfoldable pub finish_shared : ProviderStatus → ProviderLatch → ProviderLatch
unfolding reset_latch
finish_shared shared l =
    let done = record l { probe = false; retries = shared.attempts } in
    if shared.blocked then record done { retry_at = shared.retry_at } else reset_latch done

-- finishProviderLocked. The gate is none where the player was given no admission.
unfoldable pub finish_provider :
    ℕ
    → Option Err
    → Tag
    → Option ProviderAdmission
    → GuildPlayer
    → GuildPlayer × Option ProviderAdmission
unfolding finish_local finish_shared signal finish_trial
finish_provider now err permit none p =
    if not p.provider.probe || not (tag_eq permit p.provider.incident)
    then (p, none)
    else (signal (record p { provider = finish_local now err permit p.provider }), none)
finish_provider now err permit (some g) p =
    let g' = finish_trial now permit err g in
    if p.provider.global
    then (signal (record p { provider = finish_shared g'.status p.provider }), some g')
    else if not p.provider.probe || not (tag_eq permit p.provider.incident)
    then (p, some g)
    else (signal (record p { provider = finish_local now err permit p.provider }), some g)

-- observeProviderLocked.
unfoldable pub observe_provider : ℕ → Option Err → ProviderAdmission → ProviderAdmission
unfolding observe
observe_provider now err g = if g.status.blocked then g else observe now err g

-- announceProvider: whether the incident is announced now. Each is announced once.
unfoldable pub announce_provider : ProviderLatch → ProviderLatch × Bool
announce_provider l =
    if l.notice || (is_blank l.incident || tag_eq l.last_notice l.incident)
    then (l, false)
    else (record l { notice = true; last_notice = l.incident }, true)

-- ConfigureYouTube; `longest` is media.VerificationPrefetchHorizon.
unfoldable pub configure_youtube : ℕ → ℕ → GuildPlayer → Outcome
configure_youtube longest horizon p =
    if ltb longest horizon
    then (p, some CommandError.bad_horizon)
    else if is_some p.current || is_some p.voice
    then (p, some CommandError.configured_late)
    else (record p { prefetch_horizon = horizon }, none)
