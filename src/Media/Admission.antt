-- ===== src/Media/Admission.antt =====
-- internal/media/provider_admission.go: the process-wide breaker and rate gate for YouTube work.
-- A method under the mutex is a function on the state; time is an argument; a method that waits is
-- one round of its loop, which says what it waits for. The incident texts are built by Sprintf and
-- only ever compared: a `Tag` keeps what they are built from.
pub mod Invariant
pub mod Budget
pub mod Spacing
use whiterun_music_bot.Base.{
  ℕ, ◌+◌, ◌-◌, ◌*◌, ◌^◌, min, Bool, true, false, not, ◌&&◌, ◌||◌, Option, none, some, String,
  str_eq, ltb, leb, ◌==◌, if◌then◌else◌, inc64,
}
use whiterun_music_bot.Media.Track.{second}
use whiterun_music_bot.Media.Errors.{Err, by_admission, is_canceled, extraction}
use whiterun_music_bot.Media.Errors.Provider.{global_provider_failure}

pub data Tag : Type 0 where
  blank : Tag
  session : ℕ → Tag
  process : ℕ → Tag
  trial : Tag → ℕ → Tag

-- Equality of the texts.
unfoldable pub tag_eq : Tag → Tag → Bool
tag_eq blank blank = true
tag_eq (session a) (session b) = a == b
tag_eq (process a) (process b) = a == b
tag_eq (trial s a) (trial t b) = tag_eq s t && a == b
tag_eq _ _ = false

abbrev pub is_blank : Tag → Bool
is_blank blank = true
is_blank _ = false

abbrev pub recovery_trials : ℕ
recovery_trials = 3

-- ProviderBackoff.
unfoldable pub provider_backoff : ℕ → ℕ
provider_backoff attempt = min (120 * second) (15 * second * 2 ^ min attempt 3)

pub record ProviderStatus : Type 0 where
  pub blocked : Bool
  pub exhausted : Bool
  pub incident : Tag
  pub category : String
  pub attempts : ℕ
  pub retry_at : ℕ

abbrev pub no_status : ProviderStatus
no_status = record {
  blocked = false;
  exhausted = false;
  incident = blank;
  category = "";
  attempts = 0;
  retry_at = 0;
}

-- `changes` counts the broadcasts on the `changed` channel; `slots` counts the slots in use.
pub record ProviderAdmission : Type 0 where
  pub concurrency : ℕ
  pub slots : ℕ
  pub interval : ℕ
  pub next_start : ℕ
  pub changes : ℕ
  pub status : ProviderStatus
  pub epoch : ℕ
  pub probe : Tag
  pub probe_spent : Bool
  pub failures : ℕ
  pub probe_failures : ℕ

-- NewProviderAdmission; none when the limits are refused.
unfoldable pub new_provider_admission : ℕ → ℕ → Option ProviderAdmission
new_provider_admission concurrency interval =
    if ltb concurrency 1 || ltb 32 concurrency
    then none
    else some (record {
      concurrency = concurrency;
      slots = 0;
      interval = interval;
      next_start = 0;
      changes = 0;
      status = no_status;
      epoch = 0;
      probe = blank;
      probe_spent = false;
      failures = 0;
      probe_failures = 0;
    })

abbrev pub notify : ProviderAdmission → ProviderAdmission
notify g = record g { changes = g.changes + 1 }

-- A first failure opens an incident with a fresh budget.
unfoldable pub open_incident : ProviderAdmission → ProviderAdmission
open_incident g =
    if is_blank g.status.incident
    then record g {
      epoch = inc64 g.epoch;
      status = record g.status { incident = process (inc64 g.epoch); attempts = 0 };
    }
    else g

-- Observe, for an error whose global category is `category`; "" is ignored.
unfoldable pub observe_category : ℕ → String → ProviderAdmission → ProviderAdmission
unfolding open_incident
observe_category now category g0 =
    let g = open_incident g0 in
    let s = g.status in
    if str_eq category ""
    then g0
    else notify (record g {
      failures = inc64 g.failures;
      status = record s {
        retry_at = if s.blocked then s.retry_at else now + provider_backoff s.attempts;
        blocked = true;
        category = category;
        exhausted = leb recovery_trials s.attempts;
      };
    })

-- Observe; a nil error is ignored.
unfoldable pub observe : ℕ → Option Err → ProviderAdmission → ProviderAdmission
unfolding observe_category
observe now none g = g
observe now (some e) g = observe_category now (global_provider_failure e) g

-- What one round of WaitRecovery comes to. `waiting true`: until a change or the retry time.
pub data Recovery : Type 0 where
  abandoned : Recovery
  unblocked : Recovery
  granted : Tag → Recovery
  waiting : Bool → Recovery

-- One round of WaitRecovery; `done` is whether the caller's context has ended.
unfoldable pub wait_recovery : ℕ → Bool → ProviderAdmission → ProviderAdmission × Recovery
wait_recovery now done g =
    let s = g.status in
    let eligible = is_blank g.probe && ltb s.attempts recovery_trials in
    let permit = trial s.incident (s.attempts + 1) in
    if done
    then (g, abandoned)
    else if not s.blocked
    then (g, unblocked)
    else if eligible && leb s.retry_at now
    then (
      record g {
        status = record s { attempts = s.attempts + 1; exhausted = false };
        probe = permit;
        probe_spent = false;
        probe_failures = g.failures;
      },
      granted permit,
    )
    else (g, waiting eligible)

abbrev pub was_canceled : Option Err → Bool
was_canceled none = false
was_canceled (some e) = is_canceled e

abbrev pub is_nil : Option Err → Bool
is_nil none = true
is_nil (some e) = false

-- FinishTrial. `Attempts--` runs only with a trial in flight.
unfoldable pub finish_trial : ℕ → Tag → Option Err → ProviderAdmission → ProviderAdmission
unfolding tag_eq
finish_trial now permit err g =
    let s = g.status in
    let spent = if was_canceled err && not g.probe_spent then s.attempts - 1 else s.attempts in
    if is_blank permit || not (tag_eq g.probe permit)
    then g
    else if is_nil err && g.failures == g.probe_failures
    then notify
        (record g { status = record s { blocked = false; exhausted = false }; probe = blank })
    else notify (record g {
      status = record s {
        attempts = spent;
        retry_at = now + provider_backoff spent;
        exhausted = leb recovery_trials spent;
      };
      probe = blank;
    })

-- Rearm, the operator's reset.
unfoldable pub rearm : ProviderAdmission → ProviderAdmission
rearm g =
    if is_blank g.probe then notify (record g { epoch = inc64 g.epoch; status = no_status }) else g

-- The first `select` of Admit: none while every slot is taken.
unfoldable pub take_slot : ProviderAdmission → Option ProviderAdmission
take_slot g = if ltb g.slots g.concurrency then some (record g { slots = g.slots + 1 }) else none

-- The release function; `sync.OnceFunc` lets it act once.
abbrev pub release_slot : ProviderAdmission → ProviderAdmission
release_slot g = record g { slots = g.slots - 1 }

pub data Admit : Type 0 where
  ended : Admit
  refused : Err → Admit
  admitted : ℕ → Admit
  delayed : ℕ → Admit

-- Whether the caller holds the permit of the trial in flight.
abbrev pub holds_probe : Tag → ProviderAdmission → Bool
holds_probe permit g = not (is_blank g.probe) && tag_eq permit g.probe

-- One round of Admit's loop, with a slot held.
unfoldable pub admit : ℕ → Bool → Tag → ProviderAdmission → ProviderAdmission × Admit
admit now done permit g =
    if done
    then (release_slot g, ended)
    else if g.status.blocked && not (holds_probe permit g)
    then (release_slot g, refused (extraction g.status.category false by_admission))
    else if leb g.next_start now
    then (
      record g {
        next_start = now + g.interval;
        probe_spent = g.probe_spent || holds_probe permit g;
      },
      admitted g.epoch,
    )
    else (g, delayed g.next_start)

-- SustainedMedia: new audio that the current epoch admitted closes the incident.
unfoldable pub sustained_media : Tag → ℕ → ProviderAdmission → ProviderAdmission
sustained_media permit epoch g =
    if not (epoch == g.epoch) || is_blank g.status.incident
    then g
    else if g.status.blocked && (not (holds_probe permit g) || not (g.failures == g.probe_failures))
    then g
    else notify (record g { epoch = inc64 g.epoch; status = no_status; probe = blank })
