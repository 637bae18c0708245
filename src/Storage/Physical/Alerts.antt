-- ===== src/Storage/Physical/Alerts.antt =====
-- internal/storage/physical_linux.go: pollPhysical, one turn of the monitor that sends the alerts.
-- The alert is claimed in the saved state before anything is sent, and settled afterwards. The
-- channels, their eligibility and the sending are parameters, and the file lock is granted. Time is in seconds.
use whiterun_music_bot.Base.{
  ℕ, zero, suc, ◌+◌, ◌^◌, ◌≤◌, ◌<◌, ◌≡◌, ◌≢◌, min, Bool, true, false, not, ◌&&◌, List, [], ◌∷◌,
  Option, none, some, arith, leb, str_eq, if◌then◌else◌,
}
use whiterun_music_bot.Storage.Slots.{PhysicalState, PhysicalEvent, CatalogChannel, load}
use whiterun_music_bot.Storage.Physical.{
  PhysicalQuota, current_usage, observe_usage, save_quota, any_refused,
}

pub data Threshold : Type 0 where
  ninety hundred : Threshold

abbrev pub is_due : ℕ → PhysicalEvent → Bool
is_due now e = e.pending && (not e.delivered && leb e.retry now)

-- The cases of the switch, in order.
unfoldable pub due_alert : ℕ → PhysicalState → Option Threshold
due_alert now s =
    if is_due now s.warn then some ninety else if is_due now s.full then some hundred else none

abbrev pub event_of : Threshold → PhysicalState → PhysicalEvent
event_of ninety s = s.warn
event_of hundred s = s.full

abbrev pub put_event : Threshold → PhysicalEvent → PhysicalState → PhysicalState
put_event ninety e s = record s { warn = e }
put_event hundred e s = record s { full = e }

abbrev pub claimed : ℕ → PhysicalEvent → PhysicalEvent
claimed now e = record e { attempts = e.attempts + 1; retry = now + 60 }

-- How long until the next attempt, after `attempts` earlier ones.
unfoldable pub retry_delay : ℕ → ℕ
retry_delay attempts = min 3600 (2 ^ min attempts 12)

-- The event after its attempt: `attempts` are those before it.
unfoldable pub settled : ℕ → Bool → ℕ → CatalogChannel → PhysicalEvent → PhysicalEvent
unfolding retry_delay
settled now true attempts channel e = record e { delivered = true; channel = channel }
settled now false attempts channel e = record e {
  retry = now + retry_delay attempts;
  channel = channel;
}

-- What the monitor's collaborators answer; none is an error.
pub record Notifier : Type 0 where
  pub channels : Option (List CatalogChannel)
  pub eligible : CatalogChannel → Option Bool
  pub send : CatalogChannel → Bool

abbrev pub with_state : PhysicalState → PhysicalQuota → PhysicalQuota
with_state s q = record q { saved = record q.saved { state = s } }

-- What the choice of a channel ends with: an error, no channel, or one.
pub data Choice : Type 0 where
  choice_fails : Choice
  no_channel : Choice
  chosen : CatalogChannel → Choice

unfoldable pub choose : (CatalogChannel → Option Bool) → List CatalogChannel → Choice
choose eligible [] = no_channel
choose eligible (c ∷ cs) =
    let rest = choose eligible cs in
    elim (eligible c) [ none ↦ choice_fails | some ok ↦ if ok then chosen c else rest ]

-- The channel of an earlier attempt comes first.
unfoldable pub candidates : PhysicalEvent → List CatalogChannel → List CatalogChannel
candidates e cs = if str_eq e.channel.channel "" then cs else e.channel ∷ cs

module _ (marshal : PhysicalState → Option (List ℕ)) (unmarshal : List ℕ → Option PhysicalState)
    (crc32 : List ℕ → ℕ) where
  -- A locked section that loads the state, changes it and saves it; true when all succeed.
  unfoldable pub update : (PhysicalState → PhysicalState) → PhysicalQuota → PhysicalQuota × Bool
  unfolding load save_quota
  update change q = elim (load unmarshal crc32 q.saved) [
    | none ↦ (q, false)
    | some s ↦ save_quota marshal crc32 (with_state (change s.state) (record q { saved = s }))
  ]

  -- What the first section ends with: an error, nothing to do, or a claimed alert.
  pub data Claim : Type 0 where
    claim_fails : Claim
    nothing_due : Claim
    claims : Threshold → PhysicalEvent → Claim

  abbrev pub claim_saved : Threshold → PhysicalEvent → PhysicalQuota × Bool → PhysicalQuota × Claim
  claim_saved t e (q, true) = (q, claims t e)
  claim_saved t e (q, false) = (q, claim_fails)

  -- The first section, once the usage is observed.
  unfoldable pub claim_observed : ℕ → PhysicalQuota × Bool → PhysicalQuota × Claim
  unfolding due_alert save_quota
  claim_observed now (q, false) = (q, claim_fails)
  claim_observed now (q, true) =
      let s = q.saved.state in
      elim (due_alert now s) [
        | none ↦ (q, nothing_due)
        | some t ↦
            let e = event_of t s in
            claim_saved t e
              (save_quota marshal crc32 (with_state (put_event t (claimed now e) s) q))
      ]

  unfoldable pub claim_alert : ℕ → PhysicalQuota → PhysicalQuota × Claim
  unfolding load observe_usage claim_observed current_usage
  claim_alert now q0 = elim (load unmarshal crc32 q0.saved) [
    | none ↦ (q0, claim_fails)
    | some s ↦
        let q = record q0 { saved = s } in
        if any_refused q.files
        then (q, claim_fails)
        else claim_observed now (observe_usage marshal crc32 false (current_usage q) q)
  ]

  -- The sending; the channel that the event has then, and whether it was sent.
  unfoldable pub deliver :
      Notifier → Threshold → PhysicalEvent → PhysicalQuota → PhysicalQuota × (CatalogChannel × Bool)
  unfolding choose candidates update
  deliver n t e q = elim n.channels [
    | none ↦ (q, (e.channel, false))
    | some cs ↦ elim (choose n.eligible (candidates e cs)) [
      | choice_fails ↦ (q, (e.channel, false))
      | no_channel ↦ (q, (e.channel, false))
      | chosen c ↦
          let r = update (λ s. put_event t (record (event_of t s) { channel = c }) s) q in
          (r.0, (c, r.1 && n.send c))
    ]
  ]

  -- The deferred section, and the result: whether there was something to do, and whether all of
  -- it succeeded.
  unfoldable pub settle_alert :
      ℕ
      → Threshold
      → PhysicalEvent
      → PhysicalQuota × (CatalogChannel × Bool)
      → PhysicalQuota × (Bool × Bool)
  unfolding update settled
  settle_alert now t e (q, (channel, ok)) =
      let change =
        λ (s : PhysicalState). put_event t (settled now ok e.attempts channel (event_of t s)) s in
      let r = update change q in (r.0, (true, ok && r.1))

  unfoldable pub poll_claimed : ℕ → Notifier → PhysicalQuota × Claim → PhysicalQuota × (Bool × Bool)
  unfolding deliver settle_alert
  poll_claimed now n (q, claim_fails) = (q, (true, false))
  poll_claimed now n (q, nothing_due) = (q, (false, true))
  poll_claimed now n (q, claims t e) = settle_alert now t e (deliver n t e q)

  -- pollPhysical.
  unfoldable pub poll_physical : ℕ → Notifier → PhysicalQuota → PhysicalQuota × (Bool × Bool)
  unfolding claim_alert poll_claimed
  poll_physical now n q = poll_claimed now n (claim_alert now q)

-- A claim of an alert that is due keeps every other poll from it for a minute.
claim-lease :
    (now later : ℕ) (t : Threshold) (s : PhysicalState)
    → later < now + 60
    → due_alert later (put_event t (claimed now (event_of t s)) s) ≢ some t
unfolding due_alert
claim-lease now later ninety s h e = ground arith
claim-lease now later hundred s h e = ground arith

power_pos : (n : ℕ) → 1 ≤ 2 ^ n
power_pos zero = omega arith
power_pos (suc n) = omega (arith, power_pos n)

retry_delay-bounds : (attempts : ℕ) → (1 ≤ retry_delay attempts) × (retry_delay attempts ≤ 3600)
unfolding retry_delay
retry_delay-bounds attempts = (omega (arith, power_pos (min attempts 12)), omega arith)

-- An alert that is due is claimed for a minute, and no poll within it finds it due; a failed
-- attempt leaves it due again, later than now and at the latest after an hour; a successful one
-- leaves it due never again.
settled_lem :
    (now soon late : ℕ) (t : Threshold) (s : PhysicalState) (channel : CatalogChannel)
    → due_alert now s ≡ some t
    → soon < now + 60
    → now + 3600 ≤ late
    → let lease = claimed now (event_of t s) in
      let failed = settled now false (event_of t s).attempts channel lease in
      let sent = settled now true (event_of t s).attempts channel lease in
      (due_alert soon (put_event t lease s) ≢ some t)
      × (is_due now failed ≡ false)
      × (is_due late failed ≡ true)
      × (is_due late sent ≡ false)
unfolding due_alert settled
settled_lem now soon late ninety s channel d h l =
    let (low, high) = retry_delay-bounds s.warn.attempts in
    (claim-lease now soon ninety s h, ground arith, ground arith, ground arith)
settled_lem now soon late hundred s channel d h l =
    let (low, high) = retry_delay-bounds s.full.attempts in
    (claim-lease now soon hundred s h, ground arith, ground arith, ground arith)
