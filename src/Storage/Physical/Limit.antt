-- ===== src/Storage/Physical/Limit.antt =====
-- The guard keeps the files within the limit, and a refused call leaves them as they were.
use whiterun_music_bot.Base.{
  ℕ, ◌+◌, ◌≤◌, ◌<◌, ◌≡◌, refl, max, Bool, true, false, List, Option, none, some, ◌⊎◌, inl, inr,
  arith, ltb, ◌==◌, Bool-cases,
}
use whiterun_music_bot.Storage.Slots.{PhysicalState, Saved, load}
use whiterun_music_bot.Storage.Physical.{
  PhysicalQuota, PhysicalUsage, GuardedCall, Code, full_disk, io_error, returned, FileName, Files,
  main, locked, guard, guard_projected, guard_based, guard_loaded, admit_call, refuse_call,
  run_call, observe_usage, save_quota, admit_seen, admit_saved, is_admitted, projected_usage,
  current_usage, growth, total, next_base, with_base, noted, any_refused, answer,
  physical_allocation_reserve,
}

-- What the native call may do: extend its target as far as was charged.
abbrev pub Confined : GuardedCall → Files → Type 0
Confined c f = total (c.body f).0 ≤ total f + growth f c.target

is_admitted-files :
    (base : ℕ) (target : Option (FileName × ℕ)) (q : PhysicalQuota)
    → is_admitted base target q ≡ true
    → (total q.files + growth q.files target ≤ q.saved.state.limit)
      × (0 < growth q.files target
          → total q.files + growth q.files target + physical_allocation_reserve
            ≤ q.saved.state.limit)
unfolding is_admitted projected_usage current_usage
is_admitted-files base target q e = ground arith

module _ (marshal : PhysicalState → Option (List ℕ)) (crc32 : List ℕ → ℕ) where
  -- What observe leaves as it was, and the limit.
  pub observe_usage-files :
      (denied : Bool) (u : PhysicalUsage) (q : PhysicalQuota)
      → (observe_usage marshal crc32 denied u q).0.files ≡ q.files
  unfolding observe_usage save_quota
  observe_usage-files denied u q = elim (Bool-cases (noted denied u q.saved.state).changed) [
    | inl e ↦ rw e refl
    | inr e ↦ rw e refl
  ]

  answer-files : (code : Code) (r : PhysicalQuota × Bool) → (answer code r).0 ≡ r.0
  answer-files code (q, true) = refl
  answer-files code (q, false) = refl

  refuse_call-files :
      (base : ℕ) (q : PhysicalQuota) → (refuse_call marshal crc32 base q).0.files ≡ q.files
  unfolding refuse_call
  refuse_call-files base q =
      rw
        (answer-files full_disk
          (observe_usage marshal crc32 true (current_usage (with_base base q)) (with_base base q)))
        (observe_usage-files true (current_usage (with_base base q)) (with_base base q))

  run_call-files :
      (body : Files → Files × ℕ) (q : PhysicalQuota)
      → (run_call marshal crc32 body q).0.files ≡ (body q.files).0
  unfolding run_call
  run_call-files body q = elim (Bool-cases (any_refused (body q.files).0)) [
    | inl e ↦ rw e refl
    | inr e ↦ elim (Bool-cases (ltb q.saved.state.limit (total (body q.files).0))) [
      | inl f ↦ rw (e, f) refl
      | inr f ↦
          rw
            (
              e,
              f,
              answer-files (returned (body q.files).1) (
                  observe_usage marshal crc32 false
                    (current_usage (record q { files = (body q.files).0 }))
                    (record q {
                      files = (body q.files).0;
                      peak = max q.peak (total (body q.files).0);
                    })),
            )
            (observe_usage-files false (current_usage (record q { files = (body q.files).0 }))
              (record q { files = (body q.files).0; peak = max q.peak (total (body q.files).0) }))
    ]
  ]

  -- Whether the files are the ones before the call or the ones that it made.
  abbrev OneOf : GuardedCall → Files → Files → Type 0
  OneOf c f g = (g ≡ f) ⊎ (g ≡ (c.body f).0)

  OneOf-from : (c : GuardedCall) (f g h : Files) → f ≡ g → OneOf c f h → OneOf c g h
  OneOf-from c f g h e o = rw (← e) o

  admit_seen-files :
      (c : GuardedCall) (r : PhysicalQuota × Bool)
      → OneOf c r.0.files (admit_seen marshal crc32 c.body r).0.files
  unfolding admit_seen
  admit_seen-files c (q, true) = inr (run_call-files c.body q)
  admit_seen-files c (q, false) = inl refl

  admit_saved-files :
      (u : PhysicalUsage) (c : GuardedCall) (r : PhysicalQuota × Bool)
      → OneOf c r.0.files (admit_saved marshal crc32 u c.body r).0.files
  unfolding admit_saved
  admit_saved-files u c (q, true) =
      let seen = admit_seen-files c (observe_usage marshal crc32 false u q) in
      OneOf-from c _ _ _ (observe_usage-files false u q) seen
  admit_saved-files u c (q, false) = inl refl

  admit_call-files :
      (base : ℕ) (c : GuardedCall) (q : PhysicalQuota)
      → OneOf c q.files (admit_call marshal crc32 base c q).0.files
  unfolding admit_call save_quota
  admit_call-files base c q = elim (Bool-cases (q.saved.state.base == base)) [
    | inl e ↦ rw e (admit_saved-files (projected_usage q c.target) c (q, true))
    | inr e ↦ rw e (admit_saved-files (projected_usage q c.target) c (save_quota marshal crc32 q))
  ]

module _ (marshal : PhysicalState → Option (List ℕ)) (crc32 : List ℕ → ℕ) where
  -- The files are as before, or the call ran after its growth was found to fit.
  abbrev Guarded : GuardedCall → Files → ℕ → PhysicalQuota × Code → Type 0
  Guarded c f limit r =
      (r.0.files ≡ f) ⊎ ((r.0.files ≡ (c.body f).0) × (total f + growth f c.target ≤ limit))

  guard_projected-Guarded :
      (base : ℕ) (c : GuardedCall) (q : PhysicalQuota)
      → Guarded c q.files q.saved.state.limit (guard_projected marshal crc32 base c q)
  unfolding guard_projected
  guard_projected-Guarded base c q = elim (Bool-cases (any_refused q.files)) [
    | inl e ↦ rw e (inl refl)
    | inr e ↦ elim (Bool-cases (is_admitted base c.target q)) [
      | inl f ↦
          rw (e, f)
            (elim (admit_call-files marshal crc32 base c q) [
              | inl same ↦ inl same
              | inr ran ↦ inr (ran, (is_admitted-files base c.target q f).0)
            ])
      | inr f ↦ rw (e, f) (inl (refuse_call-files marshal crc32 base q))
    ]
  ]

  guard_based-Guarded :
      (c : GuardedCall) (q : PhysicalQuota) (base : Option ℕ)
      → Guarded c q.files q.saved.state.limit (guard_based marshal crc32 c q base)
  unfolding guard_based
  guard_based-Guarded c q none = inl refl
  guard_based-Guarded c q (some base) =
      guard_projected-Guarded q.saved.state.base c (with_base base q)

  locked-Guarded :
      (c : GuardedCall) (f : Files) (limit : ℕ) (granted : Bool) (q : PhysicalQuota)
      (r : PhysicalQuota × Code)
      → q.files ≡ f
      → Guarded c f limit r
      → Guarded c f limit (locked granted (q, io_error) r)
  locked-Guarded c f limit true q r e g = g
  locked-Guarded c f limit false q r e g = inl e

module _ (marshal : PhysicalState → Option (List ℕ)) (unmarshal : List ℕ → Option PhysicalState)
    (crc32 : List ℕ → ℕ) where
  guard-Guarded :
      (c : GuardedCall) (q : PhysicalQuota) (s : Saved)
      → load unmarshal crc32 q.saved ≡ some s
      → Guarded marshal crc32 c q.files s.state.limit (guard marshal unmarshal crc32 c q)
  unfolding guard guard_loaded
  guard-Guarded c q s e =
      let loaded =
        guard_based-Guarded marshal crc32 c (record q { saved = s })
          (next_base c.wal_reset (q.files main) s.state.base) in
      locked-Guarded marshal crc32 c q.files s.state.limit c.lock_granted q _ refl (rw e loaded)

  -- Files within the limit stay within it over a guarded call, when the state on disk can be
  -- loaded and the call extends its file no further than what was charged for it.
  pub guard-total :
      (c : GuardedCall) (q : PhysicalQuota) (s : Saved)
      → load unmarshal crc32 q.saved ≡ some s
      → Confined c q.files
      → total q.files ≤ s.state.limit
      → total (guard marshal unmarshal crc32 c q).0.files ≤ s.state.limit
  guard-total c q s e k h = elim (guard-Guarded c q s e) [
    | inl same ↦ rw same h
    | inr (ran, fits) ↦ rw ran (omega (arith, k, fits))
  ]
