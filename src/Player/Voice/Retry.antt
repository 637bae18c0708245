-- ===== src/Player/Voice/Retry.antt =====
-- The loop of recoverVoice (internal/player/voice_recovery.go). The recovery keeps the epoch that it
-- began with. Before each of its two looks at the player in a round other goroutines act: a `World`
-- says what they have done by then and whether the recovery's context has ended. An attempt of index i
-- has the jitter `jitter i`, and the transport's Recover answers it with `answer i`.
use whiterun_music_bot.Base.{
  ℕ, zero, suc, ◌+◌, ◌≤◌, ◌<◌, ◌≡◌, ◌⊎◌, inl, inr, Bool, true, false, Option, none, some, arith,
  is_some, Option-cases, Bool-cases, ◌==◌, refl,
}
use whiterun_music_bot.Player.State.{GuildPlayer}
use whiterun_music_bot.Player.Voice.{start_attempt, end_attempt, max_voice_attempts}
use whiterun_music_bot.Player.Coordinator.{World}

-- The second half of a round, after the wait and the transport's answer.
unfoldable pub end_round : World → ℕ → ℕ → Option ℕ → GuildPlayer → GuildPlayer × Bool
end_round w k epoch answer p = end_attempt (w k).ended epoch answer ((w k).others p)

-- One round, whose first look is the k-th: the state after it and whether the loop goes on.
unfoldable pub retry_round :
    World → ℕ → ℕ → (ℕ → ℕ) → (ℕ → Option ℕ) → GuildPlayer → GuildPlayer × Bool
unfolding end_round
retry_round w k epoch jitter answer p0 =
    let p = (w k).others p0 in
    let attempt = p.voice_circuit.attempts in
    elim (start_attempt (w k).ended epoch (jitter attempt) p.voice_circuit) [
      | none ↦ (p, false)
      | some (c, delay) ↦
          end_round w (k + 1) epoch (answer attempt) (record p { voice_circuit = c })
    ]

-- The loop, for at most `fuel` rounds: the state and whether the loop has ended.
unfoldable pub retry_voice :
    ℕ → World → ℕ → ℕ → (ℕ → ℕ) → (ℕ → Option ℕ) → GuildPlayer → GuildPlayer × Bool
unfolding retry_round
retry_voice zero w k epoch jitter answer p = (p, false)
retry_voice (suc fuel) w k epoch jitter answer p =
    let (q, more) = retry_round w k epoch jitter answer p in
    elim more [ true ↦ retry_voice fuel w (k + 2) epoch jitter answer q | false ↦ (q, true) ]

-- Why the loop has ended: its context has, another epoch has begun, a replacement is attached and the
-- circuit closed, or all attempts are used.
pub record IsRetried (w : World) (epoch : ℕ) (q : GuildPlayer) : Type 0 where
  pub outcome :
      ((j : ℕ) × ((w j).ended ≡ true))
      ⊎ (((epoch == q.voice_circuit.epoch) ≡ false)
          ⊎ (((q.voice_circuit.blocked ≡ false) × (is_some q.voice ≡ true))
              ⊎ (max_voice_attempts ≤ q.voice_circuit.attempts)))

module _ (w : World) (epoch : ℕ)
    (tame : (j : ℕ) (q : GuildPlayer)
      → q.voice_circuit.epoch ≡ epoch
      → ((w j).others q).voice_circuit.epoch ≡ epoch
      → q.voice_circuit.attempts ≤ ((w j).others q).voice_circuit.attempts) where
  end_round_lem :
      (k : ℕ) (answer : Option ℕ) (p : GuildPlayer)
      → p.voice_circuit.epoch ≡ epoch
      → let o = end_round w k epoch answer p in
        ((o.1 ≡ true)
          × (o.0.voice_circuit.epoch ≡ epoch)
          × (p.voice_circuit.attempts ≤ o.0.voice_circuit.attempts)
          × (o.0.voice_circuit.attempts < max_voice_attempts))
        ⊎ ((o.1 ≡ false) × IsRetried w epoch o.0)
  unfolding end_round end_attempt
  end_round_lem k answer p e = elim (Bool-cases (w k).ended) [
    | inl over ↦ elim (Option-cases answer) [
      | inl a ↦ rw (a, over) (inr (refl, record { outcome = inl (k, over) }))
      | inr (v, a) ↦ rw (a, over) (inr (refl, record { outcome = inl (k, over) }))
    ]
    | inr on ↦ elim (Bool-cases (epoch == ((w k).others p).voice_circuit.epoch)) [
      | inr away ↦ elim (Option-cases answer) [
        | inl a ↦ ground (arith, a, on, away)
        | inr (v, a) ↦ ground (arith, a, on, away)
      ]
      | inl same ↦
          let grown = tame k p e (ground (arith, same)) in
          elim (Option-cases answer) [
            | inl a ↦ ground (arith, a, on, same, grown)
            | inr (v, a) ↦ ground (arith, a, on, same, grown)
          ]
    ]
  ]

  retry_round_lem :
      (k : ℕ) (jitter : ℕ → ℕ) (answer : ℕ → Option ℕ) (p : GuildPlayer)
      → p.voice_circuit.epoch ≡ epoch
      → let o = retry_round w k epoch jitter answer p in
        ((o.1 ≡ true)
          × (o.0.voice_circuit.epoch ≡ epoch)
          × (p.voice_circuit.attempts + 1 ≤ o.0.voice_circuit.attempts)
          × (o.0.voice_circuit.attempts < max_voice_attempts))
        ⊎ ((o.1 ≡ false) × IsRetried w epoch o.0)
  unfolding retry_round start_attempt
  retry_round_lem k jitter answer p e =
      let c = ((w k).others p).voice_circuit in
      elim (Bool-cases (w k).ended) [
        | inl over ↦ rw (over, retry_round) (inr (refl, record { outcome = inl (k, over) }))
        | inr on ↦ elim (Bool-cases (epoch == c.epoch)) [
          | inr away ↦ ground (arith, on, away)
          | inl same ↦
              let grown = tame k p e (ground (arith, same)) in
              let rest =
                end_round_lem (k + 1) (answer c.attempts)
                  (record ((w k).others p) {
                    voice_circuit = record c { attempts = c.attempts + 1 };
                  })
                  (ground (arith, same)) in
              ground (arith, on, same, grown, rest)
        ]
      ]

-- With fuel for every attempt that the incident has left, and for at least one round, the recovery
-- that began in the current epoch ends, whatever the transport answers and whatever others do to the
-- player between its looks, when none of it gives attempts back within the epoch: its context has
-- ended, another epoch has begun, it has attached a replacement and closed the circuit, or all five
-- attempts are used.
pub retry_voice_lem :
    (fuel : ℕ) (w : World) (k epoch : ℕ) (jitter : ℕ → ℕ) (answer : ℕ → Option ℕ) (p : GuildPlayer)
    → ((j : ℕ) (q : GuildPlayer)
        → q.voice_circuit.epoch ≡ epoch
        → ((w j).others q).voice_circuit.epoch ≡ epoch
        → q.voice_circuit.attempts ≤ ((w j).others q).voice_circuit.attempts)
    → p.voice_circuit.epoch ≡ epoch
    → 1 ≤ fuel
    → max_voice_attempts ≤ fuel + p.voice_circuit.attempts
    → ((retry_voice fuel w k epoch jitter answer p).1 ≡ true)
      × IsRetried w epoch (retry_voice fuel w k epoch jitter answer p).0
unfolding retry_voice
retry_voice_lem zero w k epoch jitter answer p tame e h l = absurd (omega arith)
retry_voice_lem (suc fuel) w k epoch jitter answer p tame e h l =
    let o = retry_round w k epoch jitter answer p in
    elim (retry_round_lem w epoch tame k jitter answer p e) [
      | inr (stopped, r) ↦ rw (stopped, retry_voice) (refl, r)
      | inl (more, same, used, left) ↦
          rw (more, retry_voice)
            (retry_voice_lem fuel w (k + 2) epoch jitter answer o.0 tame same
              (omega (arith, used, left, l)) (omega (arith, used, left, l)))
    ]
