-- ===== src/Player/Coordinator/Order.antt =====
-- In which order a collection's coordinator hands over what its workers bring.
use whiterun_music_bot.Base.{
  ℕ, ◌≡◌, refl, ap, sym, ◌∙◌, ◌⊎◌, inl, inr, Bool, true, false, Option, some, List, [], ◌∷◌, ◌++◌,
  arith, ◌==◌, if◌then◌else◌, Bool-cases, Option-cases, Each, Each-append,
}
use mathlib.Core.Bool.{true≢false}
use mathlib.Core.Option.{some-injective, none-ne-some}
use mathlib.Core.Path.{subst}
use mathlib.Core.List.{append_assoc, Mem, Subset, mem-cons_self, mem-cons_of_mem}
use whiterun_music_bot.Player.State.{GuildPlayer}
use whiterun_music_bot.Player.Collection.{Resolution, commit}
use whiterun_music_bot.Player.Coordinator.{
  World, Coordinator, tick, record_at, after_commit, commit_at, block, advance, buffer, hold,
  receive_result, receive_all, open_round, round,
}

abbrev index_of : Resolution → ℕ
index_of r = r.index

-- The positions of results.
unfoldable pub indices : List Resolution → List ℕ
indices [] = []
indices (r ∷ rs) = r.index ∷ indices rs

indices-append : (a b : List Resolution) → indices (a ++ b) ≡ indices a ++ indices b
unfolding indices
indices-append [] b = refl
indices-append (r ∷ a) b = ap (◌∷◌ r.index) (indices-append a b)

-- The results of a list that are not blocked, taken as members of a longer one.
members :
    (all rs : List Resolution)
    → Subset rs all
    → Each (λ (r : Resolution). r.blocked ≡ false → (r.blocked ≡ false) × Mem r all) rs
members all [] h = tt
members all (r ∷ rs) h =
    (λ e. (e, h r mem-cons_self), members all rs λ q m. h q (mem-cons_of_mem r m))

-- `ws` are handed over up to the frontier, which `s` waits at; a buffered result stands at its own
-- position, and `P` holds of it and of what was handed over.
pub record InOrder (P : Resolution → Type 0) (ws : List ℕ) (s : Coordinator) : Type 0 where
  pub named : (i : ℕ) (r : Resolution) → s.buffered i ≡ some r → r.index ≡ i
  pub fits : (i : ℕ) (r : Resolution) → s.buffered i ≡ some r → P r
  pub order : indices s.handed ++ s.waiting ≡ ws
  pub handed_fits : Each P s.handed

-- What handing a result over does.
record Handed (r : Resolution) (s t : Coordinator) : Type 0 where
  buffered : t.buffered ≡ s.buffered
  waiting : t.waiting ≡ s.waiting
  outcome :
      ((t.stopped ≡ true) × (t.handed ≡ s.handed))
      ⊎ ((t.handed ≡ s.handed ++ r ∷ []) × (t.stopped ≡ s.stopped))

after_commit-Handed :
    (r : Resolution) (s : Coordinator) (c : GuildPlayer × Bool) → Handed r s (after_commit r s c)
unfolding after_commit
after_commit-Handed r s (p, true) = record {
  buffered = refl;
  waiting = refl;
  outcome = inr (refl, refl);
}
after_commit-Handed r s (p, false) = record {
  buffered = refl;
  waiting = refl;
  outcome = inl (refl, refl);
}

commit_at-Handed :
    (w : World) (id : ℕ) (r : Resolution) (s : Coordinator) → Handed r s (commit_at w id r s)
unfolding commit_at tick
commit_at-Handed w id r s =
    let h =
      after_commit-Handed r (tick w s) (commit id (tick w s).ended (r ∷ []) (tick w s).player) in
    record { buffered = h.buffered; waiting = h.waiting; outcome = h.outcome }

-- Moving the frontier by one.
snoc_order :
    (handed : List Resolution) (r : Resolution) (i : ℕ) (is ws : List ℕ)
    → r.index ≡ i
    → indices handed ++ i ∷ is ≡ ws
    → indices (handed ++ r ∷ []) ++ is ≡ ws
unfolding indices
snoc_order handed r i is ws e h =
    ap (λ (l : List ℕ). l ++ is) (indices-append handed (r ∷ []))
    ∙ append_assoc (indices handed) (r.index ∷ []) is
    ∙ ap (λ (k : ℕ). indices handed ++ k ∷ is) e
    ∙ h

-- A buffered result is the new one or an older one.
buffer-cases :
    (r q : Resolution) (f : ℕ → Option Resolution) (i : ℕ)
    → buffer r f i ≡ some q
    → ((r.index ≡ i) × (r ≡ q)) ⊎ (f i ≡ some q)
buffer-cases r q f i e = elim (Bool-cases (i == r.index)) [
  | inl at ↦
      inl (
        ground arith,
        some-injective _ _ (ap (λ (b : Bool). if b then some r else f i) (sym at) ∙ e),
      )
  | inr away ↦ inr (ap (λ (b : Bool). if b then some r else f i) (sym away) ∙ e)
]

module _ (P : Resolution → Type 0) where
  InOrder-if :
      (ws : List ℕ) (b : Bool) (x y : Coordinator)
      → (b ≡ true → InOrder P ws x)
      → (b ≡ false → InOrder P ws y)
      → InOrder P ws (if b then x else y)
  InOrder-if ws true x y p q = p refl
  InOrder-if ws false x y p q = q refl

  -- The coordinator before its frontier moves on past `r`, and after it.
  moved-InOrder :
      (ws is : List ℕ) (i : ℕ) (r : Resolution) (s t : Coordinator)
      → Handed r s t
      → s.buffered i ≡ some r
      → s.waiting ≡ i ∷ is
      → t.stopped ≡ false
      → InOrder P ws s
      → InOrder P ws (record t { waiting = is })
  moved-InOrder ws is i r s t h e hw hs inv = record {
    named = λ j q f. inv.named j q (ap (λ (g : ℕ → Option Resolution). g j) (sym h.buffered) ∙ f);
    fits = λ j q f. inv.fits j q (ap (λ (g : ℕ → Option Resolution). g j) (sym h.buffered) ∙ f);
    order = elim h.outcome [
      | inl (x, y) ↦ elim (true≢false (sym x ∙ hs)) [ ]
      | inr (x, y) ↦
          ap (λ (l : List Resolution). indices l ++ is) x
          ∙ snoc_order s.handed r i is ws (inv.named i r e)
              (ap (λ (l : List ℕ). indices s.handed ++ l) (sym hw) ∙ inv.order)
    ];
    handed_fits = elim h.outcome [
      | inl (x, y) ↦ elim (true≢false (sym x ∙ hs)) [ ]
      | inr (x, y) ↦
          subst (Each P) (sym x)
            (Each-append P s.handed (r ∷ []) inv.handed_fits (inv.fits i r e, tt))
    ];
  }

  stopped-InOrder :
      (ws : List ℕ) (r : Resolution) (s t : Coordinator)
      → Handed r s t
      → s.stopped ≡ false
      → t.stopped ≡ true
      → InOrder P ws s
      → InOrder P ws t
  stopped-InOrder ws r s t h hs ht inv = record {
    named = λ j q f. inv.named j q (ap (λ (g : ℕ → Option Resolution). g j) (sym h.buffered) ∙ f);
    fits = λ j q f. inv.fits j q (ap (λ (g : ℕ → Option Resolution). g j) (sym h.buffered) ∙ f);
    order = elim h.outcome [
      | inl (x, y) ↦ rw (y, h.waiting) inv.order
      | inr (x, y) ↦ elim (true≢false (sym ht ∙ y ∙ hs)) [ ]
    ];
    handed_fits = elim h.outcome [
      | inl (x, y) ↦ subst (Each P) (sym y) inv.handed_fits
      | inr (x, y) ↦ elim (true≢false (sym ht ∙ y ∙ hs)) [ ]
    ];
  }

  advance-InOrder :
      (w : World) (id : ℕ) (ws is : List ℕ) (s : Coordinator)
      → InOrder P ws (record s { waiting = is })
      → s.stopped ≡ false
      → InOrder P ws (advance w id is s)
  unfolding advance tick
  advance-InOrder w id ws [] s inv hs = inv
  advance-InOrder w id ws (i ∷ is) s inv hs = elim (Option-cases (s.buffered i)) [
    | inl e ↦ rw (e, advance) inv
    | inr (r, e) ↦
        let looked : Coordinator = tick w (record s { waiting = i ∷ is }) in
        let seen : InOrder P ws looked = record {
          named = inv.named;
          fits = inv.fits;
          order = inv.order;
          handed_fits = inv.handed_fits;
        } in
        let h = commit_at-Handed w id r looked in
        rw (e, advance)
          (InOrder-if ws looked.player.provider.blocked (block looked) _
            (λ _. record {
              named = inv.named;
              fits = inv.fits;
              order = inv.order;
              handed_fits = inv.handed_fits;
            })
            λ _.
              InOrder-if ws (commit_at w id r looked).stopped _ _
                (λ over. stopped-InOrder ws r looked (commit_at w id r looked) h hs over seen)
                λ on.
                  advance-InOrder w id ws is (commit_at w id r looked)
                    (moved-InOrder ws is i r looked (commit_at w id r looked) h e refl on seen) on)
  ]

  kept-InOrder :
      (w : World) (id : ℕ) (ws : List ℕ) (r : Resolution) (s : Coordinator)
      → InOrder P ws s
      → P r
      → InOrder P ws (hold r (record_at w id r (tick w s)))
  unfolding record_at tick
  kept-InOrder w id ws r s inv hr = record {
    named = λ i q e. elim (buffer-cases r q s.buffered i e) [
      | inl (at, same) ↦ ap index_of (sym same) ∙ at
      | inr old ↦ inv.named i q old
    ];
    fits = λ i q e. elim (buffer-cases r q s.buffered i e) [
      | inl (at, same) ↦ subst P same hr
      | inr old ↦ inv.fits i q old
    ];
    order = inv.order;
    handed_fits = inv.handed_fits;
  }

  -- A look at the shared state, a halt_round or a block moves nothing.
  looked-InOrder :
      (w : World) (ws : List ℕ) (b c : Bool) (s : Coordinator)
      → InOrder P ws s
      → InOrder P ws (record (tick w s) { blocked = b; stopped = c })
  unfolding tick
  looked-InOrder w ws b c s inv = record {
    named = inv.named;
    fits = inv.fits;
    order = inv.order;
    handed_fits = inv.handed_fits;
  }

  receive_result-InOrder :
      (w : World) (id : ℕ) (ws : List ℕ) (r : Resolution) (s : Coordinator)
      → InOrder P ws s
      → (r.blocked ≡ false → P r)
      → s.stopped ≡ false
      → InOrder P ws (receive_result w id r s)
  unfolding receive_result
  receive_result-InOrder w id ws r s inv fits hs =
      InOrder-if ws (tick w s).ended _ _
        (λ _. unfold tick in looked-InOrder w ws s.blocked true s inv)
        λ _.
          InOrder-if ws r.blocked _ _ (λ _. unfold tick in looked-InOrder w ws true s.stopped s inv)
            λ clear.
              let u = hold r (record_at w id r (tick w s)) in
              advance-InOrder w id ws u.waiting u (kept-InOrder w id ws r s inv (fits clear))
                (unfold record_at tick in hs)

  receive_all-InOrder :
      (w : World) (id : ℕ) (ws is : List ℕ) (rs : List Resolution) (s : Coordinator)
      → InOrder P ws s
      → Each (λ (r : Resolution). r.blocked ≡ false → P r) rs
      → s.stopped ≡ false
      → InOrder P ws (receive_all w id is rs s)
  unfolding receive_all tick
  receive_all-InOrder w id ws [] rs s inv fits hs = inv
  receive_all-InOrder w id ws (i ∷ is) [] s inv fits hs = record {
    named = inv.named;
    fits = inv.fits;
    order = inv.order;
    handed_fits = inv.handed_fits;
  }
  receive_all-InOrder w id ws (i ∷ is) (r ∷ rs) s inv (fit, fits) hs =
      let here = receive_result-InOrder w id ws r s inv fit hs in
      InOrder-if ws (receive_result w id r s).stopped _ _ (λ _. here)
        (receive_all-InOrder w id ws is rs (receive_result w id r s) here fits)

-- A round hands results to commit in the order of its window, whatever the order in which the workers
-- bring them, whatever others do meanwhile and however the round ends: the results of a prefix of the
-- window, one for each of its positions, and the rest of the window still waits. Each of them is one
-- that arrived and that no failure of the provider held back.
pub round_in_order :
    (w : World) (id : ℕ) (ws : List ℕ) (rs : List Resolution) (s : Coordinator)
    → s.stopped ≡ false
    → (indices (round w id ws rs s).handed ++ (round w id ws rs s).waiting ≡ ws)
      × Each (λ (r : Resolution). (r.blocked ≡ false) × Mem r rs) (round w id ws rs s).handed
unfolding round open_round indices
round_in_order w id ws rs s hs =
    let inv =
      receive_all-InOrder (λ (r : Resolution). (r.blocked ≡ false) × Mem r rs) w id ws ws rs
        (open_round ws s)
        (record {
          named = λ i r e. cc;
          fits = λ i r e. absurd (none-ne-some r e);
          order = refl;
          handed_fits = tt;
        })
        (members rs rs λ r m. m) hs in
    (inv.order, inv.handed_fits)
