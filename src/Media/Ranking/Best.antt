-- ===== src/Media/Ranking/Best.antt =====
-- What Select chooses.
use whiterun_music_bot.Base.{
  ◌*◌, ◌≤◌, ◌≡◌, inl, inr, refl, sym, ap, ◌∙◌, Bool, true, false, Option, none, some, List, [], ◌∷◌,
  ◌++◌, length, arith, if◌then◌else◌, Bool-cases, ℤ, neg_part, ◌+ℤ◌, neg, ltb_ℤ, Each, Each-append,
  Each-map, neg_part-add,
}
use mathlib.Core.Path.{subst}
use mathlib.Core.Option.{some-injective}
use mathlib.Core.List.{append_assoc, append-nil}
use whiterun_music_bot.Media.Ranking.{Text}
use whiterun_music_bot.Media.Ranking.Music.{Unicode, Candidate, variants, is_music}
use whiterun_music_bot.Media.Ranking.Score.{
  Breakdown, relevance, relevant_score, source_bonus, version_change, version_changes, music_score,
  final, score, beats, better, select_from, select_best,
}

some_if : {A : Type 0} (b : Bool) (x y : A) → (if b then some x else none) ≡ some y → x ≡ y
some_if true x y h = some-injective x y h
some_if false x y h = cc

if_some :
    {A : Type 0} (b : Bool) (o : Option A) {y : A} → (if b then o else none) ≡ some y → o ≡ some y
if_some true o h = h
if_some false o h = cc

module _ (u : Unicode) (query : Text) where
  version_change_bound : (c : Candidate) (v : Text) → neg_part (version_change u query c v) ≤ 100
  unfolding version_change
  version_change_bound c v = ground arith

  version_changes_bound :
      (c : Candidate) (vs : List Text) → neg_part (version_changes u query c vs) ≤ 100 * length vs
  unfolding version_changes
  version_changes_bound c [] = omega arith
  version_changes_bound c (v ∷ vs) = omega (
    arith,
    version_changes_bound c vs,
    version_change_bound c v,
    neg_part-add (version_change u query c v) (version_changes u query c vs),
  )

  source_bonus_bound : (c : Candidate) → neg_part (source_bonus u query c) ≤ 20
  unfolding source_bonus
  source_bonus_bound c = ground arith

  relevant_bound : (c : Candidate) → neg_part (relevant_score (relevance u query c)) ≤ 64
  unfolding relevance
  relevant_bound c = ground arith

  music_score_bound :
      (c : Candidate) (b : Breakdown)
      → music_score u query c ≡ some b
      → neg_part b.final_score ≤ 1084
  unfolding music_score
  music_score_bound c b h =
      let r = relevant_score (relevance u query c) in
      let versions = version_changes u query c variants in
      let bonus = source_bonus u query c in
      let total : neg_part ((r +ℤ versions) +ℤ bonus) ≤ 1084 = omega (
        arith,
        neg_part-add (r +ℤ versions) bonus,
        neg_part-add r versions,
        relevant_bound c,
        version_changes_bound c variants,
        source_bonus_bound c,
      ) in
      subst (λ (x : Breakdown). neg_part x.final_score ≤ 1084) (some_if _ _ b h) total

  final_bound :
      (o : Option Breakdown) (s : ℤ)
      → ((b : Breakdown) → o ≡ some b → neg_part b.final_score ≤ 1084)
      → final o ≡ some s
      → neg_part s ≤ 1084
  final_bound none s h e = cc
  final_bound (some b) s h e =
      subst (λ (x : ℤ). neg_part x ≤ 1084) (some-injective _ s e) (h b refl)

  score_bound : (c : Candidate) (s : ℤ) → score u query c ≡ some s → neg_part s ≤ 1084
  unfolding score
  score_bound c s h =
      final_bound (music_score u query c) s (music_score_bound c)
        (if_some (is_music u c) (final (music_score u query c)) h)

-- Whether a score, if there is one, is less than another.
abbrev pub falls_short : Option ℤ → ℤ → Bool
falls_short none s = true
falls_short (some t) s = ltb_ℤ t s

-- The first of the candidates with the highest score: `scores` are theirs.
pub record IsFirstBest (scores : Candidate → Option ℤ) (cs : List Candidate) (c : Candidate) (s : ℤ)
    : Type 0 where
  pub before : List Candidate
  pub after : List Candidate
  pub split : cs ≡ before ++ c ∷ after
  pub scored : scores c ≡ some s
  pub earlier : Each (λ (x : Candidate). falls_short (scores x) s ≡ true) before
  pub later : Each (λ (x : Candidate). beats (scores x) s ≡ false) after

-- What a selection is: none when no candidate has a score, else the first best.
abbrev pub IsSelected : (Candidate → Option ℤ) → List Candidate → Option Candidate → Type 0
IsSelected scores cs none = Each (λ (x : Candidate). scores x ≡ none) cs
IsSelected scores cs (some c) = (s : ℤ) × IsFirstBest scores cs c s

-- The state of the loop.
abbrev Standing : (Candidate → Option ℤ) → List Candidate → ℤ → Option Candidate → Type 0
Standing scores cs best none = (best ≡ neg 100000) × Each (λ (x : Candidate). scores x ≡ none) cs
Standing scores cs best (some c) = IsFirstBest scores cs c best

module _ (scores : Candidate → Option ℤ) where
  -- A candidate that beats none leaves the best one standing.
  beaten :
      (cs : List Candidate) (c x : Candidate) (s : ℤ)
      → IsFirstBest scores cs c s
      → beats (scores x) s ≡ false
      → IsFirstBest scores (cs ++ x ∷ []) c s
  beaten cs c x s b h = record {
    before = b.before;
    after = b.after ++ x ∷ [];
    split =
        ap (λ (l : List Candidate). l ++ x ∷ []) b.split
        ∙ append_assoc b.before (c ∷ b.after) (x ∷ []);
    scored = b.scored;
    earlier = b.earlier;
    later =
        Each-append (λ (y : Candidate). beats (scores y) s ≡ false) b.after (x ∷ []) b.later
          (h, tt);
  }

  shorter :
      (o : Option ℤ) (s t : ℤ) → falls_short o s ≡ true → ltb_ℤ s t ≡ true → falls_short o t ≡ true
  shorter none s t h k = refl
  shorter (some r) s t h k = ground arith

  no_better :
      (o : Option ℤ) (s t : ℤ) → beats o s ≡ false → ltb_ℤ s t ≡ true → falls_short o t ≡ true
  no_better none s t h k = refl
  no_better (some r) s t h k = ground arith

  overtaken :
      (cs : List Candidate) (c x : Candidate) (s t : ℤ)
      → IsFirstBest scores cs c s
      → scores x ≡ some t
      → ltb_ℤ s t ≡ true
      → IsFirstBest scores (cs ++ x ∷ []) x t
  overtaken cs c x s t b e h = record {
    before = cs;
    after = [];
    split = refl;
    scored = e;
    earlier = subst (Each (λ (y : Candidate). falls_short (scores y) t ≡ true)) (sym b.split) (
        Each-append (λ (y : Candidate). falls_short (scores y) t ≡ true) b.before (c ∷ b.after)
          (Each-map _ (λ (y : Candidate). falls_short (scores y) t ≡ true) b.before
            (λ y k. shorter (scores y) s t k h) b.earlier)
          (
            ap (λ (o : Option ℤ). falls_short o t) b.scored ∙ h,
            Each-map _ (λ (y : Candidate). falls_short (scores y) t ≡ true) b.after
                (λ y k. no_better (scores y) s t k h) b.later,
          ));
    later = tt;
  }

  first_scored :
      (cs : List Candidate) (x : Candidate) (t : ℤ)
      → Each (λ (y : Candidate). scores y ≡ none) cs
      → scores x ≡ some t
      → IsFirstBest scores (cs ++ x ∷ []) x t
  first_scored cs x t n e = record {
    before = cs;
    after = [];
    split = refl;
    scored = e;
    earlier =
        Each-map _ (λ (y : Candidate). falls_short (scores y) t ≡ true) cs
          (λ y k. ap (λ (o : Option ℤ). falls_short o t) k) n;
    later = tt;
  }

  -- One candidate more.
  step_Standing :
      (cs : List Candidate) (x : Candidate) (best : ℤ) (found : Option Candidate) (o : Option ℤ)
      → scores x ≡ o
      → ((t : ℤ) → o ≡ some t → ltb_ℤ (neg 100000) t ≡ true)
      → Standing scores cs best found
      → Standing scores (cs ++ x ∷ []) (better o best) (if beats o best then some x else found)
  step_Standing cs x best none none e bound (b, n) =
      (b, Each-append (λ (y : Candidate). scores y ≡ none) cs (x ∷ []) n (e, tt))
  step_Standing cs x best (some c) none e bound st =
      beaten cs c x best st (ap (λ (o : Option ℤ). beats o best) e)
  step_Standing cs x best none (some t) e bound (b, n) =
      let k : ltb_ℤ best t ≡ true = ap (λ (s : ℤ). ltb_ℤ s t) b ∙ bound t refl in
      subst
        (λ (w : Bool).
          Standing scores (cs ++ x ∷ []) (if w then t else best) (if w then some x else none))
        (sym k) (first_scored cs x t n e)
  step_Standing cs x best (some c) (some t) e bound st = elim (Bool-cases (ltb_ℤ best t)) [
    | inl k ↦
        subst
          (λ (w : Bool).
            Standing scores (cs ++ x ∷ []) (if w then t else best) (if w then some x else some c))
          (sym k) (overtaken cs c x best t st e k)
    | inr k ↦
        subst
          (λ (w : Bool).
            Standing scores (cs ++ x ∷ []) (if w then t else best) (if w then some x else some c))
          (sym k) (beaten cs c x best st (ap (λ (o : Option ℤ). beats o best) e ∙ k))
  ]

Standing-IsSelected :
    (scores : Candidate → Option ℤ) (cs : List Candidate) (best : ℤ) (found : Option Candidate)
    → Standing scores cs best found
    → IsSelected scores cs found
Standing-IsSelected scores cs best none st = st.1
Standing-IsSelected scores cs best (some c) st = (best, st)

module _ (u : Unicode) (query : Text) where
  above_floor : (c : Candidate) (t : ℤ) → score u query c ≡ some t → ltb_ℤ (neg 100000) t ≡ true
  above_floor c t h = ground (arith, score_bound u query c t h)

  select_from_lem :
      (seen cs : List Candidate) (best : ℤ) (found : Option Candidate)
      → Standing (score u query) seen best found
      → IsSelected (score u query) (seen ++ cs) (select_from u query best found cs)
  unfolding select_from
  select_from_lem seen [] best found st =
      subst (λ (l : List Candidate). IsSelected (score u query) l found) (sym (append-nil seen))
        (Standing-IsSelected (score u query) seen best found st)
  select_from_lem seen (x ∷ cs) best found st =
      let o : Option ℤ = score u query x in
      let best' : ℤ = better o best in
      let found' : Option Candidate = if beats o best then some x else found in
      subst
        (λ (l : List Candidate). IsSelected (score u query) l (select_from u query best' found' cs))
        (append_assoc seen (x ∷ []) cs)
        (select_from_lem (seen ++ x ∷ []) cs best' found'
          (step_Standing (score u query) seen x best found o refl (above_floor x) st))

-- Select finds a candidate exactly when one of them is music that matches a token of the query, and
-- then the first of those with the highest score: those before it score less, those after it not more.
-- So the score of -100000 that its loop starts from is below every candidate's.
pub select_best_lem :
    (u : Unicode) (query : Text) (cs : List Candidate)
    → IsSelected (score u query) cs (select_best u query cs)
unfolding select_best
select_best_lem u query cs = select_from_lem u query [] cs (neg 100000) none (refl, tt)
