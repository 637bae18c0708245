-- ===== src/Media/Matching/Unique.antt =====
-- What deduplicateCandidates leaves.
use whiterun_music_bot.Base.{
  ◌≡◌, refl, sym, ap, ◌∙◌, inl, inr, Bool, true, false, not, ◌&&◌, Option, none, some, List, [],
  ◌∷◌, ◌++◌, String, str_eq, eq_iff, if◌then◌else◌, arith, Bool-cases, Each, Each-append,
}
use mathlib.Core.Path.{subst}
use whiterun_music_bot.Media.Errors.{one_of}
use whiterun_music_bot.Media.Matching.{
  Candidate, is_video_id, merge, ids, merge_into, add_candidate, add_pool, add_pools, deduplicate,
}

-- No text of the list stands in it again, or in `seen`.
abbrev pub distinct : List String → List String → Bool
distinct seen [] = true
distinct seen (i ∷ is) = not (one_of i seen) && distinct (i ∷ seen) is

distinct-snoc :
    (seen is : List String) (x : String)
    → distinct seen is ≡ true
    → one_of x seen ≡ false
    → one_of x is ≡ false
    → distinct seen (is ++ x ∷ []) ≡ true
unfolding one_of
distinct-snoc seen [] x d s h = ground (arith, s)
distinct-snoc seen (i ∷ is) x d s h = ground (arith, distinct-snoc (i ∷ seen) is x)

module _ {M : Type 0} where
  ids-append : (a b : List (Candidate M)) → ids (a ++ b) ≡ ids a ++ ids b
  ids-append [] b = refl
  ids-append (c ∷ a) b = ap (◌∷◌ c.id) (ids-append a b)

  merge_id : (d c : Candidate M) → str_eq c.id d.id ≡ true → (merge d c).id ≡ d.id
  merge_id d c h = ground (arith, eq_iff c.id d.id)

  merge_into-ids : (c : Candidate M) (ds : List (Candidate M)) → ids (merge_into c ds) ≡ ids ds
  unfolding merge_into
  merge_into-ids c [] = refl
  merge_into-ids c (d ∷ ds) = elim (Bool-cases (str_eq c.id d.id)) [
    | inl e ↦ rw e (ap (λ (i : String). i ∷ ids ds) (merge_id d c e))
    | inr e ↦ rw e (ap (◌∷◌ d.id) (merge_into-ids c ds))
  ]

  -- Valid and distinct identities.
  record IsUnique (cs : List (Candidate M)) : Type 0 where
    once : distinct [] (ids cs) ≡ true
    valid : Each (λ (i : String). is_video_id i ≡ true) (ids cs)

  add_candidate-IsUnique :
      (o : Option (Candidate M)) (cs : List (Candidate M))
      → IsUnique cs
      → IsUnique (add_candidate o cs)
  unfolding add_candidate
  add_candidate-IsUnique none cs u = u
  add_candidate-IsUnique (some c) cs u = elim (Bool-cases (is_video_id c.id)) [
    | inr e ↦ rw e u
    | inl e ↦ rw e (added (one_of c.id (ids cs)) refl e)
  ]
    where
      added :
          (b : Bool)
          → one_of c.id (ids cs) ≡ b
          → is_video_id c.id ≡ true
          → IsUnique (if b then merge_into c cs else cs ++ c ∷ [])
      added true h v = record {
        once = ap (distinct []) (merge_into-ids c cs) ∙ u.once;
        valid =
            subst (Each (λ (i : String). is_video_id i ≡ true)) (sym (merge_into-ids c cs)) u.valid;
      }
      added false h v = record {
        once =
            ap (distinct []) (ids-append cs (c ∷ []))
            ∙ distinct-snoc [] (ids cs) c.id u.once (unfold one_of in refl) h;
        valid = subst (Each (λ (i : String). is_video_id i ≡ true)) (sym (ids-append cs (c ∷ []))) (
            Each-append (λ (i : String). is_video_id i ≡ true) (ids cs) (c.id ∷ []) u.valid
              (v, tt));
      }

  add_pool-IsUnique :
      (pool : List (Option (Candidate M))) (cs : List (Candidate M))
      → IsUnique cs
      → IsUnique (add_pool pool cs)
  unfolding add_pool
  add_pool-IsUnique [] cs u = u
  add_pool-IsUnique (o ∷ pool) cs u =
      add_pool-IsUnique pool (add_candidate o cs) (add_candidate-IsUnique o cs u)

  add_pools-IsUnique :
      (pools : List (List (Option (Candidate M)))) (cs : List (Candidate M))
      → IsUnique cs
      → IsUnique (add_pools pools cs)
  unfolding add_pools
  add_pools-IsUnique [] cs u = u
  add_pools-IsUnique (pool ∷ pools) cs u =
      add_pools-IsUnique pools (add_pool pool cs) (add_pool-IsUnique pool cs u)

-- However often the searches list a video, and with whatever else in their pools, the candidates that
-- are left have distinct identities, each of them a valid video's.
pub deduplicate_lem :
    {M : Type 0} (pools : List (List (Option (Candidate M))))
    → (distinct [] (ids (deduplicate pools)) ≡ true)
      × Each (λ (i : String). is_video_id i ≡ true) (ids (deduplicate pools))
unfolding deduplicate
deduplicate_lem pools =
    let u = add_pools-IsUnique pools [] (record { once = refl; valid = tt }) in (u.once, u.valid)
