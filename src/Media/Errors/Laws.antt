-- ===== src/Media/Errors/Laws.antt =====
-- Which failures count against the provider, and how the two classifications relate.
use whiterun_music_bot.Base.{
  ◌≡◌, refl, ◌≢◌, inl, inr, true, false, String, eq_iff, arith, Option-cases,
}
use whiterun_music_bot.Media.Errors.{
  Err, one_of, as_stream, extraction_category, provider_unavailable, failure_category,
  is_voice_failure, unavailable_categories,
}
use whiterun_music_bot.Media.Errors.Provider.{
  local_categories, global_categories, provider_failure_category, global_provider_failure,
}

-- Membership in one list of texts carries over to a list that has them all.
one_of-global : (c : String) → one_of c global_categories ≡ true → one_of c local_categories ≡ true
unfolding one_of
one_of-global c h = ground arith

not-one_of-global : one_of "" global_categories ≡ false
unfolding one_of
not-one_of-global = refl

not-one_of-unavailable : one_of "" unavailable_categories ≡ false
unfolding one_of
not-one_of-unavailable = refl

-- An error that opens the process-wide breaker, and that is no voice failure, is blamed on the
-- provider by the player too, under the same category.
pub global_provider_failure-local :
    (e : Err)
    → is_voice_failure e ≡ false
    → global_provider_failure e ≢ ""
    → provider_failure_category e ≡ global_provider_failure e
unfolding global_provider_failure provider_failure_category failure_category provider_unavailable
global_provider_failure-local e v g = elim (Option-cases (as_stream e)) [
  | inl n ↦ ground (
    arith,
    n,
    one_of-global (extraction_category e),
    eq_iff (extraction_category e) "",
    not-one_of-global,
    not-one_of-unavailable,
  )
  | inr (c, s) ↦ ground (
    arith,
    s,
    one_of-global c,
    one_of-global (extraction_category e),
    eq_iff (extraction_category e) "",
    not-one_of-global,
    not-one_of-unavailable,
  )
]
