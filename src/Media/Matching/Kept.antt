-- ===== src/Media/Matching/Kept.antt =====
-- What a resolution returns and keeps.
use whiterun_music_bot.Base.{
  ◌≡◌, refl, Bool, true, false, not, ◌&&◌, Option, none, some, List, str_eq, if◌then◌else◌, arith,
  Each, Each-map,
}
use whiterun_music_bot.Media.Errors.{
  MatchStatus, confirmed, uncertain, rejected, extraction_category,
}
use whiterun_music_bot.Media.Matching.{MatchPolicy, compare_spotify, Candidate, is_video_id}
use whiterun_music_bot.Media.Matching.Selecting.{
  Verification, full, failed, SpotifySearch, Selection, chosen, refused,
}
use whiterun_music_bot.Media.Matching.Discovery.{Query, discover_spotify}
use whiterun_music_bot.Media.Matching.Confirmed.{discover_spotify_chosen}
use whiterun_music_bot.Media.Matching.Mapping.{
  Loaded, no_store, unreadable, absent, stored, Revalidation, MappingWrite, saves, deletes,
  is_confirmed, reconfirmed, revalidate, try_mapping, has_store, complete_with, resolve_spotify,
}

module _ {M : Type 0} where
  -- A write that keeps nothing but the given recording; one that keeps nothing.
  abbrev pub Keeps : Candidate M → MappingWrite M → Type 0
  Keeps g (saves c) = c ≡ g
  Keeps g deletes = Unit

  abbrev pub IsDeletion : MappingWrite M → Type 0
  IsDeletion (saves c) = ⊥
  IsDeletion deletes = Unit

  -- A returned recording is one that CompareSpotify confirms, and no other one is kept; with an error
  -- none is.
  abbrev pub IsSound : MatchPolicy → SpotifySearch M → Selection M × List (MappingWrite M) → Type 0
  IsSound p s (chosen g, writes) =
      (compare_spotify p (s.evidence g) ≡ confirmed) × Each (Keeps g) writes
  IsSound p s (refused e, writes) = Each IsDeletion writes

  abbrev IsSoundTry :
      MatchPolicy → SpotifySearch M → Option (Selection M) × List (MappingWrite M) → Type 0
  IsSoundTry p s (some r, writes) = IsSound p s (r, writes)
  IsSoundTry p s (none, writes) = Each IsDeletion writes

confirmed_status : (m : MatchStatus) → is_confirmed m ≡ true → m ≡ confirmed
confirmed_status confirmed h = refl
confirmed_status uncertain h = cc
confirmed_status rejected h = cc

and_right : (a b : Bool) → (a && b) ≡ true → b ≡ true
and_right a b h = ground arith

IsDeletion-Keeps : {M : Type 0} (g : Candidate M) (w : MappingWrite M) → IsDeletion w → Keeps g w
IsDeletion-Keeps g (saves c) h = elim h [ ]
IsDeletion-Keeps g deletes h = tt

module _ {M : Type 0} (p : MatchPolicy) (s : SpotifySearch M) where
  sound_if :
      (b : Bool) (x y : Option (Selection M) × List (MappingWrite M))
      → (b ≡ true → IsSoundTry p s x)
      → IsSoundTry p s y
      → IsSoundTry p s (if b then x else y)
  sound_if true x y f k = f refl
  sound_if false x y f k = k

  revalidate-IsSound :
      (r : Revalidation M) (cached : Candidate M) (v : Verification M)
      → IsSoundTry p s (revalidate p s r cached v)
  unfolding revalidate
  revalidate-IsSound r cached (full f) =
      sound_if (reconfirmed p s cached f) _ _
        (λ e. (confirmed_status _ (and_right (str_eq f.id cached.id) _ e), (refl, tt)))
        (sound_if r.ended _ _ (λ _. (tt, tt)) (tt, tt))
  revalidate-IsSound r cached (failed e) =
      sound_if
        (not (r.is_mismatch e) && not (str_eq (extraction_category e) "youtube_video_unavailable"))
        _ _ (λ _. tt)
        (sound_if r.ended _ _ (λ _. (tt, tt))
          (sound_if (not (r.is_mismatch e)) _ _ (λ _. (tt, tt)) (tt, tt)))

  try_mapping-IsSound :
      (r : Revalidation M) (loaded : Loaded M) → IsSoundTry p s (try_mapping p s r loaded)
  unfolding try_mapping
  try_mapping-IsSound r no_store = tt
  try_mapping-IsSound r unreadable = tt
  try_mapping-IsSound r absent = tt
  try_mapping-IsSound r (stored cached) =
      sound_if (not (is_video_id cached.id)) _ _ (λ _. tt)
        (sound_if (r.covered cached && is_confirmed (compare_spotify p (s.evidence cached))) _ _
          (λ e. (confirmed_status _ (and_right (r.covered cached) _ e), tt))
          (revalidate-IsSound r cached r.video))

  complete_with-IsSound :
      (store : Bool) (found : Selection M) (t : Option (Selection M) × List (MappingWrite M))
      → ((g : Candidate M) → found ≡ chosen g → compare_spotify p (s.evidence g) ≡ confirmed)
      → IsSoundTry p s t
      → IsSound p s (complete_with store found t)
  complete_with-IsSound store found (some r, writes) f k = k
  complete_with-IsSound true (chosen g) (none, writes) f k =
      (f g refl, (refl, Each-map IsDeletion (Keeps g) writes (IsDeletion-Keeps g) k))
  complete_with-IsSound false (chosen g) (none, writes) f k =
      (f g refl, Each-map IsDeletion (Keeps g) writes (IsDeletion-Keeps g) k)
  complete_with-IsSound true (refused e) (none, writes) f k = k
  complete_with-IsSound false (refused e) (none, writes) f k = k

-- Whatever mapping is stored, whatever its verification and the searches bring, whatever fails and
-- whenever the context ends: a recording that resolveSpotify returns, the one of the mapping, its new
-- metadata or a discovered one, is one that CompareSpotify confirms, and no other recording is saved as
-- a mapping. A resolution that ends with an error saves none.
pub resolve_spotify_lem :
    {M : Type 0} (p : MatchPolicy) (s : SpotifySearch M) (r : Revalidation M) (loaded : Loaded M)
    → (qs : List (Query M)) → IsSound p s (resolve_spotify p s r loaded qs)
unfolding resolve_spotify
resolve_spotify_lem p s r loaded qs =
    complete_with-IsSound p s (has_store loaded) (discover_spotify p s qs)
      (try_mapping p s r loaded) (λ g h. (discover_spotify_chosen p s qs g h).status)
      (try_mapping-IsSound p s r loaded)
