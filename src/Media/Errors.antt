-- ===== src/Media/Errors.antt =====
-- Go error values as far as the bot looks into them, and the functions that classify them:
-- internal/media/extraction_error.go, internal/media/provider_admission.go,
-- internal/player/lifecycle.go and internal/player/voice_recovery.go.
-- An error is a tree: a wrapped error is walked by `errors.As` and `errors.Is` in preorder.
pub mod Provider
pub mod Laws
use Prim.Native.Char.{code}
use whiterun_music_bot.Base.{
  ℕ, ◌+◌, Bool, true, false, ◌&&◌, ◌||◌, Option, none, some, List, [], ◌∷◌, ◌++◌, String, str_eq,
  leb, ◌==◌, if◌then◌else◌,
}

pub data MatchStatus : Type 0 where
  confirmed uncertain rejected : MatchStatus

-- `Cause` of an ExtractionError: only these are ever stored.
pub data Cause : Type 0 where
  no_cause by_cancel by_deadline by_admission : Cause

pub data Err : Type 0 where
  message : String → Err
  canceled : Err
  deadline_exceeded : Err
  voice_unavailable : Err
  admission_blocked : Err
  stream : String → Err → Err
  extraction : String → Bool → Cause → Err
  match_error : MatchStatus → String → Err
  wrapped : String → Err → Err
  joined : Err → Err → Err

abbrev codes : String → List ℕ
codes String.[] = []
codes (String.◌∷◌ c s) = code c ∷ codes s

-- Of the letters outside ASCII, strings.ToLower takes only U+0130 and U+212A to ASCII ones.
lower_code : ℕ → ℕ
lower_code c =
    if leb b'A' c && leb c b'Z'
    then c + 32
    else if c == 0x130
    then b'i'
    else if c == 0x212a
    then b'k'
    else c

unfoldable pub to_lower : List ℕ → List ℕ
unfolding lower_code
to_lower [] = []
to_lower (c ∷ cs) = lower_code c ∷ to_lower cs

unfoldable pub starts_with : List ℕ → List ℕ → Bool
starts_with s [] = true
starts_with [] (p ∷ ps) = false
starts_with (c ∷ s) (p ∷ ps) = c == p && starts_with s ps

unfoldable pub contains : List ℕ → List ℕ → Bool
unfolding starts_with
contains [] p = starts_with [] p
contains (c ∷ s) p = starts_with (c ∷ s) p || contains s p

unfoldable pub contains_any : List ℕ → List String → Bool
unfolding contains
contains_any s [] = false
contains_any s (p ∷ ps) = contains s (codes p) || contains_any s ps

unfoldable pub one_of : String → List String → Bool
one_of c [] = false
one_of c (x ∷ xs) = str_eq c x || one_of c xs

-- `err.Error()`; the exit code that an ExtractionError may print is left out of its text.
unfoldable pub error_text : Err → List ℕ
error_text (message m) = codes m
error_text canceled = codes "context canceled"
error_text deadline_exceeded = codes "context deadline exceeded"
error_text voice_unavailable = codes "voice transport unavailable"
error_text admission_blocked = codes "YouTube admission suspended"
error_text (stream category e) = codes category ++ (codes ": " ++ error_text e)
error_text (extraction category specific cause) = codes "YouTube extraction: " ++ codes category
error_text (match_error status reason) =
    codes "Could not find a matching YouTube recording for this Spotify track."
error_text (wrapped prefix e) = codes prefix ++ error_text e
error_text (joined a b) = error_text a ++ (10 ∷ error_text b)

or_else {ℓ} : {A : Type ℓ} → Option A → Option A → Option A
or_else none b = b
or_else (some a) b = some a

-- errors.As(err, &*ExtractionError).
unfoldable pub as_extraction : Err → Option (String × Bool)
unfolding or_else
as_extraction (extraction category specific cause) = some (category, specific)
as_extraction (stream category e) = as_extraction e
as_extraction (wrapped prefix e) = as_extraction e
as_extraction (joined a b) = or_else (as_extraction a) (as_extraction b)
as_extraction _ = none

-- errors.As(err, &*StreamError): its category. Only StreamError has ProviderCategory.
unfoldable pub as_stream : Err → Option String
unfolding or_else
as_stream (stream category e) = some category
as_stream (wrapped prefix e) = as_stream e
as_stream (joined a b) = or_else (as_stream a) (as_stream b)
as_stream _ = none

unfoldable pub is_canceled : Err → Bool
is_canceled canceled = true
is_canceled (stream category e) = is_canceled e
is_canceled (extraction category specific by_cancel) = true
is_canceled (wrapped prefix e) = is_canceled e
is_canceled (joined a b) = is_canceled a || is_canceled b
is_canceled _ = false

unfoldable pub is_deadline : Err → Bool
is_deadline deadline_exceeded = true
is_deadline (stream category e) = is_deadline e
is_deadline (extraction category specific by_deadline) = true
is_deadline (wrapped prefix e) = is_deadline e
is_deadline (joined a b) = is_deadline a || is_deadline b
is_deadline _ = false

unfoldable pub is_admission_blocked : Err → Bool
is_admission_blocked admission_blocked = true
is_admission_blocked (stream category e) = is_admission_blocked e
is_admission_blocked (extraction category specific by_admission) = true
is_admission_blocked (wrapped prefix e) = is_admission_blocked e
is_admission_blocked (joined a b) = is_admission_blocked a || is_admission_blocked b
is_admission_blocked _ = false

-- isVoiceFailure: `errors.Is(err, errVoiceUnavailable)`, or a voice category anywhere in the tree.
unfoldable pub is_voice_failure : Err → Bool
unfolding one_of
is_voice_failure voice_unavailable = true
is_voice_failure (stream category e) =
    one_of category ("voice_speaking" ∷ "voice_send" ∷ "voice_transport" ∷ []) || is_voice_failure e
is_voice_failure (wrapped prefix e) = is_voice_failure e
is_voice_failure (joined a b) = is_voice_failure a || is_voice_failure b
is_voice_failure _ = false

pub first_category : Option (String × Bool) → String
first_category none = ""
first_category (some (category, specific)) = category

-- ExtractionCategory; "" when there is none.
unfoldable pub extraction_category : Err → String
unfolding as_extraction first_category
extraction_category e = first_category (as_extraction e)

abbrev pub unavailable_categories : List String
unavailable_categories =
    "youtube_bot_challenge" ∷ "youtube_auth_required" ∷ "youtube_rate_limited"
    ∷ "youtube_network_timeout" ∷ "youtube_extractor_failure" ∷ []

-- ProviderUnavailable.
unfoldable pub provider_unavailable : Err → Bool
provider_unavailable e = one_of (extraction_category e) unavailable_categories

abbrev pub stream_category : Option String → Err → String
stream_category (some category) e = category
stream_category none e =
    if is_canceled e || is_deadline e then "unexpected_cancellation" else "playback_failure"

-- failureCategory of an error that is not nil (of nil it is "eof").
unfoldable pub failure_category : Err → String
failure_category e =
    let category = extraction_category e in
    if is_voice_failure e
    then "voice_transport"
    else if str_eq category ""
    then stream_category (as_stream e) e
    else category
