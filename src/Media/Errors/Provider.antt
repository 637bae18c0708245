-- ===== src/Media/Errors/Provider.antt =====
-- The classifications that drive recovery: ClassifyExtraction
-- (internal/media/extraction_error.go), providerFailureCategory (internal/player/lifecycle.go) and
-- GlobalProviderFailure (internal/media/provider_admission.go).
use whiterun_music_bot.Base.{
  ℕ, Bool, true, false, ◌||◌, Option, none, some, List, [], ◌∷◌, String, str_eq, if◌then◌else◌,
  is_some,
}
use whiterun_music_bot.Media.Errors.{
  Err, Cause, no_cause, by_cancel, by_deadline, extraction, codes, to_lower, contains, contains_any,
  one_of, error_text, as_extraction, as_stream, is_canceled, is_deadline, is_admission_blocked,
  extraction_category, provider_unavailable, failure_category,
}

abbrev pub local_categories : List String
local_categories =
    "youtube_age_restricted" ∷ "youtube_network_timeout" ∷ "youtube_extractor_failure"
    ∷ "youtube_bot_challenge" ∷ "youtube_auth_required" ∷ "youtube_auth_challenge"
    ∷ "youtube_rate_limited" ∷ "youtube_provider_blocked" ∷ []

abbrev pub global_categories : List String
global_categories =
    "youtube_bot_challenge" ∷ "youtube_auth_required" ∷ "youtube_auth_challenge"
    ∷ "youtube_rate_limited" ∷ []

abbrev auth_texts : List String
auth_texts =
    "sign in to confirm" ∷ "confirm you're not a bot" ∷ "confirm you’re not a bot"
    ∷ "authentication required" ∷ "login required" ∷ "cookies are required" ∷ []

abbrev rate_texts : List String
rate_texts = "too many requests" ∷ "rate limit" ∷ "http error 429" ∷ " 429 " ∷ []

-- The `switch` of providerFailureCategory over the lower-cased text.
unfoldable pub text_category : Err → String
unfolding to_lower contains_any error_text
text_category e =
    let text = to_lower (error_text e) in
    if contains_any text auth_texts
    then "youtube_auth_challenge"
    else if contains_any text rate_texts
    then "youtube_rate_limited"
    else ""

-- providerFailureCategory of an error that is not nil; "" when the provider is not to blame.
unfoldable pub provider_failure_category : Err → String
provider_failure_category e =
    if provider_unavailable e
    then extraction_category e
    else if one_of (failure_category e) local_categories
    then failure_category e
    else text_category e

-- isProviderFailure; nil is no failure.
unfoldable pub is_provider_failure : Option Err → Bool
unfolding provider_failure_category
is_provider_failure none = false
is_provider_failure (some e) = if str_eq (provider_failure_category e) "" then false else true

unfoldable pub video_specific : Option (String × Bool) → Bool
video_specific none = false
video_specific (some (category, specific)) = specific

unfoldable pub or_classified : String → Option String → String
or_classified category none = category
or_classified category (some c) = if str_eq category "" then c else category

-- GlobalProviderFailure of an error that is not nil.
unfoldable pub global_provider_failure : Err → String
unfolding video_specific or_classified
global_provider_failure e =
    let category = or_classified (extraction_category e) (as_stream e) in
    if is_admission_blocked e || video_specific (as_extraction e)
    then ""
    else if one_of category global_categories
    then category
    else ""

pub cause_is_deadline : Option Err → Bool
cause_is_deadline none = false
cause_is_deadline (some e) = is_deadline e

pub cause_is_canceled : Option Err → Bool
cause_is_canceled none = false
cause_is_canceled (some e) = is_canceled e

-- The `switch` of ClassifyExtraction over the lower-cased stderr; "" for no failure.
unfoldable pub stderr_category : List ℕ → Option Err → String
unfolding contains contains_any is_deadline cause_is_deadline
stderr_category s cause =
    if contains_any s ("not a bot" ∷ "bot challenge" ∷ [])
    then "youtube_bot_challenge"
    else if contains_any s (
        "sign in" ∷ "log in" ∷ "login required" ∷ "authentication required" ∷ "cookies are required"
        ∷ [])
    then "youtube_auth_required"
    else if contains_any s (
        "http error 429" ∷ "status=429" ∷ "status code 429" ∷ "too many requests" ∷ "rate limit"
        ∷ [])
    then "youtube_rate_limited"
    else if cause_is_deadline cause || contains_any s ("timed out" ∷ "timeout" ∷ [])
    then "youtube_network_timeout"
    else if contains_any s (
        "video unavailable" ∷ "private video" ∷ "has been removed" ∷ "not available in your country"
        ∷ [])
    then "youtube_video_unavailable"
    else if is_some cause || contains s (codes "error:")
    then "youtube_extractor_failure"
    else ""

-- What is kept of the cause: the later assignment wins.
pub safe_cause : Option Err → Cause
unfolding cause_is_deadline cause_is_canceled
safe_cause cause =
    if cause_is_deadline cause
    then by_deadline
    else if cause_is_canceled cause
    then by_cancel
    else no_cause

-- ClassifyExtraction; none is a nil error. The exit code is for the log only.
unfoldable pub classify_extraction : List ℕ → Option Err → Option Err
unfolding to_lower stderr_category safe_cause contains_any
classify_extraction stderr cause =
    let s = to_lower stderr in
    let category = stderr_category s cause in
    if str_eq category ""
    then none
    else some (
        extraction category
          (contains_any s ("confirm your age" ∷ "age-restricted" ∷ "age restricted" ∷ []))
          (safe_cause cause))
