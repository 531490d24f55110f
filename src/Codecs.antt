-- ===== src/Codecs.antt =====
-- The search for a codec in pkg/rtc/utils.go. A text is the list of its bytes.
pub mod Search
mod Tests
use go_ortc.Base.{
  ℕ, ◌+◌, Bool, true, false, ◌&&◌, Option, none, some, List, [], ◌∷◌, ◌==◌, leb, if◌then◌else◌,
}

-- pion's `RTPCodecParameters`, as far as the sources read it.
pub record CodecParameters : Type 0 where
  pub mime_type : List ℕ
  pub clock_rate : ℕ
  pub sdp_fmtp_line : List ℕ
  pub payload_type : ℕ

-- An ASCII letter in lower case; other bytes are left alone.
abbrev pub to_lower : ℕ → ℕ
to_lower c = if leb 65 c && leb c 90 then c + 32 else c

unfoldable pub text_eq : List ℕ → List ℕ → Bool
text_eq [] [] = true
text_eq [] (c ∷ t) = false
text_eq (c ∷ s) [] = false
text_eq (c ∷ s) (d ∷ t) = c == d && text_eq s t

abbrev pub lower : List ℕ → List ℕ
lower [] = []
lower (c ∷ s) = to_lower c ∷ lower s

-- `strings.EqualFold` on ASCII texts: mime types are. It also folds the letters of Unicode, and a text
-- with other bytes is outside of this model.
abbrev pub equal_fold : List ℕ → List ℕ → Bool
equal_fold s t = text_eq (lower s) (lower t)

abbrev pub same_mime : (needle c : CodecParameters) → Bool
same_mime needle c = equal_fold c.mime_type needle.mime_type

abbrev pub is_exact : (needle c : CodecParameters) → Bool
is_exact needle c = same_mime needle c && text_eq c.sdp_fmtp_line needle.sdp_fmtp_line

-- A loop that returns the first codec that passes its test.
unfoldable pub find_first : (CodecParameters → Bool) → List CodecParameters → Option CodecParameters
find_first test [] = none
find_first test (c ∷ haystack) = if test c then some c else find_first test haystack

-- The codec of the first loop, or else what the second one finds.
abbrev pub or_else : Option CodecParameters → Option CodecParameters → Option CodecParameters
or_else (some c) other = some c
or_else none other = other

-- `none` is `webrtc.ErrCodecNotFound`.
unfoldable pub codec_parameters_fuzzy_search :
    CodecParameters → List CodecParameters → Option CodecParameters
codec_parameters_fuzzy_search needle haystack =
    or_else (find_first (is_exact needle) haystack) (find_first (same_mime needle) haystack)
