-- ===== src/Codecs/Tests.antt =====
-- A search of pkg/rtc/utils.go.
use go_ortc.Base.{ℕ, ◌≡◌, refl, some, List, [], ◌∷◌, arith}
use go_ortc.Codecs.{CodecParameters, text_eq, find_first, codec_parameters_fuzzy_search}
use go_ortc.Codecs.Search.{Answer, codec_parameters_fuzzy_search-Answer}

abbrev codec_of : (mime fmtp : List ℕ) (payload_type : ℕ) → CodecParameters
codec_of mime fmtp payload_type = record {
  mime_type = mime;
  clock_rate = 90000;
  sdp_fmtp_line = fmtp;
  payload_type = payload_type;
}

-- `VP8` is asked for, and the list has `vp8` with another format line, and `vp8` with this one.
abbrev wanted : CodecParameters
wanted = codec_of (86 ∷ 80 ∷ 56 ∷ []) (1 ∷ []) 0

abbrev offered : List CodecParameters
offered =
    codec_of (118 ∷ 112 ∷ 56 ∷ []) (2 ∷ []) 96 ∷ codec_of (118 ∷ 112 ∷ 56 ∷ []) (1 ∷ []) 97 ∷ []

search_run :
    codec_parameters_fuzzy_search wanted offered ≡ some (codec_of (118 ∷ 112 ∷ 56 ∷ []) (1 ∷ []) 97)
unfolding codec_parameters_fuzzy_search find_first text_eq
search_run = refl

codec_parameters_fuzzy_search-Answer_example :
    Answer wanted offered (codec_parameters_fuzzy_search wanted offered)
codec_parameters_fuzzy_search-Answer_example =
    codec_parameters_fuzzy_search-Answer wanted offered (omega arith) (omega arith)
