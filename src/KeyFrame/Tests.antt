-- ===== src/KeyFrame/Tests.antt =====
-- Runs of the key frame tests, and their theorems at concrete inputs.
use go_ortc.Base.{◌≡◌, refl, List, [], ◌∷◌, true, false, arith}
use go_ortc.KeyFrame.{
  ret, panic, aggregate_loop, is_h264_keyframe, cut_obu, size_loop, get_obu, judge, obu_loop,
  is_av1_keyframe,
}
use go_ortc.KeyFrame.H264.{Returns, is_h264_keyframe-Returns}
use go_ortc.KeyFrame.Stap.{Unit264, aggregate, has_sps, Small, stap_a_keyframe}
use go_ortc.KeyFrame.Av1.{Ends, is_av1_keyframe-Ends, ten_byte_size, is_av1_keyframe_panics}

-- A picture parameter set and a sequence parameter set.
abbrev units : List Unit264
units = record { header = 0x68; body = 1 ∷ 2 ∷ [] } ∷ record { header = 0x67; body = 3 ∷ [] } ∷ []

run_stap : is_h264_keyframe (0x78 ∷ 0 ∷ 3 ∷ 0x68 ∷ 1 ∷ 2 ∷ 0 ∷ 2 ∷ 0x67 ∷ 3 ∷ []) ≡ ret true
unfolding is_h264_keyframe aggregate_loop
run_stap = refl

run_fragment : is_h264_keyframe (0x7c ∷ 0x85 ∷ []) ≡ ret false
unfolding is_h264_keyframe aggregate_loop
run_fragment = refl

-- A sequence header of two bytes, then a frame header of a key frame.
run_av1 : is_av1_keyframe (0x28 ∷ 2 ∷ 0x0a ∷ 0 ∷ 0x1a ∷ 0x10 ∷ []) ≡ ret true
unfolding is_av1_keyframe obu_loop get_obu size_loop cut_obu judge
run_av1 = refl

is_h264_keyframe-Returns_example : Returns (is_h264_keyframe (0x79 ∷ 0 ∷ []))
is_h264_keyframe-Returns_example = is_h264_keyframe-Returns (0x79 ∷ 0 ∷ [])

stap_a_keyframe_example : is_h264_keyframe (0x78 ∷ aggregate units) ≡ ret (has_sps units)
unfolding Small
stap_a_keyframe_example = stap_a_keyframe 0x78 units refl (omega arith)

is_av1_keyframe-Ends_example : Ends (is_av1_keyframe (0x28 ∷ 2 ∷ 0x0a ∷ []))
is_av1_keyframe-Ends_example = is_av1_keyframe-Ends (0x28 ∷ 2 ∷ 0x0a ∷ [])

is_av1_keyframe_panics_example : is_av1_keyframe (0x28 ∷ ten_byte_size (7 ∷ [])) ≡ panic
is_av1_keyframe_panics_example = is_av1_keyframe_panics 0x28 (7 ∷ []) refl (omega arith)
