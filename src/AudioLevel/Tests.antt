-- ===== src/AudioLevel/Tests.antt =====
-- A run of the audio level, and its theorems at concrete inputs. Natural numbers stand for the float64
-- values.
use go_ortc.Base.{ℕ, ◌+◌, ◌-◌, ◌*◌, ◌/◌, ◌^◌, ◌≡◌, refl, List, [], ◌∷◌, ◌++◌, leb, arith}
use go_ortc.AudioLevel.{Float, AudioLevel, new_audio_level, take_frame, observe}
use go_ortc.AudioLevel.Window.{
  Frame, ended, total_active, loudest, Empty, collected, observe_all, observe_all-collected,
  observe-fills,
}

instance whole : Float ℕ
whole = record {
  of_uint = λ n. n;
  neg_inv20 = 1;
  add = λ a b. a + b;
  sub = λ a b. a - b;
  mul = λ a b. a * b;
  div = λ a b. a / b;
  log10 = λ a. a;
  pow10 = λ a. 10 ^ a;
  leq = leb;
}

abbrev fresh : AudioLevel ℕ
fresh = new_audio_level (record {
  active_level = 30;
  min_percentile = 40;
  observe_duration = 100;
  smooth_intervals = 3;
})

abbrev frame : ℕ → Frame
frame level = record { level = level; duration = 20 }

abbrev frames : List Frame
frames = frame 10 ∷ frame 50 ∷ frame 20 ∷ frame 60 ∷ []

run_frames : (observe_all fresh frames).loudest_observed_level ≡ 10
unfolding observe_all observe take_frame new_audio_level
run_frames = refl

observe_all-collected_example : observe_all fresh frames ≡ collected fresh frames
unfolding new_audio_level
observe_all-collected_example =
    observe_all-collected fresh frames (omega arith) (omega arith) (omega arith)

fresh-Empty : Empty fresh
unfolding new_audio_level
fresh-Empty = record { none_observed = refl; none_active = refl; silent = refl }

observe-fills_example :
    observe (observe_all fresh frames) 5 20
    ≡ ended fresh
        (total_active 30 (frames ++ (frame 5 ∷ [])))
        (loudest 30 127 (frames ++ (frame 5 ∷ [])))
unfolding new_audio_level
observe-fills_example =
    observe-fills fresh frames (frame 5) fresh-Empty (omega arith) (omega arith) (omega arith)
