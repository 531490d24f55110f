-- ===== src/AudioLevel.antt =====
-- pkg/audio/audiolevel.go: how loud a participant is. The type of float64 values is the parameter
-- `F`; what the source uses of them and of Go's `math` is an instance argument.
pub mod Window
mod Tests
use go_ortc.Base.{ℕ, ◌+◌, ◌*◌, ◌/◌, ◌%◌, ◌^◌, Bool, true, false, ltb, leb, if◌then◌else◌}
use go_ortc.Base.Words.{add32}

pub record Float (F : Type 0) : Type 0 where
  pub of_uint : ℕ → F
  pub neg_inv20 : F
  pub add : F → F → F
  pub sub : F → F → F
  pub mul : F → F → F
  pub div : F → F → F
  pub log10 : F → F
  pub pow10 : F → F
  pub leq : F → F → Bool

abbrev pub silent_audio_level : ℕ
silent_audio_level = 127

pub record AudioLevelParams : Type 0 where
  pub active_level : ℕ
  pub min_percentile : ℕ
  pub observe_duration : ℕ
  pub smooth_intervals : ℕ

pub record AudioLevel (F : Type 0) : Type 0 where
  pub params : AudioLevelParams
  pub min_active_duration : ℕ
  pub smooth_factor : F
  pub active_threshold : F
  pub smoothed_level : F
  pub loudest_observed_level : ℕ
  pub active_duration : ℕ
  pub observed_duration : ℕ

module _ {F : Type 0} ⦃f : Float F⦄ where
  abbrev pub convert_audio_level : F → F
  convert_audio_level level = f.pow10 (f.mul level f.neg_inv20)

  unfoldable pub new_audio_level : AudioLevelParams → AudioLevel F
  new_audio_level params = record {
    params = params;
    min_active_duration = params.min_percentile * params.observe_duration % 2 ^ 32 / 100;
    smooth_factor =
        if ltb 0 params.smooth_intervals
        then f.div (f.of_uint 2) (f.of_uint (add32 params.smooth_intervals 1))
        else f.of_uint 1;
    active_threshold = convert_audio_level (f.of_uint params.active_level);
    smoothed_level = f.of_uint 0;
    loudest_observed_level = silent_audio_level;
    active_duration = 0;
    observed_duration = 0;
  }

  -- The lines of `Observe` before the test of the observed duration.
  unfoldable pub take_frame : AudioLevel F → (level duration_ms : ℕ) → AudioLevel F
  take_frame l level duration_ms =
      let heard = leb level l.params.active_level in
      record l {
        observed_duration = add32 l.observed_duration duration_ms;
        active_duration = if heard then add32 l.active_duration duration_ms else l.active_duration;
        loudest_observed_level =
            if heard
            then if ltb level l.loudest_observed_level then level else l.loudest_observed_level
            else l.loudest_observed_level;
      }

  unfoldable pub smooth : AudioLevel F → F
  smooth l =
      let weight =
        f.mul (f.of_uint 20)
          (f.log10 (f.div (f.of_uint l.active_duration) (f.of_uint l.params.observe_duration))) in
      let linear = convert_audio_level (f.sub (f.of_uint l.loudest_observed_level) weight) in
      f.add l.smoothed_level (f.mul (f.sub linear l.smoothed_level) l.smooth_factor)

  -- The end of a window: compute and reset.
  unfoldable pub end_window : AudioLevel F → AudioLevel F
  end_window l = record l {
    smoothed_level = if leb l.min_active_duration l.active_duration then smooth l else f.of_uint 0;
    loudest_observed_level = silent_audio_level;
    active_duration = 0;
    observed_duration = 0;
  }

  unfoldable pub observe : AudioLevel F → (level duration_ms : ℕ) → AudioLevel F
  observe l level duration_ms =
      let taken = take_frame l level duration_ms in
      if leb taken.params.observe_duration taken.observed_duration then end_window taken else taken

  unfoldable pub get_level : AudioLevel F → F × Bool
  get_level l = (l.smoothed_level, f.leq l.active_threshold l.smoothed_level)
