-- ===== src/AudioLevel/Window.antt =====
-- What a window of pkg/audio/audiolevel.go has of the frames observed in it.
use go_ortc.Base.{
  ℕ, ◌+◌, ◌≤◌, ◌<◌, ◌≡◌, ap, ap₂, refl, sym, ◌++◌, ◌∙◌, true, false, List, [], ◌∷◌, ltb, leb,
  if◌then◌else◌, arith,
}
use go_ortc.Base.Words.{add32}
use go_ortc.AudioLevel.{Float, AudioLevel, take_frame, smooth, end_window, observe}

-- A frame: its level, where 0 is loudest, and its duration.
pub record Frame : Type 0 where
  pub level : ℕ
  pub duration : ℕ

abbrev pub total : List Frame → ℕ
total [] = 0
total (x ∷ xs) = x.duration + total xs

-- The duration of the frames that are as loud as the threshold.
abbrev pub total_active : (active_level : ℕ) → List Frame → ℕ
total_active threshold [] = 0
total_active threshold (x ∷ xs) =
    (if leb x.level threshold then x.duration else 0) + total_active threshold xs

-- The loudest of the levels that are as loud as the threshold, and `most`.
abbrev pub loudest : (active_level most : ℕ) → List Frame → ℕ
loudest threshold most [] = most
loudest threshold most (x ∷ xs) =
    loudest threshold
      (if leb x.level threshold then (if ltb x.level most then x.level else most) else most) xs

plus_zero : (n : ℕ) → n ≡ n + 0
plus_zero n = omega arith

total_active-le : (threshold : ℕ) (xs : List Frame) → total_active threshold xs ≤ total xs
total_active-le threshold [] = omega arith
total_active-le threshold (x ∷ xs) = let rest = total_active-le threshold xs in ground arith

total_active-append :
    (threshold : ℕ) (xs ys : List Frame)
    → total_active threshold (xs ++ ys) ≡ total_active threshold xs + total_active threshold ys
total_active-append threshold [] ys = omega arith
total_active-append threshold (x ∷ xs) ys = omega (arith, total_active-append threshold xs ys)

loudest-append :
    (threshold : ℕ) (xs ys : List Frame) (most : ℕ)
    → loudest threshold most (xs ++ ys) ≡ loudest threshold (loudest threshold most xs) ys
loudest-append threshold [] ys most = refl
loudest-append threshold (x ∷ xs) ys most = loudest-append threshold xs ys _

module _ {F : Type 0} ⦃f : Float F⦄ where
  unfoldable pub observe_all : AudioLevel F → List Frame → AudioLevel F
  observe_all l [] = l
  observe_all l (x ∷ xs) = observe_all (observe l x.level x.duration) xs

  -- A state with the frames `xs` added to its window.
  abbrev pub collected : AudioLevel F → List Frame → AudioLevel F
  collected l xs = record l {
    observed_duration = l.observed_duration + total xs;
    active_duration = l.active_duration + total_active l.params.active_level xs;
    loudest_observed_level = loudest l.params.active_level l.loudest_observed_level xs;
  }

  take_frame-collected :
      (l : AudioLevel F) (x : Frame) (xs : List Frame)
      → l.active_duration ≤ l.observed_duration
      → l.observed_duration + x.duration < 4294967296
      → collected (take_frame l x.level x.duration) xs ≡ collected l (x ∷ xs)
  unfolding take_frame
  take_frame-collected l x xs le bound =
      let rest = total xs in
      let loud = total_active l.params.active_level xs in
      let observed : add32 l.observed_duration x.duration + rest
          ≡ l.observed_duration + (x.duration + rest) =
        omega arith in
      let active : (if leb x.level l.params.active_level
              then add32 l.active_duration x.duration
              else l.active_duration)
            + loud
          ≡ l.active_duration
            + ((if leb x.level l.params.active_level then x.duration else 0) + loud) =
        ground arith in
      λ i. record l {
        observed_duration = observed i;
        active_duration = active i;
        loudest_observed_level = loudest l.params.active_level l.loudest_observed_level (x ∷ xs);
      }

  take_frame-one :
      (m : AudioLevel F) (x : Frame)
      → take_frame m x.level x.duration ≡ collected (take_frame m x.level x.duration) []
  take_frame-one m x =
      let t = take_frame m x.level x.duration in
      λ i. record t {
        observed_duration = plus_zero t.observed_duration i;
        active_duration = plus_zero t.active_duration i;
      }

  observe-inside :
      (l : AudioLevel F) (level duration : ℕ)
      → l.observed_duration + duration < l.params.observe_duration
      → l.params.observe_duration < 4294967296
      → observe l level duration ≡ take_frame l level duration
  unfolding observe take_frame
  observe-inside l level duration inside bound =
      let early : leb l.params.observe_duration (add32 l.observed_duration duration) ≡ false =
        ground arith in
      rw early

  -- While the frames since a state do not fill its window, `Observe` adds up exactly their durations
  -- and the durations of the active ones, keeps the loudest active level, and leaves all else alone.
  pub observe_all-collected :
      (l : AudioLevel F) (xs : List Frame)
      → l.active_duration ≤ l.observed_duration
      → l.observed_duration + total xs < l.params.observe_duration
      → l.params.observe_duration < 4294967296
      → observe_all l xs ≡ collected l xs
  unfolding observe_all take_frame
  observe_all-collected l [] le inside bound = λ i. record l {
    observed_duration = plus_zero l.observed_duration i;
    active_duration = plus_zero l.active_duration i;
  }
  observe_all-collected l (x ∷ xs) le inside bound =
      let t = take_frame l x.level x.duration in
      ap (λ (m : AudioLevel F). observe_all m xs)
        (observe-inside l x.level x.duration (omega arith) bound)
      ∙ observe_all-collected t xs (ground arith) (ground arith) bound
      ∙ take_frame-collected l x xs le (omega arith)

  -- A window at its start, with nothing in it.
  pub record Empty (l : AudioLevel F) : Type 0 where
    pub none_observed : l.observed_duration ≡ 0
    pub none_active : l.active_duration ≡ 0
    pub silent : l.loudest_observed_level ≡ 127

  -- The smoothed level after a window with `active` milliseconds of active frames, of which the
  -- loudest level is `most`: the level, weighed with 20 log10 of the active share and converted to
  -- a linear scale, moves the one before by the smoothing factor.
  abbrev pub moved : AudioLevel F → (active most : ℕ) → F
  moved l active most =
      let share = f.div (f.of_uint active) (f.of_uint l.params.observe_duration) in
      let weighed = f.sub (f.of_uint most) (f.mul (f.of_uint 20) (f.log10 share)) in
      let linear = f.pow10 (f.mul weighed f.neg_inv20) in
      f.add l.smoothed_level (f.mul (f.sub linear l.smoothed_level) l.smooth_factor)

  -- A window at its start again, with the smoothed level that the window before it gives.
  abbrev pub ended : AudioLevel F → (active most : ℕ) → AudioLevel F
  ended l active most = record l {
    smoothed_level = if leb l.min_active_duration active then moved l active most else f.of_uint 0;
    loudest_observed_level = 127;
    active_duration = 0;
    observed_duration = 0;
  }

  end_window-ended :
      (l : AudioLevel F) → end_window l ≡ ended l l.active_duration l.loudest_observed_level
  unfolding end_window smooth
  end_window-ended l = refl

  observe-end_window :
      (l : AudioLevel F) (xs : List Frame) (x : Frame)
      → Empty l
      → total xs < l.params.observe_duration
      → l.params.observe_duration ≤ total xs + x.duration
      → total xs + x.duration < 4294967296
      → observe (observe_all l xs) x.level x.duration
        ≡ end_window (collected (collected l xs) (x ∷ []))
  unfolding observe
  observe-end_window l xs x empty partial full bound =
      let m = collected l xs in
      let le : m.active_duration ≤ m.observed_duration =
        omega (
          arith,
          empty.none_observed,
          empty.none_active,
          total_active-le l.params.active_level xs,
        ) in
      let taken : take_frame m x.level x.duration ≡ collected m (x ∷ []) =
        take_frame-one m x ∙ take_frame-collected m x [] le (omega (arith, empty.none_observed)) in
      let late : leb m.params.observe_duration (m.observed_duration + (x.duration + 0)) ≡ true =
        ground (arith, empty.none_observed) in
      ap (λ (n : AudioLevel F). observe n x.level x.duration)
        (observe_all-collected l xs (omega (arith, empty.none_observed, empty.none_active))
          (omega (arith, empty.none_observed)) (omega arith))
      ∙ ap
          (λ (n : AudioLevel F).
            if leb n.params.observe_duration n.observed_duration then end_window n else n)
          taken
      ∙ rw late

  -- The frame that fills a window, and no more, ends it: the next window is empty, with silence as
  -- its loudest level, and the smoothed level is zero if the active frames of the window, the last
  -- one included, last less than the share that is required. Otherwise it moves, by the smoothing
  -- factor, towards the loudest of their levels on a linear scale, weighed with 20 log10 of the share
  -- that they last.
  pub observe-fills :
      (l : AudioLevel F) (xs : List Frame) (x : Frame)
      → Empty l
      → total xs < l.params.observe_duration
      → l.params.observe_duration ≤ total xs + x.duration
      → total xs + x.duration < 4294967296
      → let threshold = l.params.active_level in
        observe (observe_all l xs) x.level x.duration
        ≡ ended l (total_active threshold (xs ++ (x ∷ []))) (loudest threshold 127 (xs ++ (x ∷ [])))
  observe-fills l xs x empty partial full bound =
      let threshold = l.params.active_level in
      let active : l.active_duration + total_active threshold xs + total_active threshold (x ∷ [])
          ≡ total_active threshold (xs ++ (x ∷ [])) =
        omega (arith, empty.none_active, total_active-append threshold xs (x ∷ [])) in
      observe-end_window l xs x empty partial full bound
      ∙ end_window-ended (collected (collected l xs) (x ∷ []))
      ∙ ap₂ (λ a m. ended l a m) active
          (sym (loudest-append threshold xs (x ∷ []) l.loudest_observed_level)
            ∙ ap (λ most. loudest threshold most (xs ++ (x ∷ []))) empty.silent)
