-- ===== src/FrameRate/Calc.antt =====
-- `calc` of pkg/buffer/fps.go on a calculator that satisfies the invariant.
use go_ortc.Base.{
  ℕ, zero, suc, ◌+◌, ◌≤◌, ◌<◌, ◌≡◌, refl, subst, Bool, Option, none, some, List, [], ◌∷◌, leb, ◌==◌,
  get_or, length, length-set, set, ltb, true, ◌&&◌, ◌∙◌, All, All-get_or, All-replicate,
  get_elem?-eq-get_or, arith, if_both, Option-cases, inl, inr,
}
use go_ortc.Base.Words.{sub16}
use go_ortc.FrameRate.{
  Float32, min_frames_for_calculation, layers, FrameInfo, Calculator, count_frames, base_fn,
  count_between, reset, rate_of, with_count, by_frames, calc_layer, calc_loop, finish, calc,
  read_entry, write_entry, with_rates, normalize,
}

-- A stored frame is at most 63 frames after the base frame; with no base frame there is none.
abbrev pub Near : (base frame : Option FrameInfo) → Type 0
Near base none = Unit {0}
Near none (some g) = ⊥
Near (some b) (some g) = sub16 g.fn b.fn < 64

pub record IsValid {F : Type 0} (c : Calculator F) : Type 0 where
  pub room : length c.fn_received ≡ 64
  pub rates_room : length c.frame_rates ≡ 4
  pub first_room : length c.first_frames ≡ 4
  pub second_room : length c.second_frames ≡ 4
  pub first_near : All (Near c.base_frame) c.first_frames
  pub second_near : All (Near c.base_frame) c.second_frames

-- A run that does not panic and whose result has the property.
abbrev pub Returns : {A : Type 0} → (A → Type 0) → Option A → Type 0
Returns P none = ⊥
Returns P (some a) = P a

pub read_entry-Returns :
    {A B : Type 0} (P : B → Type 0) (a : List A) (i : ℕ) (d : A) (next : A → Option B)
    → i < length a
    → Returns P (next (get_or a i d))
    → Returns P (read_entry a i next)
unfolding read_entry
read_entry-Returns P a i d next inside h =
    let hit = get_elem?-eq-get_or a i d inside in rw (hit, read_entry) h

pub write_entry-Returns :
    {A B : Type 0} (P : B → Type 0) (a : List A) (i : ℕ) (v : A) (next : List A → Option B)
    → i < length a
    → Returns P (next (set a i v))
    → Returns P (write_entry a i v next)
unfolding write_entry
write_entry-Returns P a i v next inside h =
    let fits : ltb i (length a) ≡ true = ground arith in rw (fits, write_entry) h

count_frames-Returns :
    (rounds : ℕ) (received : List (Option FrameInfo)) (layer j count ts : ℕ)
    → j + rounds ≤ length received
    → Returns (λ _. Unit {0}) (count_frames rounds received layer j count ts)
unfolding count_frames
count_frames-Returns zero received layer j count ts inside = tt
count_frames-Returns (suc rounds) received layer j count ts inside =
    rw (get_elem?-eq-get_or received j none (omega arith), count_frames)
      (elim (Option-cases (get_or received j none)) [
        | inl e ↦ rw e tt
        | inr (g, e) ↦ rw e (
            if_both (Returns (λ _. Unit {0})) (leb g.temporal layer)
              (λ _.
                count_frames-Returns rounds received layer (j + 1) (count + 1) g.ts (omega arith))
              (λ _. count_frames-Returns rounds received layer (j + 1) count ts (omega arith)))
      ])

count_between-Returns :
    (received : List (Option FrameInfo)) (base : Option FrameInfo) (layer : ℕ) (ff sf : FrameInfo)
    → length received ≡ 64
    → Near base (some ff)
    → Near base (some sf)
    → Returns (λ _. Unit {0}) (count_between received (base_fn base) layer ff sf)
unfolding count_between
count_between-Returns received none layer ff sf room near_ff near_sf = absurd near_ff
count_between-Returns received (some b) layer ff sf room near_ff near_sf =
    count_frames-Returns _ received layer _ 0 ff.ts (omega (arith, room))

module _ {F : Type 0} ⦃f : Float32 F⦄ where
  pub reset-IsValid : (c : Calculator F) → IsValid c → IsValid (reset c)
  unfolding reset
  reset-IsValid c v = record {
    room = refl;
    rates_room = v.rates_room;
    first_room = refl;
    second_room = refl;
    first_near = All-replicate (Near none) layers none tt;
    second_near = All-replicate (Near none) layers none tt;
  }

  abbrev pub Safe : {B : Type 0} → Option (Calculator F × B) → Type 0
  Safe o = Returns (λ q. IsValid q.0) o

  with_rates-IsValid :
      (c : Calculator F) (layer : ℕ) (rate : F)
      → IsValid c
      → IsValid (with_rates c (set c.frame_rates layer rate))
  with_rates-IsValid c layer rate v = record {
    room = v.room;
    rates_room = length-set c.frame_rates layer rate ∙ v.rates_room;
    first_room = v.first_room;
    second_room = v.second_room;
    first_near = v.first_near;
    second_near = v.second_near;
  }

  with_count-Safe :
      (c : Calculator F) (counter layer : ℕ) (ff : FrameInfo) (q : ℕ × ℕ)
      → layer < 4
      → IsValid c
      → Safe (with_count c counter layer ff q)
  unfolding with_count
  with_count-Safe c counter layer ff (frame_count, last_ts) lt v =
      read_entry-Returns (λ q. IsValid q.0) min_frames_for_calculation layer 0 _ lt
        (if_both Safe (leb (get_or min_frames_for_calculation layer 0) frame_count)
          (λ _.
            write_entry-Returns (λ q. IsValid q.0) c.frame_rates layer _ _
              (omega (arith, v.rates_room)) (with_rates-IsValid c layer _ v))
          (λ _. v))

  by_frames-Safe :
      (c : Calculator F) (counter layer : ℕ) (ff sf : Option FrameInfo)
      → layer < 4
      → IsValid c
      → Near c.base_frame ff
      → Near c.base_frame sf
      → Safe (by_frames c counter layer ff sf)
  unfolding by_frames
  by_frames-Safe c counter layer none sf lt v near_ff near_sf = v
  by_frames-Safe c counter layer (some ff) none lt v near_ff near_sf = v
  by_frames-Safe c counter layer (some ff) (some sf) lt v near_ff near_sf =
      let counted = count_between c.fn_received (base_fn c.base_frame) layer ff sf in
      let returns =
        count_between-Returns c.fn_received c.base_frame layer ff sf v.room near_ff near_sf in
      elim (Option-cases counted) [
        | inl e ↦ absurd (subst (Returns (λ _. Unit {0})) e returns)
        | inr (q, e) ↦ rw (e, by_frames) (with_count-Safe c counter layer ff q lt v)
      ]

  calc_layer-Safe :
      (q : Calculator F × ℕ) (layer : ℕ) → layer < 4 → IsValid q.0 → Safe (calc_layer q layer)
  unfolding calc_layer
  calc_layer-Safe (c, counter) layer lt v =
      let P : Calculator F × ℕ → Type 0 = λ q. IsValid q.0 in
      read_entry-Returns P c.frame_rates layer (f.of_uint 0) _ (omega (arith, v.rates_room)) (
        if_both Safe (f.ltb (f.of_uint 0) (rate_of c layer)) (λ _. v)
          (λ _. read_entry-Returns P c.first_frames layer none _ (omega (arith, v.first_room)) (
            read_entry-Returns P c.second_frames layer none _ (omega (arith, v.second_room)) (
              by_frames-Safe c counter layer _ _ lt v
                (All-get_or (Near c.base_frame) c.first_frames layer none tt v.first_near)
                (All-get_or (Near c.base_frame) c.second_frames layer none tt v.second_near)))))

  calc_loop-Safe :
      (more : List ℕ) (q : Calculator F × ℕ)
      → All (λ layer. layer < 4) more
      → IsValid q.0
      → Safe (calc_loop more q)
  unfolding calc_loop
  calc_loop-Safe [] q lt v = v
  calc_loop-Safe (layer ∷ more) q (lt, rest) v =
      let round = calc_layer-Safe q layer lt v in
      elim (Option-cases (calc_layer q layer)) [
        | inl e ↦ absurd (subst Safe e round)
        | inr (next, e) ↦ rw (e, calc_loop) (calc_loop-Safe more next rest (subst Safe e round))
      ]

  normalize-IsValid : (c : Calculator F) → IsValid c → IsValid (normalize c)
  normalize-IsValid c v =
      if_both (IsValid {F = F})
        (f.ltb (f.of_uint 0) (rate_of c 2)
          && f.ltb (f.mul (rate_of c 1) (f.of_uint 3)) (rate_of c 2))
        (λ _. with_rates-IsValid c 1 _ v) (λ _. v)

  finish-IsValid : (q : Calculator F × ℕ) → IsValid q.0 → IsValid (finish q).0
  unfolding finish
  finish-IsValid (c, counter) v =
      let done : IsValid (record c { completed = true }) = record {
        room = v.room;
        rates_room = v.rates_room;
        first_room = v.first_room;
        second_room = v.second_room;
        first_near = v.first_near;
        second_near = v.second_near;
      } in
      if_both (λ (p : Calculator F × Bool). IsValid p.0) (counter == layers)
        (λ _. reset-IsValid _ (normalize-IsValid _ done)) (λ _. v)

  pub calc-Safe : (c : Calculator F) → IsValid c → Safe (calc c)
  unfolding calc
  calc-Safe c v =
      let looped = calc_loop-Safe (0 ∷ 1 ∷ 2 ∷ 3 ∷ []) (c, 0) (omega arith) v in
      elim (Option-cases (calc_loop (0 ∷ 1 ∷ 2 ∷ 3 ∷ []) (c, 0))) [
        | inl e ↦ absurd (subst Safe e looped)
        | inr (q, e) ↦ rw (e, calc) (finish-IsValid q (subst Safe e looped))
      ]
