-- ===== src/FrameRate.antt =====
-- pkg/buffer/fps.go: the frame rates of the temporal layers of a VP8 stream, from its picture ids.
-- The type of float32 values is the parameter `F`. A result `none` is Go's panic, also where an index
-- is out of range; indices that Go checks when it compiles are read with a default.
pub mod Calc
pub mod Safe
mod Tests
use go_ortc.Base.{
  ℕ, zero, suc, ◌+◌, ◌-◌, ◌%◌, Bool, true, false, ◌&&◌, ◌||◌, not, Option, none, some, List, [],
  ◌∷◌, ltb, leb, ◌==◌, if◌then◌else◌, get_or, get_elem?, set, replicate, length,
}
use go_ortc.Base.Words.{add16, sub16, sub32}
use go_ortc.Base.Int.{ℤ, pos, negsuc}

pub record Float32 (F : Type 0) : Type 0 where
  pub of_uint : ℕ → F
  pub mul : F → F → F
  pub div : F → F → F
  pub ltb : F → F → Bool

-- `DefaultMaxLayerTemporal + 1`, the length of the arrays of layers.
abbrev pub layers : ℕ
layers = 4

-- An array of four with three entries given: the last one is 0.
abbrev pub min_frames_for_calculation : List ℕ
min_frames_for_calculation = 8 ∷ 15 ∷ 40 ∷ 0 ∷ []

-- The spatial layer and the frame differences are never written or read for VP8, and are left out.
pub record FrameInfo : Type 0 where
  pub seq : ℕ
  pub ts : ℕ
  pub fn : ℕ
  pub temporal : ℕ

-- What the calculator reads of a packet: `picture_id` is `none` where the payload is no VP8.
pub record Packet : Type 0 where
  pub sequence_number : ℕ
  pub timestamp : ℕ
  pub temporal : ℤ
  pub picture_id : Option ℕ

-- No frame is changed once it is stored, so the pointers to frames are the frames, `none` for nil.
pub record Calculator (F : Type 0) : Type 0 where
  pub frame_rates : List F
  pub clock_rate : ℕ
  pub first_frames : List (Option FrameInfo)
  pub second_frames : List (Option FrameInfo)
  pub fn_received : List (Option FrameInfo)
  pub base_frame : Option FrameInfo
  pub completed : Bool

-- `a[i]`, and `a[i] = v`, with what comes after.
unfoldable pub read_entry {ℓ κ} : {A : Type ℓ} {B : Type κ} → List A → ℕ → (A → Option B) → Option B
read_entry a i next = elim (get_elem? a i) [ none ↦ none | some v ↦ next v ]

unfoldable pub write_entry {ℓ κ} :
    {A : Type ℓ} {B : Type κ} → List A → ℕ → A → (List A → Option B) → Option B
write_entry a i v next = if ltb i (length a) then next (set a i v) else none

-- `none` for a layer that the test of `RecvPacket` rejects; a negative one counts as 0.
abbrev pub layer_of : ℤ → Option ℕ
layer_of (pos n) = if leb layers n then none else some n
layer_of (negsuc n) = some 0

-- The rest of the loop of `calc` over the frames, from index `j` on: the count, and the last time.
pub count_frames :
    (rounds : ℕ) → List (Option FrameInfo) → (layer j frame_count last_ts : ℕ) → Option (ℕ × ℕ)
count_frames zero received layer j frame_count last_ts = some (frame_count, last_ts)
count_frames (suc rounds) received layer j frame_count last_ts = elim (get_elem? received j) [
  | none ↦ none
  | some found ↦ elim found [
    | none ↦ some (frame_count, last_ts)
    | some g ↦
        let counted = count_frames rounds received layer (j + 1) (frame_count + 1) g.ts in
        let skipped = count_frames rounds received layer (j + 1) frame_count last_ts in
        if leb g.temporal layer then counted else skipped
  ]
]

-- `f.baseFrame.fn`, a panic where it is nil.
abbrev pub base_fn : Option FrameInfo → Option ℕ
base_fn none = none
base_fn (some b) = some b.fn

-- The frames from the first to the second of a layer. The uint16 index does not wrap, since it stays
-- below its end.
pub count_between :
    List (Option FrameInfo) → (base : Option ℕ) (layer : ℕ) → (ff sf : FrameInfo) → Option (ℕ × ℕ)
count_between received none layer ff sf = none
count_between received (some base) layer ff sf =
    let from = add16 (sub16 ff.fn base) 1 in
    let end = add16 (sub16 sf.fn base) 1 in count_frames (end - from) received layer from 0 ff.ts

module _ {F : Type 0} ⦃f : Float32 F⦄ where
  -- The zero value of Go, with the clock rate.
  unfoldable pub new_calculator : (clock_rate : ℕ) → Calculator F
  new_calculator clock_rate = record {
    frame_rates = replicate layers (f.of_uint 0);
    clock_rate = clock_rate;
    first_frames = replicate layers none;
    second_frames = replicate layers none;
    fn_received = replicate 64 none;
    base_frame = none;
    completed = false;
  }

  pub reset : Calculator F → Calculator F
  reset c = record c {
    first_frames = replicate layers none;
    second_frames = replicate layers none;
    fn_received = replicate 64 none;
    base_frame = none;
  }

  abbrev pub rate_of : Calculator F → (layer : ℕ) → F
  rate_of c layer = get_or c.frame_rates layer (f.of_uint 0)

  abbrev pub with_rates : Calculator F → List F → Calculator F
  with_rates c frame_rates = record c { frame_rates = frame_rates }

  -- What a layer with enough frames does; the second part is `rateCounter`.
  pub with_count :
      Calculator F → (counter layer : ℕ) → (ff : FrameInfo) → ℕ × ℕ → Option (Calculator F × ℕ)
  with_count c counter layer ff (frame_count, last_ts) =
      let rate =
        f.mul (f.div (f.of_uint c.clock_rate) (f.of_uint (sub32 last_ts ff.ts)))
          (f.of_uint frame_count) in
      read_entry min_frames_for_calculation layer λ enough.
        if leb enough frame_count
        then write_entry c.frame_rates layer rate (λ rates. some (with_rates c rates, counter + 1))
        else some (c, counter)

  pub by_frames :
      Calculator F → (counter layer : ℕ) → (ff sf : Option FrameInfo) → Option (Calculator F × ℕ)
  by_frames c counter layer none sf = some (c, if ltb 0 counter then counter + 1 else counter)
  by_frames c counter layer (some ff) none = some (c, counter)
  by_frames c counter layer (some ff) (some sf) =
      elim (count_between c.fn_received (base_fn c.base_frame) layer ff sf) [
        | none ↦ none
        | some counted ↦ with_count c counter layer ff counted
      ]

  -- A round of the loop of `calc` over the layers.
  pub calc_layer : Calculator F × ℕ → (layer : ℕ) → Option (Calculator F × ℕ)
  calc_layer (c, counter) layer = read_entry c.frame_rates layer λ rate.
      if f.ltb (f.of_uint 0) rate
      then some (c, counter + 1)
      else read_entry c.first_frames layer
          (λ ff. read_entry c.second_frames layer (λ sf. by_frames c counter layer ff sf))

  pub calc_loop : List ℕ → Calculator F × ℕ → Option (Calculator F × ℕ)
  calc_loop [] q = some q
  calc_loop (layer ∷ more) q = elim (calc_layer q layer) [
    | none ↦ none
    | some next ↦ calc_loop more next
  ]

  abbrev pub normalize : Calculator F → Calculator F
  normalize c =
      if f.ltb (f.of_uint 0) (rate_of c 2)
        && f.ltb (f.mul (rate_of c 1) (f.of_uint 3)) (rate_of c 2)
      then record c { frame_rates = set c.frame_rates 1 (f.div (rate_of c 2) (f.of_uint 2)) }
      else c

  pub finish : Calculator F × ℕ → Calculator F × Bool
  finish (c, counter) =
      if counter == layers
      then (reset (normalize (record c { completed = true })), true)
      else (c, false)

  pub calc : Calculator F → Option (Calculator F × Bool)
  calc c = elim (calc_loop (0 ∷ 1 ∷ 2 ∷ 3 ∷ []) (c, 0)) [ none ↦ none | some q ↦ some (finish q) ]

  abbrev pub with_first : Calculator F → List (Option FrameInfo) → Calculator F
  with_first c first_frames = record c { first_frames = first_frames }

  abbrev pub with_second : Calculator F → List (Option FrameInfo) → Calculator F
  with_second c second_frames = record c { second_frames = second_frames }

  -- The first frame of a layer that has one stays; a later one is the second.
  pub place_second :
      Calculator F → (layer : ℕ) → FrameInfo → (ff sf : Option FrameInfo) → Option (Calculator F)
  place_second c layer fi none sf =
      write_entry c.first_frames layer (some fi) (λ frames. some (with_first c frames))
  place_second c layer fi (some ff) none =
      if not (fi.fn == ff.fn) && ltb (sub16 fi.fn ff.fn) 0x4000
      then write_entry c.second_frames layer (some fi) (λ frames. some (with_second c frames))
      else some c
  place_second c layer fi (some ff) (some sf) =
      if ltb sf.fn fi.fn && not (fi.fn == ff.fn) && ltb (sub16 fi.fn ff.fn) 0x4000
      then write_entry c.second_frames layer (some fi) (λ frames. some (with_second c frames))
      else some c

  -- The lines of `RecvPacket` behind the store of the frame.
  pub recv_stored : Calculator F → (layer : ℕ) → FrameInfo → Option (Calculator F × Bool)
  recv_stored c layer fi = read_entry c.first_frames layer λ ff.
      read_entry c.second_frames layer
        λ sf. elim (place_second c layer fi ff sf) [ none ↦ none | some placed ↦ calc placed ]

  -- By what is received under the number of the frame.
  pub recv_new :
      Calculator F
      → (base_diff layer : ℕ) → FrameInfo
      → (old : Option FrameInfo) → Option (Calculator F × Bool)
  recv_new c base_diff layer fi (some old) = some (c, false)
  recv_new c base_diff layer fi none =
      write_entry c.fn_received base_diff (some fi)
        (λ received. recv_stored (record c { fn_received = received }) layer fi)

  pub recv_frame :
      Calculator F → (base : FrameInfo) (layer : ℕ) → FrameInfo → Option (Calculator F × Bool)
  recv_frame c base layer fi =
      let base_diff = sub16 fi.fn base.fn in
      if base_diff == 0 || ltb 0x4000 base_diff
      then some (c, false)
      else if leb (length c.fn_received) base_diff
      then some (reset c, false)
      else read_entry c.fn_received base_diff (λ old. recv_new c base_diff layer fi old)

  -- The rest of `RecvPacket` behind the test of the layer, by the base frame.
  pub recv_after :
      Calculator F
      → (layer : ℕ) → FrameInfo
      → (base : Option FrameInfo) → Option (Calculator F × Bool)
  recv_after c layer fi none =
      let base = record fi { temporal = 0 } in
      write_entry c.first_frames layer (some base) λ frames. some (
        record c {
          base_frame = some base;
          fn_received = set c.fn_received 0 (some base);
          first_frames = frames;
        },
        false,
      )
  recv_after c layer fi (some base) = recv_frame c base layer fi

  abbrev pub recv_vp8 :
      Calculator F → Packet → (fn : ℕ) → (layer : Option ℕ) → Option (Calculator F × Bool)
  recv_vp8 c ep fn none = some (c, false)
  recv_vp8 c ep fn (some layer) =
      recv_after c layer
        (record { seq = ep.sequence_number; ts = ep.timestamp; fn = fn; temporal = layer })
        c.base_frame

  pub recv_packet : Calculator F → Packet → Option (Calculator F × Bool)
  recv_packet c ep = if c.completed then some (c, true) else elim ep.picture_id [
    | none ↦ some (c, false)
    | some fn ↦ recv_vp8 c ep fn (layer_of ep.temporal)
  ]
