-- ===== src/KeyFrame.antt =====
-- pkg/buffer/helpers.go: `IsH264Keyframe` and `IsAV1Keyframe`.
-- A slice is a list of bytes; a Go `int` is its pattern of 64 bits where it can wrap. Logging is left out.
pub mod H264
pub mod Stap
pub mod Av1
mod Tests
use go_ortc.Base.{
  ℕ, zero, suc, ◌+◌, ◌-◌, ◌*◌, ◌/◌, ◌%◌, ◌^◌, Bool, true, false, ◌&&◌, ◌||◌, not, Option, none,
  some, List, [], ltb, leb, ◌==◌, if◌then◌else◌, length, get_elem?, take, drop, bit_and, bit_or,
}
use go_ortc.Base.Words.{shl, add64}

-- `panic` is Go's; `stuck` is no Go value: a loop ran out of fuel.
pub data Run {ℓ} (A : Type ℓ) : Type ℓ where
  ret : A → Run A
  panic : Run A
  stuck : Run A

infixl 5 ◌>>=◌
abbrev pub ◌>>=◌ {ℓ κ} : {A : Type ℓ} {B : Type κ} → Run A → (A → Run B) → Run B
ret a >>= f = f a
panic >>= f = panic
stuck >>= f = stuck

abbrev pub or_panic {ℓ} : {A : Type ℓ} → Option A → Run A
or_panic none = panic
or_panic (some a) = ret a

-- `payload[i]`
abbrev pub at : List ℕ → ℕ → Run ℕ
at payload i = or_panic (get_elem? payload i)

-- `offset` of a unit's header behind its size, by the kind of the aggregate.
abbrev pub unit_offset : (nalu : ℕ) → ℕ
unit_offset nalu = if nalu == 26 then 3 else if nalu == 27 then 4 else 0

-- `uint16(hi)<<8 | uint16(lo)`
abbrev pub size16 : (hi lo : ℕ) → ℕ
size16 hi lo = bit_or (shl 16 hi 8) lo

-- The loop over the units of STAP-A, STAP-B, MTAP16 and MTAP24.
pub aggregate_loop : (fuel : ℕ) → List ℕ → (nalu i : ℕ) → Run Bool
aggregate_loop zero payload nalu i = stuck
aggregate_loop (suc fuel) payload nalu i =
    let round = do
      hi ← at payload i
      lo ← at payload (i + 1)
      let size = size16 hi lo
      let offset = unit_offset nalu
      let body = do
        b ← at payload (i + 2 + offset)
        let more = aggregate_loop fuel payload nalu (i + 2 + size)
        if bit_and b 0x1F == 7 then ret true else more
      if ltb (length payload) (i + 2 + size) || leb size offset then ret false else body
    in if ltb i (length payload)
      then if ltb (length payload) (i + 2) then ret false else round
      else ret false

-- Each round moves `i` by 3 at least, so `length payload` rounds are enough.
pub is_h264_keyframe : List ℕ → Run Bool
is_h264_keyframe payload =
    let whole = do
      first ← at payload 0
      let nalu = bit_and first 0x1F
      let aggregate = aggregate_loop (length payload) payload nalu (if nalu == 24 then 1 else 3)
      let fragment = do
        b ← at payload 1
        if bit_and b 0x80 == 0 then ret false else ret (bit_and b 0x1F == 7)
      if nalu == 0
          then ret false
          else if leb nalu 23
          then ret (nalu == 7)
          else if nalu == 24 || nalu == 25 || nalu == 26 || nalu == 27
          then aggregate
          else if nalu == 28 || nalu == 29
          then (if ltb (length payload) 2 then ret false else fragment)
          else ret false
    in if ltb (length payload) 1 then ret false else whole

-- What `getObu` returns: the unit, its length with the size field, and whether it was cut off.
pub record Obu : Type 0 where
  pub body : List ℕ
  pub size : ℕ
  pub truncated : Bool

abbrev pub obu : List ℕ → ℕ → Bool → Obu
obu body size truncated = record { body = body; size = size; truncated = truncated }

-- `data[offset : offset+length]` behind the test `len(data) < offset+length`, both of which read
-- `offset+length` as a signed number. A slice whose end is before its start, or negative, panics.
pub cut_obu : List ℕ → (offset size : ℕ) → Run Obu
cut_obu rest offset size =
    let end = add64 offset size in
    if ltb end (2 ^ 63)
    then if ltb (length rest) end
      then ret (obu (drop offset rest) (length rest) true)
      else if ltb end offset
      then panic
      else ret (obu (take (end - offset) (drop offset rest)) end false)
    else panic

-- The loop of `getObu` over the bytes of the size, seven bits each, lowest first.
pub size_loop : (fuel : ℕ) → List ℕ → (offset size : ℕ) → Run Obu
size_loop zero rest offset size = stuck
size_loop (suc fuel) rest offset size =
    let round = do
      l ← at rest offset
      let size' = bit_or size (shl 64 (bit_and l 0x7f) (offset * 7))
      let more = size_loop fuel rest (offset + 1) size'
      if bit_and l 0x80 == 0 then cut_obu rest (offset + 1) size' else more
    in if leb (length rest) offset then ret (obu [] offset (ltb 0 offset)) else round

pub get_obu : List ℕ → (last : Bool) → Run Obu
get_obu rest last =
    let sized = size_loop (suc (length rest)) rest 0 0 in
    if last then ret (obu rest (length rest) false) else sized

-- What is decided at a unit; `go_on` for the next one.
pub data Verdict : Type 0 where
  say : Bool → Verdict
  go_on : Verdict

-- The `switch` of the loop.
pub judge : (i tpe : ℕ) → List ℕ → Run Verdict
judge zero tpe body = if tpe == 1 then ret go_on else ret (say false)
judge (suc i) tpe body =
    let frame = do
      b ← at body 1
      if bit_and b 0x80 == 0 then ret (say (bit_and b 0x60 == 0)) else ret (say false)
    in if tpe == 3 || tpe == 6
      then if ltb (length body) 2 then ret (say false) else frame
      else ret go_on

abbrev pub unless_said : Verdict → Run Bool → Run Bool
unless_said (say b) more = ret b
unless_said go_on more = more

-- `rest` is `payload[offset:]`.
pub obu_loop : (fuel : ℕ) → (w i : ℕ) → List ℕ → Run Bool
obu_loop zero w i rest = stuck
obu_loop (suc fuel) w i rest = do
  o ← get_obu rest (w == i + 1)
  let round = do
    b ← at o.body 0
    v ← judge i (bit_and b 0x38 / 8) o.body
    let more = obu_loop fuel w (i + 1) (drop o.size rest)
    unless_said v (if o.truncated || leb w i then ret false else more)
  if ltb (length o.body) 1 then ret false else round

-- `w` is at most 3, and the loop ends at `i >= w`: four rounds are enough.
pub is_av1_keyframe : List ℕ → Run Bool
is_av1_keyframe payload =
    let whole = do
      first ← at payload 0
      let units = obu_loop 4 (bit_and first 0x30 / 16) 0 (drop 1 payload)
      if bit_and first 0x88 == 0x08 then units else ret false
    in if ltb (length payload) 2 then ret false else whole
