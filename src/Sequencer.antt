-- ===== src/Sequencer.antt =====
-- pkg/rtc/sequencer.go: the ring of packets that a down track can retransmit.
-- The lock is left out: each method runs from its first to its last line with the lock held.
-- Logging is left out. `seq` holds pointers into `meta`: a pointer is an index here, so that a
-- record that is overwritten changes for every slot that points to it, as in the source.
pub mod Wrap
pub mod Valid
pub mod Lookup
pub mod Keep
pub mod Nack
pub mod Answers
pub mod Marks
pub mod Pack
mod Tests
use go_ortc.Base.{
  ℕ, zero, suc, ◌+◌, ◌-◌, ◌*◌, ◌%◌, ◌^◌, min, Bool, true, false, ◌&&◌, ◌||◌, not, Option, none,
  some, List, [], ◌∷◌, ◌++◌, ltb, leb, ◌==◌, if◌then◌else◌, length, get_or, set, replicate,
}
use go_ortc.Base.Int.{ℤ, pos, negsuc, ◌+ℤ◌, sub_ℕ}
use go_ortc.Base.Words.{add16, sub16, sub32}

abbrev pub default_rtt : ℕ
default_rtt = 70

abbrev pub ignore_retransmission : ℕ
ignore_retransmission = 100

-- The dependency descriptor bytes are never written or read in the source, and are left out.
pub record PacketMeta : Type 0 where
  pub source_seq_no : ℕ
  pub target_seq_no : ℕ
  pub timestamp : ℕ
  pub last_nack : ℕ
  pub nacked : ℕ
  pub layer : ℤ
  pub misc : ℕ

-- Go's zero value.
abbrev pub zero_meta : PacketMeta
zero_meta = record {
  source_seq_no = 0;
  target_seq_no = 0;
  timestamp = 0;
  last_nack = 0;
  nacked = 0;
  layer = pos 0;
  misc = 0;
}

pub record Sequencer : Type 0 where
  pub init : Bool
  pub max : ℕ
  pub seq : List (Option ℕ)
  pub metas : List PacketMeta
  pub meta_write_ptr : ℕ
  pub step : ℕ
  pub head_sn : ℕ
  pub start_time : ℕ
  pub rtt : ℕ

-- `now` is the wall clock in milliseconds.
unfoldable pub new_sequencer : (max_track max_padding now : ℕ) → Sequencer
new_sequencer max_track max_padding now = record {
  init = false;
  max = max_track + max_padding;
  seq = replicate (max_track + max_padding) none;
  metas = replicate max_track zero_meta;
  meta_write_ptr = 0;
  step = 0;
  head_sn = 0;
  start_time = now;
  rtt = default_rtt;
}

pub set_rtt : Sequencer → ℕ → Sequencer
set_rtt s rtt = record s { rtt = if rtt == 0 then default_rtt else rtt }

-- `for slot < 0 { slot += max }`, with fuel.
unfoldable pub wrap_up : ℕ → ℕ → ℤ → ℕ
wrap_up fuel max (pos n) = n
wrap_up zero max (negsuc n) = 0
wrap_up (suc fuel) max (negsuc n) = wrap_up fuel max (negsuc n +ℤ pos max)

-- `for slot >= max { slot -= max }`, with fuel.
unfoldable pub wrap_down : ℕ → ℕ → ℕ → ℕ
wrap_down zero max n = n
wrap_down (suc fuel) max n =
    let rest = wrap_down fuel max (n - max) in if ltb n max then n else rest

-- One round for each unit of the distance is enough, since each round moves by `max`, at least 1.
abbrev pub up_fuel : ℤ → ℕ
up_fuel (pos n) = 0
up_fuel (negsuc n) = suc n

unfoldable pub wrap : (max : ℕ) → ℤ → ℕ
wrap max slot = let up = wrap_up (up_fuel slot) max slot in wrap_down up max up

-- `for idx := 0; idx < n; idx++ { seq[wrap(step+idx)] = nil }`, from a given `idx` on.
unfoldable pub clear_slots : (n max step idx : ℕ) → List (Option ℕ) → List (Option ℕ)
clear_slots zero max step idx seq = seq
clear_slots (suc n) max step idx seq =
    clear_slots n max step (idx + 1) (set seq (wrap max (pos (step + idx))) none)

-- The first lines of `getSlot`.
unfoldable pub start : Sequencer → ℕ → Sequencer
start s off_sn = if s.init then s else record s { head_sn = sub16 off_sn 1; init = true }

-- The branch of `getSlot` for a packet ahead of the head, `diff` numbers further.
unfoldable pub advance : Sequencer → (off_sn diff : ℕ) → Sequencer
advance s off_sn diff = record s {
  head_sn = off_sn;
  seq = clear_slots (diff - 1) s.max s.step 0 s.seq;
  step = wrap s.max (pos (s.step + diff));
}

-- `none` is the `false` of the second result.
unfoldable pub get_slot_started : Sequencer → ℕ → Sequencer × Option ℕ
get_slot_started s off_sn =
    let diff = sub16 off_sn s.head_sn in
    let back = sub16 s.head_sn off_sn in
    if diff == 0
    then (s, none)
    else if ltb 32768 diff
    then if leb s.max back then (s, none) else (s, some (wrap s.max (sub_ℕ s.step (back + 1))))
    else (advance s off_sn diff, some (wrap s.max (pos (s.step + diff - 1))))

unfoldable pub get_slot : Sequencer → ℕ → Sequencer × Option ℕ
get_slot s off_sn = get_slot_started (start s off_sn) off_sn

abbrev pub new_meta : (sn off_sn time_stamp : ℕ) → ℤ → PacketMeta
new_meta sn off_sn time_stamp layer = record zero_meta {
  source_seq_no = sn;
  target_seq_no = off_sn;
  timestamp = time_stamp;
  layer = layer;
}

-- The lines of `push` behind the guard: write the record, point the slot to it, go on.
unfoldable pub store : Sequencer → ℕ → PacketMeta → Sequencer
store s slot m = record s {
  metas = set s.metas s.meta_write_ptr m;
  seq = set s.seq slot (some s.meta_write_ptr);
  meta_write_ptr =
      if leb (length s.metas) (s.meta_write_ptr + 1)
      then s.meta_write_ptr + 1 - length s.metas
      else s.meta_write_ptr + 1;
}

-- The second result is the pointer that `push` returns, `none` for nil.
unfoldable pub push : Sequencer → (sn off_sn time_stamp : ℕ) → ℤ → Sequencer × Option ℕ
push s sn off_sn time_stamp layer =
    let (s', found) = get_slot s off_sn in
    elim found [
      | none ↦ (s', none)
      | some slot ↦
          let t = store s' slot (new_meta sn off_sn time_stamp layer) in (t, get_or t.seq slot none)
    ]

pub push_padding : Sequencer → ℕ → Sequencer
push_padding s off_sn =
    let (s', found) = get_slot s off_sn in
    elim found [ none ↦ s' | some slot ↦ record s' { seq = set s'.seq slot none } ]

-- `seq == nil || seq.targetSeqNo != sn` skips the number.
pub checked : List PacketMeta → (sn : ℕ) → Option ℕ → Option ℕ
checked metas sn none = none
checked metas sn (some p) = if (get_or metas p zero_meta).target_seq_no == sn then some p else none

-- The part of the loop of `getPacketsMeta` that finds the record of `sn`: a pointer into `metas`.
pub lookup : Sequencer → ℕ → Option ℕ
unfolding checked
lookup s sn =
    let diff = sub16 s.head_sn sn in
    if ltb 32768 diff || leb s.max diff
    then none
    else checked s.metas sn (get_or s.seq (wrap s.max (sub_ℕ s.step (diff + 1))) none)

-- The retransmission test: never asked for, or not within the window.
pub due : Sequencer → (ref_time : ℕ) → PacketMeta → Bool
due s ref_time m =
    m.last_nack == 0
    || ltb (min ignore_retransmission (2 * s.rtt % 2 ^ 32)) (sub32 ref_time m.last_nack)

-- `nacked++` (uint8), and the time of the request.
pub mark : (ref_time : ℕ) → PacketMeta → PacketMeta
mark ref_time m = record m { nacked = (m.nacked + 1) % 256; last_nack = ref_time }

-- One round of the loop of `getPacketsMeta`: the new state, and the pointer that it appends.
pub nack_one : Sequencer → (ref_time sn : ℕ) → Sequencer × Option ℕ
nack_one s ref_time sn = elim (lookup s sn) [
  | none ↦ (s, none)
  | some p ↦
      let m = get_or s.metas p zero_meta in
      if due s ref_time m
      then (record s { metas = set s.metas p (mark ref_time m) }, some p)
      else (s, none)
]

abbrev pub append_found : Option ℕ → List ℕ → List ℕ
append_found none out = out
append_found (some p) out = p ∷ out

pub nack_loop : Sequencer → (ref_time : ℕ) → List ℕ → Sequencer × List ℕ
nack_loop s ref_time [] = (s, [])
nack_loop s ref_time (sn ∷ sns) =
    let (s', found) = nack_one s ref_time sn in
    let (t, out) = nack_loop s' ref_time sns in (t, append_found found out)

-- `refTime` is the low 32 bits of the milliseconds since the start.
pub get_packets_meta : Sequencer → (now : ℕ) → List ℕ → Sequencer × List ℕ
get_packets_meta s now seq_no = nack_loop s (sub32 (now % 2 ^ 32) (s.start_time % 2 ^ 32)) seq_no
