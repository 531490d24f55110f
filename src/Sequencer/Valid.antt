-- ===== src/Sequencer/Valid.antt =====
-- The representation invariant of the sequencer of pkg/rtc/sequencer.go.
use go_ortc.Base.{
  ℕ, zero, suc, ◌+◌, ◌-◌, ◌<◌, ◌≡◌, refl, ◌∙◌, if_both, ltb, leb, ◌==◌, inl, inr, Option, none,
  some, List, [], ◌∷◌, arith, length, length-set, length-replicate, set, All, All-set,
  All-replicate, get_or, Option-cases,
}
use go_ortc.Base.Int.{ℤ, pos}
use go_ortc.Base.Words.{IsU16, sub16}
use go_ortc.Sequencer.{
  Sequencer, PacketMeta, zero_meta, new_sequencer, wrap, clear_slots, start, advance,
  get_slot_started, get_slot, store, push, push_padding, lookup, due, mark, nack_one, nack_loop,
}
use go_ortc.Sequencer.Wrap.{wrap-lt}

-- A slot is nil, or points to one of `n` records.
abbrev pub PointsBelow : ℕ → Option ℕ → Type 0
PointsBelow n none = Unit {0}
PointsBelow n (some p) = p < n

pub record IsValid (s : Sequencer) : Type 0 where
  pub room : 0 < s.max
  pub slots : length s.seq ≡ s.max
  pub ptr_in : s.meta_write_ptr < length s.metas
  pub step_in : s.step < s.max
  pub head_u16 : IsU16 s.head_sn
  pub points : All (PointsBelow (length s.metas)) s.seq

-- A new sequencer that tracks at least one packet satisfies the invariant.
pub new_sequencer-IsValid :
    (max_track max_padding now : ℕ)
    → 0 < max_track
    → IsValid (new_sequencer max_track max_padding now)
unfolding new_sequencer
new_sequencer-IsValid t p now h = record {
  room = omega arith;
  slots = length-replicate (t + p) none;
  ptr_in = omega (arith, length-replicate t zero_meta);
  step_in = omega arith;
  head_u16 = omega arith;
  points = All-replicate (PointsBelow _) (t + p) none tt;
}

pub length-clear_slots :
    (n max step idx : ℕ) (seq : List (Option ℕ))
    → length (clear_slots n max step idx seq) ≡ length seq
unfolding clear_slots
length-clear_slots zero max step idx seq = refl
length-clear_slots (suc n) max step idx seq =
    length-clear_slots n max step (idx + 1) _ ∙ length-set seq (wrap max (pos (step + idx))) none

All-clear_slots :
    (k n max step idx : ℕ) (seq : List (Option ℕ))
    → All (PointsBelow k) seq
    → All (PointsBelow k) (clear_slots n max step idx seq)
unfolding clear_slots
All-clear_slots k zero max step idx seq h = h
All-clear_slots k (suc n) max step idx seq h =
    All-clear_slots k n max step (idx + 1) _ (All-set (PointsBelow k) seq _ none tt h)

pub start-IsValid : (s : Sequencer) (off_sn : ℕ) → IsValid s → IsValid (start s off_sn)
unfolding start
start-IsValid s off_sn v =
    if_both IsValid s.init (λ _. v)
      λ _. record {
        room = v.room;
        slots = v.slots;
        ptr_in = v.ptr_in;
        step_in = v.step_in;
        head_u16 = omega arith;
        points = v.points;
      }

pub advance-IsValid :
    (s : Sequencer) (off_sn diff : ℕ) → IsU16 off_sn → IsValid s → IsValid (advance s off_sn diff)
unfolding advance
advance-IsValid s off_sn diff h v = record {
  room = v.room;
  slots = length-clear_slots (diff - 1) s.max s.step 0 s.seq ∙ v.slots;
  ptr_in = v.ptr_in;
  step_in = wrap-lt s.max _ v.room;
  head_u16 = h;
  points = All-clear_slots _ (diff - 1) s.max s.step 0 s.seq v.points;
}

get_slot_started-IsValid :
    (s : Sequencer) (off_sn : ℕ) → IsU16 off_sn → IsValid s → IsValid (get_slot_started s off_sn).0
unfolding get_slot_started
get_slot_started-IsValid s off_sn h v =
    if_both (λ (r : Sequencer × Option ℕ). IsValid r.0) (sub16 off_sn s.head_sn == 0) (λ _. v)
      λ _.
        if_both (λ (r : Sequencer × Option ℕ). IsValid r.0) (ltb 32768 (sub16 off_sn s.head_sn))
          (λ _.
            if_both (λ (r : Sequencer × Option ℕ). IsValid r.0) (leb s.max (sub16 s.head_sn off_sn))
              (λ _. v) (λ _. v))
          (λ _. advance-IsValid s off_sn (sub16 off_sn s.head_sn) h v)

pub get_slot-IsValid :
    (s : Sequencer) (off_sn : ℕ) → IsU16 off_sn → IsValid s → IsValid (get_slot s off_sn).0
unfolding get_slot
get_slot-IsValid s off_sn h v =
    get_slot_started-IsValid (start s off_sn) off_sn h (start-IsValid s off_sn v)

-- The slot that `getSlot` answers lies in the ring.
pub get_slot-lt :
    (s : Sequencer) (off_sn slot : ℕ) → IsValid s → (get_slot s off_sn).1 ≡ some slot → slot < s.max
unfolding get_slot get_slot_started start
get_slot-lt s off_sn slot v e = grind (arith, wrap-lt)

pub store-IsValid :
    (s : Sequencer) (slot : ℕ) (m : PacketMeta) → IsValid s → IsValid (store s slot m)
unfolding store
store-IsValid s slot m v =
    let same : length (set s.metas s.meta_write_ptr m) ≡ length s.metas =
      length-set s.metas s.meta_write_ptr m in
    record {
      room = v.room;
      slots = length-set s.seq slot (some s.meta_write_ptr) ∙ v.slots;
      ptr_in = ground (arith, same);
      step_in = v.step_in;
      head_u16 = v.head_u16;
      points = rw same (All-set (PointsBelow (length s.metas)) s.seq slot _ v.ptr_in v.points);
    }

-- `push` keeps the invariant, also where it rejects the packet.
pub push-IsValid :
    (s : Sequencer) (sn off_sn time_stamp : ℕ) (layer : ℤ)
    → IsU16 off_sn
    → IsValid s
    → IsValid (push s sn off_sn time_stamp layer).0
unfolding push
push-IsValid s sn off_sn time_stamp layer h v = elim (Option-cases (get_slot s off_sn).1) [
  | inl e ↦ rw (e, push) (get_slot-IsValid s off_sn h v)
  | inr (slot, e) ↦ rw (e, push) (store-IsValid _ slot _ (get_slot-IsValid s off_sn h v))
]

-- `pushPadding` keeps the invariant.
pub push_padding-IsValid :
    (s : Sequencer) (off_sn : ℕ) → IsU16 off_sn → IsValid s → IsValid (push_padding s off_sn)
unfolding push_padding
push_padding-IsValid s off_sn h v =
    let w : IsValid (get_slot s off_sn).0 = get_slot-IsValid s off_sn h v in
    elim (Option-cases (get_slot s off_sn).1) [
      | inl e ↦ rw (e, push_padding) w
      | inr (slot, e) ↦
          rw (e, push_padding)
            (record {
              room = w.room;
              slots = length-set (get_slot s off_sn).0.seq slot none ∙ w.slots;
              ptr_in = w.ptr_in;
              step_in = w.step_in;
              head_u16 = w.head_u16;
              points = All-set (PointsBelow _) (get_slot s off_sn).0.seq slot none tt w.points;
            })
    ]

pub nack_one-IsValid :
    (s : Sequencer) (ref_time sn : ℕ) → IsValid s → IsValid (nack_one s ref_time sn).0
unfolding nack_one
nack_one-IsValid s ref_time sn v = elim (Option-cases (lookup s sn)) [
  | inl e ↦ rw (e, nack_one) v
  | inr (p, e) ↦
      let m = mark ref_time (get_or s.metas p zero_meta) in
      let same : length (set s.metas p m) ≡ length s.metas = length-set s.metas p m in
      rw (e, nack_one)
        (if_both (λ (r : Sequencer × Option ℕ). IsValid r.0)
          (due s ref_time (get_or s.metas p zero_meta))
          (λ _. record {
            room = v.room;
            slots = v.slots;
            ptr_in = rw same v.ptr_in;
            step_in = v.step_in;
            head_u16 = v.head_u16;
            points = rw same v.points;
          })
          (λ _. v))
]

pub nack_loop-IsValid :
    (s : Sequencer) (ref_time : ℕ) (sns : List ℕ) → IsValid s → IsValid (nack_loop s ref_time sns).0
unfolding nack_loop
nack_loop-IsValid s ref_time [] v = v
nack_loop-IsValid s ref_time (sn ∷ sns) v =
    nack_loop-IsValid (nack_one s ref_time sn).0 ref_time sns (nack_one-IsValid s ref_time sn v)
