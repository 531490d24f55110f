-- ===== src/Sequencer/Lookup.antt =====
-- Where the sequencer of pkg/rtc/sequencer.go puts a packet, and that a NACK finds it there.
use go_ortc.Base.{
  ℕ, ◌+◌, ◌-◌, ◌≤◌, ◌<◌, ◌≡◌, ◌≢◌, refl, sym, ap, ◌∙◌, if_both, ltb, leb, ◌==◌, inl, inr, Option,
  none, some, arith, length, get_or, get_or-set_self, Option-cases,
}
use go_ortc.Base.Int.{ℤ, pos, sub_ℕ}
use go_ortc.Base.Words.{IsU16, sub16}
use go_ortc.Sequencer.{
  Sequencer, PacketMeta, zero_meta, wrap, start, advance, get_slot_started, get_slot, new_meta,
  store, push, lookup,
}
use go_ortc.Sequencer.Wrap.{wrap-lt, wrap_pred}
use go_ortc.Sequencer.Valid.{IsValid, get_slot-IsValid, start-IsValid}

-- `sn` is at most half the number space and less than one ring behind the head.
pub record InWindow (s : Sequencer) (sn : ℕ) : Type 0 where
  pub recent : sub16 s.head_sn sn ≤ 32768
  pub held : sub16 s.head_sn sn < s.max

-- The slot in which `getPacketsMeta` looks for `sn`.
abbrev pub slot_of : Sequencer → ℕ → ℕ
slot_of s sn = wrap s.max (sub_ℕ s.step (sub16 s.head_sn sn + 1))

pub record Placed (off_sn : ℕ) (r : Sequencer × Option ℕ) : Type 0 where
  pub window : (slot : ℕ) → r.1 ≡ some slot → InWindow r.0 off_sn
  pub place : (slot : ℕ) → r.1 ≡ some slot → slot_of r.0 off_sn ≡ slot

rejected-Placed : (s : Sequencer) (off_sn : ℕ) → Placed off_sn (s, none)
rejected-Placed s off_sn = record { window = λ slot e. absurd (cc); place = λ slot e. cc }

accepted-Placed :
    (s : Sequencer) (off_sn slot : ℕ)
    → InWindow s off_sn
    → slot_of s off_sn ≡ slot
    → Placed off_sn (s, some slot)
accepted-Placed s off_sn slot w e = record { window = λ _ _. w; place = λ slot' e'. cc }

advance-Placed :
    (s : Sequencer) (off_sn diff : ℕ)
    → IsValid s
    → IsU16 off_sn
    → diff ≢ 0
    → Placed off_sn (advance s off_sn diff, some (wrap s.max (pos (s.step + diff - 1))))
advance-Placed s off_sn diff v h ne =
    accepted-Placed _ off_sn _
      (unfold advance in record { recent = omega arith; held = omega (arith, v.room) })
      (unfold advance in
        let here : sub16 off_sn off_sn + 1 ≡ 1 = omega arith in
        let last : s.step + diff - 1 + 1 ≡ s.step + diff = omega arith in
        ap (λ (t : ℕ). wrap s.max (sub_ℕ (wrap s.max (pos (s.step + diff))) t)) here
        ∙ rw last at (wrap_pred s.max (s.step + diff - 1) v.room))

get_slot_started-Placed :
    (s : Sequencer) (off_sn : ℕ)
    → IsValid s
    → IsU16 off_sn
    → Placed off_sn (get_slot_started s off_sn)
unfolding get_slot_started
get_slot_started-Placed s off_sn v h =
    let diff = sub16 off_sn s.head_sn in
    let back = sub16 s.head_sn off_sn in
    if_both (Placed off_sn) (diff == 0) (λ _. rejected-Placed s off_sn)
      λ moved.
        if_both (Placed off_sn) (ltb 32768 diff)
          (λ late.
            if_both (Placed off_sn) (leb s.max back) (λ _. rejected-Placed s off_sn)
              (λ held.
                accepted-Placed s off_sn _
                  (record { recent = ground (arith, v.head_u16); held = ground arith }) refl))
          (λ _. advance-Placed s off_sn diff v h (ground arith))

pub get_slot-Placed :
    (s : Sequencer) (off_sn : ℕ) → IsValid s → IsU16 off_sn → Placed off_sn (get_slot s off_sn)
unfolding get_slot
get_slot-Placed s off_sn v h =
    get_slot_started-Placed (start s off_sn) off_sn (start-IsValid s off_sn v) h

-- What a look-up of a number in the window reads.
pub lookup-InWindow :
    (s : Sequencer) (sn p : ℕ)
    → InWindow s sn
    → get_or s.seq (slot_of s sn) none ≡ some p
    → (get_or s.metas p zero_meta).target_seq_no ≡ sn
    → lookup s sn ≡ some p
unfolding lookup
lookup-InWindow s sn p w e t = ground arith

record Stored (s : Sequencer) (slot off_sn : ℕ) (m : PacketMeta) : Type 0 where
  found : lookup (store s slot m) off_sn ≡ some s.meta_write_ptr
  written : get_or (store s slot m).metas s.meta_write_ptr zero_meta ≡ m
  pointed : get_or (store s slot m).seq slot none ≡ some s.meta_write_ptr

store-Stored :
    (s : Sequencer) (slot off_sn : ℕ) (m : PacketMeta)
    → IsValid s
    → InWindow s off_sn
    → slot_of s off_sn ≡ slot
    → m.target_seq_no ≡ off_sn
    → Stored s slot off_sn m
unfolding store
store-Stored s slot off_sn m v w e t =
    let written = get_or-set_self s.metas s.meta_write_ptr m zero_meta v.ptr_in in
    let inside : slot < length s.seq = omega (arith, v.slots, wrap-lt s.max _ v.room) in
    let pointed = get_or-set_self s.seq slot (some s.meta_write_ptr) none inside in
    record {
      found =
          lookup-InWindow _ off_sn s.meta_write_ptr (record { recent = w.recent; held = w.held })
            (rw e pointed) (ap (λ (r : PacketMeta). r.target_seq_no) written ∙ t);
      written = written;
      pointed = pointed;
    }

module _ (s : Sequencer) (sn off_sn time_stamp : ℕ) (layer : ℤ) where
  pub push-none :
      (get_slot s off_sn).1 ≡ none
      → push s sn off_sn time_stamp layer ≡ ((get_slot s off_sn).0, none)
  unfolding push
  push-none e = rw (e, push)

  pub push-some :
      (slot : ℕ)
      → (get_slot s off_sn).1 ≡ some slot
      → let t = store (get_slot s off_sn).0 slot (new_meta sn off_sn time_stamp layer) in
        push s sn off_sn time_stamp layer ≡ (t, get_or t.seq slot none)
  unfolding push
  push-some slot e = rw (e, push)

-- A packet that `push` accepts is found at once: a NACK for its target number reaches the record
-- that `push` returned, and that record holds exactly what was pushed.
pub lookup-push :
    (s : Sequencer) (sn off_sn time_stamp : ℕ) (layer : ℤ) (p : ℕ)
    → IsValid s
    → IsU16 off_sn
    → (push s sn off_sn time_stamp layer).1 ≡ some p
    → let t = (push s sn off_sn time_stamp layer).0 in
      (lookup t off_sn ≡ some p)
      × (get_or t.metas p zero_meta ≡ new_meta sn off_sn time_stamp layer)
lookup-push s sn off_sn time_stamp layer p v h accepted =
    elim (Option-cases (get_slot s off_sn).1) [
      | inl e ↦ absurd (cc (push-none s sn off_sn time_stamp layer e))
      | inr (slot, e) ↦
          let here = get_slot-Placed s off_sn v h in
          let q =
            store-Stored (get_slot s off_sn).0 slot off_sn (new_meta sn off_sn time_stamp layer)
              (get_slot-IsValid s off_sn h v) (here.window slot e) (here.place slot e) refl in
          let step = push-some s sn off_sn time_stamp layer slot e in
          let same : some (get_slot s off_sn).0.meta_write_ptr ≡ some p =
            sym q.pointed ∙ ap (λ (r : Sequencer × Option ℕ). r.1) (sym step) ∙ accepted in
          rw step (q.found ∙ same, ground (arith, q.written, same))
    ]
