-- ===== src/Sequencer/Keep.antt =====
-- What a later `push` of pkg/rtc/sequencer.go leaves of the packets stored before it.
use go_ortc.Base.{
  ℕ, zero, suc, ◌+◌, ◌-◌, ◌≤◌, ◌<◌, ◌≡◌, ◌≢◌, refl, sym, ap, ◌∙◌, ltb, leb, ◌==◌, inl, inr, true,
  Option, none, some, List, arith, get_or, get_or-set_ne, Option-cases, if_both,
}
use go_ortc.Base.Int.{ℤ, pos, sub_ℕ}
use go_ortc.Base.Words.{IsU16, sub16}
use go_ortc.Sequencer.{
  Sequencer, PacketMeta, zero_meta, wrap, clear_slots, start, advance, get_slot_started, get_slot,
  new_meta, store, push, lookup,
}
use go_ortc.Sequencer.Wrap.{wrap-lt, wrap-pos_near, wrap-sub_ℕ_near}
use go_ortc.Sequencer.Valid.{IsValid, get_slot-IsValid}
use go_ortc.Sequencer.Lookup.{
  InWindow, slot_of, lookup-InWindow, get_slot-Placed, push-none, push-some,
}

-- Clearing leaves the slots that it does not visit.
get_or-clear_slots :
    (n max step idx i : ℕ) (seq : List (Option ℕ))
    → ((j : ℕ) → idx ≤ j → j < idx + n → wrap max (pos (step + j)) ≢ i)
    → get_or (clear_slots n max step idx seq) i none ≡ get_or seq i none
unfolding clear_slots
get_or-clear_slots zero max step idx i seq far = refl
get_or-clear_slots (suc n) max step idx i seq far =
    get_or-clear_slots n max step (idx + 1) i _ (λ j lo hi. far j (omega arith) (omega arith))
    ∙ get_or-set_ne seq (wrap max (pos (step + idx))) i none none
        (far idx (omega arith) (omega arith))

-- What a look-up that succeeds has seen.
record Seen (s : Sequencer) (sn p : ℕ) : Type 0 where
  window : InWindow s sn
  pointed : get_or s.seq (slot_of s sn) none ≡ some p
  target : (get_or s.metas p zero_meta).target_seq_no ≡ sn

lookup-Seen : (s : Sequencer) (sn p : ℕ) → lookup s sn ≡ some p → Seen s sn p
unfolding lookup
lookup-Seen s sn p e = ground arith

Seen-lookup : (s : Sequencer) (sn p : ℕ) → Seen s sn p → lookup s sn ≡ some p
Seen-lookup s sn p q = lookup-InWindow s sn p q.window q.pointed q.target

-- The slots that `advance` clears, and the one that is written next, lie `j` ahead of the old head;
-- a packet that stays in the window lies elsewhere, and keeps its slot.
module _ (max step k d : ℕ) (inside : step < max) (fits : k + d < max) where
  slot_kept :
      0 < d
      → wrap max (sub_ℕ (wrap max (pos (step + d))) (k + d + 1)) ≡ wrap max (sub_ℕ step (k + 1))
  slot_kept h = omega (
    arith,
    wrap-pos_near max (step + d) (omega arith),
    wrap-sub_ℕ_near max (wrap max (pos (step + d))) (k + d + 1)
        (wrap-lt max (pos (step + d)) (omega arith)) (omega arith),
    wrap-sub_ℕ_near max step (k + 1) inside (omega arith),
  )

  slot_apart : (j : ℕ) → j < d → wrap max (pos (step + j)) ≢ wrap max (sub_ℕ step (k + 1))
  slot_apart j h = omega (
    arith,
    wrap-pos_near max (step + j) (omega arith),
    wrap-sub_ℕ_near max step (k + 1) inside (omega arith),
  )

-- Two packets behind the head at different distances have different slots.
behind_apart :
    (max step k l : ℕ)
    → step < max
    → k < max
    → l < max
    → k ≢ l
    → wrap max (sub_ℕ step (k + 1)) ≢ wrap max (sub_ℕ step (l + 1))
behind_apart max step k l h hk hl ne = omega (
  arith,
  wrap-sub_ℕ_near max step (k + 1) h (omega arith),
  wrap-sub_ℕ_near max step (l + 1) h (omega arith),
)

-- Moving the head forward keeps what stays in the window.
advance-Seen :
    (s : Sequencer) (off_sn sn p : ℕ)
    → IsValid s
    → IsU16 off_sn
    → IsU16 sn
    → sub16 off_sn s.head_sn ≢ 0
    → sub16 off_sn s.head_sn ≤ 32768
    → off_sn ≢ sn
    → Seen s sn p
    → InWindow (advance s off_sn (sub16 off_sn s.head_sn)) sn
    → Seen (advance s off_sn (sub16 off_sn s.head_sn)) sn p
unfolding advance
advance-Seen s off_sn sn p v ho hs ne near other q w =
    let d = sub16 off_sn s.head_sn in
    let k = sub16 s.head_sn sn in
    let further : sub16 off_sn sn ≡ k + d = omega (arith, v.head_u16, q.window.recent, w.recent) in
    let fits : k + d < s.max = omega (arith, further, w.held) in
    let same : slot_of (record s { head_sn = off_sn; step = wrap s.max (pos (s.step + d)) }) sn
        ≡ slot_of s sn =
      ap (λ (t : ℕ). wrap s.max (sub_ℕ (wrap s.max (pos (s.step + d))) (t + 1))) further
      ∙ slot_kept s.max s.step k d v.step_in fits (omega arith) in
    record {
      window = w;
      pointed =
          ap (λ (i : ℕ). get_or (clear_slots (d - 1) s.max s.step 0 s.seq) i none) same
          ∙ get_or-clear_slots (d - 1) s.max s.step 0 (slot_of s sn) s.seq
              (λ j lo hi. slot_apart s.max s.step k d v.step_in fits j (omega arith))
          ∙ q.pointed;
      target = q.target;
    }

-- A slot that `getSlot` answers is not the slot of another packet in the window.
apart_of_Placed :
    (s : Sequencer) (off_sn sn slot : ℕ)
    → IsValid s
    → IsU16 off_sn
    → IsU16 sn
    → off_sn ≢ sn
    → InWindow s off_sn
    → slot_of s off_sn ≡ slot
    → InWindow s sn
    → slot ≢ slot_of s sn
apart_of_Placed s off_sn sn slot v ho hs other wo e w e' =
    behind_apart s.max s.step (sub16 s.head_sn off_sn) (sub16 s.head_sn sn) v.step_in wo.held w.held
      (omega (arith, v.head_u16)) (e ∙ e')

store-Seen :
    (s : Sequencer) (slot sn p : ℕ) (m : PacketMeta)
    → Seen s sn p
    → slot ≢ slot_of s sn
    → p ≢ s.meta_write_ptr
    → Seen (store s slot m) sn p
unfolding store
store-Seen s slot sn p m q apart fresh = record {
  window = record { recent = q.window.recent; held = q.window.held };
  pointed = get_or-set_ne s.seq slot (slot_of s sn) _ none apart ∙ q.pointed;
  target =
      ap (λ (r : PacketMeta). r.target_seq_no)
        (get_or-set_ne s.metas s.meta_write_ptr p m zero_meta (λ e. fresh (sym e)))
      ∙ q.target;
}

-- What `getSlot` leaves as it was.
record Untouched (s : Sequencer) (r : Sequencer × Option ℕ) : Type 0 where
  same_metas : r.0.metas ≡ s.metas
  same_ptr : r.0.meta_write_ptr ≡ s.meta_write_ptr

get_slot-Untouched : (s : Sequencer) (off_sn : ℕ) → Untouched s (get_slot s off_sn)
unfolding get_slot get_slot_started start advance
get_slot-Untouched s off_sn = ground arith

get_slot_started-Seen :
    (s : Sequencer) (off_sn sn p : ℕ)
    → IsValid s
    → IsU16 off_sn
    → IsU16 sn
    → off_sn ≢ sn
    → Seen s sn p
    → InWindow (get_slot_started s off_sn).0 sn
    → Seen (get_slot_started s off_sn).0 sn p
unfolding get_slot_started
get_slot_started-Seen s off_sn sn p v ho hs other q =
    let P : Sequencer × Option ℕ → Type 0 = λ r. InWindow r.0 sn → Seen r.0 sn p in
    let diff = sub16 off_sn s.head_sn in
    if_both P (diff == 0) (λ _ _. q)
      λ moved.
        if_both P (ltb 32768 diff)
          (λ late. if_both P (leb s.max (sub16 s.head_sn off_sn)) (λ _ _. q) (λ _ _. q))
          (λ near. advance-Seen s off_sn sn p v ho hs (ground arith) (ground arith) other q)

start-begun : (s : Sequencer) (off_sn : ℕ) → s.init ≡ true → start s off_sn ≡ s
unfolding start
start-begun s off_sn e = ground arith

get_slot-Seen :
    (s : Sequencer) (off_sn sn p : ℕ)
    → IsValid s
    → s.init ≡ true
    → IsU16 off_sn
    → IsU16 sn
    → off_sn ≢ sn
    → Seen s sn p
    → InWindow (get_slot s off_sn).0 sn
    → Seen (get_slot s off_sn).0 sn p
unfolding get_slot
get_slot-Seen s off_sn sn p v begun ho hs other q =
    rw (start-begun s off_sn begun) (get_slot_started-Seen s off_sn sn p v ho hs other q)

slot_free :
    (s : Sequencer) (off_sn sn slot : ℕ)
    → IsValid s
    → IsU16 off_sn
    → IsU16 sn
    → off_sn ≢ sn
    → (get_slot s off_sn).1 ≡ some slot
    → InWindow (get_slot s off_sn).0 sn
    → slot ≢ slot_of (get_slot s off_sn).0 sn
slot_free s off_sn sn slot v ho hs other e =
    let here = get_slot-Placed s off_sn v ho in
    apart_of_Placed (get_slot s off_sn).0 off_sn sn slot (get_slot-IsValid s off_sn ho v) ho hs
      other (here.window slot e) (here.place slot e)

store-kept :
    (s : Sequencer) (slot sn p : ℕ) (m : PacketMeta)
    → (InWindow s sn → Seen s sn p)
    → (InWindow s sn → slot ≢ slot_of s sn)
    → p ≢ s.meta_write_ptr
    → InWindow (store s slot m) sn
    → (lookup (store s slot m) sn ≡ some p)
      × (get_or (store s slot m).metas p zero_meta ≡ get_or s.metas p zero_meta)
unfolding store
store-kept s slot sn p m seen apart fresh w =
    let w' : InWindow s sn = record { recent = w.recent; held = w.held } in
    (
      Seen-lookup (store s slot m) sn p (store-Seen s slot sn p m (seen w') (apart w') fresh),
      get_or-set_ne s.metas s.meta_write_ptr p m zero_meta (λ e. fresh (sym e)),
    )

-- A packet that a NACK would have found before a `push` of another number is found after it, at the
-- same record, unchanged, provided that it is still in the window of the new state and that its
-- record is not the one the write pointer stands at.
pub push-keeps-lookup :
    (s : Sequencer) (sn off_sn time_stamp : ℕ) (layer : ℤ) (old p : ℕ)
    → IsValid s
    → s.init ≡ true
    → IsU16 off_sn
    → IsU16 old
    → off_sn ≢ old
    → lookup s old ≡ some p
    → p ≢ s.meta_write_ptr
    → let t = (push s sn off_sn time_stamp layer).0 in
      InWindow t old
      → (lookup t old ≡ some p) × (get_or t.metas p zero_meta ≡ get_or s.metas p zero_meta)
push-keeps-lookup s sn off_sn time_stamp layer old p v begun ho hs other e fresh =
    let s' = (get_slot s off_sn).0 in
    let seen = get_slot-Seen s off_sn old p v begun ho hs other (lookup-Seen s old p e) in
    let u = get_slot-Untouched s off_sn in
    let kept : get_or s'.metas p zero_meta ≡ get_or s.metas p zero_meta =
      ap (λ (l : List PacketMeta). get_or l p zero_meta) u.same_metas in
    elim (Option-cases (get_slot s off_sn).1) [
      | inl none_e ↦
          rw (push-none s sn off_sn time_stamp layer none_e)
            (λ w. (Seen-lookup s' old p (seen w), kept))
      | inr (slot, some_e) ↦ rw (push-some s sn off_sn time_stamp layer slot some_e) (λ w.
          let stored =
            store-kept s' slot old p (new_meta sn off_sn time_stamp layer) seen
              (slot_free s off_sn old slot v ho hs other some_e) (λ c. fresh (c ∙ u.same_ptr)) w in
          (stored.0, stored.1 ∙ kept))
    ]
