-- ===== src/RtpStats/Count.antt =====
-- How `Update` of pkg/buffer/rtpstats.go counts packets.
use go_ortc.Base.{
  ℕ, ◌+◌, ◌*◌, ◌%◌, ◌≤◌, ◌<◌, ◌≡◌, ◌≢◌, refl, sym, ap, ◌∙◌, Bool, true, false, ◌||◌, not, Option,
  none, some, ltb, leb, ◌==◌, if◌then◌else◌, arith, if_both,
}
use native.Mathlib.Decide.{dec_lt}
use go_ortc.Base.Words.{sub16, add32, sub32}
use go_ortc.RtpStats.Types.{RtpStats, Float64, Header, SnInfo, RtpFlowState}
use go_ortc.RtpStats.Ring.{get_ext_highest_sn, is_sn_info_lost}
use go_ortc.RtpStats.Update.{
  maybe_adjust_start_sn, late_unadjusted, late, in_order, account_unless, count_packet, update,
  packet_info, after_adjust, begin, resync,
}
use go_ortc.RtpStats.Tally.{
  Tally, InRange, total, ahead, tally, tally-set_sn_info, tally-account, tally-in_order,
}

-- In order: one more packet, whether or not the number wraps round.
total-ahead :
    (c : Tally) (sn : ℕ)
    → InRange c
    → sn < 65536
    → sub16 sn c.highest_sn ≢ 0
    → sub16 sn c.highest_sn ≤ 32768
    → total (ahead c sn (sub16 sn c.highest_sn) false) ≡ add32 (total c) 1
total-ahead c sn v h ne near = ground arith

-- What `maybeAdjustStartSN` makes of the tally.
abbrev pub adjusted : Tally → (sn : ℕ) → Tally
adjusted c sn = record c {
  packets_lost = add32 c.packets_lost (sub32 (sub16 (c.ext_start_sn % 65536) sn) 1);
  ext_start_sn = sn;
}

total-adjusted :
    (c : Tally) (sn : ℕ)
    → InRange c
    → sn < c.ext_start_sn
    → total (adjusted c sn) ≡ add32 (total c) 1
total-adjusted c sn v below = ground arith

total-duplicate :
    (c : Tally)
    → InRange c
    → total (record c { packets_duplicate = add32 c.packets_duplicate 1 }) ≡ add32 (total c) 1
total-duplicate c v = ground arith

total-recovered :
    (c : Tally)
    → InRange c
    → total (record c { packets_lost = sub32 c.packets_lost 1 }) ≡ add32 (total c) 1
total-recovered c v = ground arith

-- The guards of `maybeAdjustStartSN`: less than half a cycle is covered, and the packet is before it.
pub record MovesBack (c : Tally) (sn : ℕ) : Type 0 where
  pub short :
      add32 (sub32 ((c.cycles * 65536 + c.highest_sn) % 4294967296) c.ext_start_sn) 1 < 32768
  pub before : 32768 ≤ sub16 sn (c.ext_start_sn % 65536)

-- The start moves back to a number above it, across the wrap of the sequence numbers.
pub record CrossesWrap (c : Tally) (sn : ℕ) : Type 0 where
  pub moves : MovesBack c sn
  pub above : c.ext_start_sn < sn

below_start :
    (c : Tally) (sn : ℕ)
    → InRange c
    → sn < 65536
    → MovesBack c sn
    → ¬ CrossesWrap c sn
    → sn < c.ext_start_sn
below_start c sn v h back fine = elim (dec_lt c.ext_start_sn sn) [
  | yes p ↦ absurd (fine (record { moves = back; above = p }))
  | no p ↦ omega (arith, back.before)
]

pub unsome : {A : Type 0} {a b : A} → some a ≡ some b → a ≡ b
unsome e = cc

module _ {J : Type 0} where
  unfoldable pub reordered : RtpStats J → ℕ → RtpStats J
  reordered r diff =
      if diff == 0 then r else record r { packets_out_of_order = add32 r.packets_out_of_order 1 }

  pub tally-reordered : (r : RtpStats J) (diff : ℕ) → tally (reordered r diff) ≡ tally r
  unfolding reordered
  tally-reordered r diff =
      if_both (λ (t : RtpStats J). tally t ≡ tally r) (diff == 0) (λ _. refl) (λ _. refl)

  total-late_unadjusted :
      (s : RtpStats J) (h : Header) (payload padding : ℕ) (c : Tally)
      → InRange c
      → tally s ≡ c
      → total (tally (late_unadjusted s h payload padding).0) ≡ add32 (total c) 1
  unfolding late_unadjusted
  total-late_unadjusted s h payload padding c v same =
      if_both (λ (q : RtpStats J × Bool). total (tally q.0) ≡ add32 (total c) 1)
        (not (is_sn_info_lost s h.sequence_number))
        (λ _.
          ap (λ (d : Tally). total (record d { packets_duplicate = add32 d.packets_duplicate 1 }))
            same
          ∙ total-duplicate c v)
        (λ _.
          ap total (tally-set_sn_info _ h.sequence_number _)
          ∙ ap (λ (d : Tally). total (record d { packets_lost = sub32 d.packets_lost 1 })) same
          ∙ total-recovered c v)

  after_adjust_both :
      (P : RtpStats J → Type 0) (o : Option (RtpStats J)) (other : RtpStats J × Bool)
      → ((t : RtpStats J) → o ≡ some t → P t)
      → P other.0
      → P (after_adjust o other).0
  after_adjust_both P none other g k = k
  after_adjust_both P (some t) other g k = g t refl

  pub tally-maybe_adjust :
      (r : RtpStats J) (h : Header) (info : SnInfo) (t : RtpStats J)
      → maybe_adjust_start_sn r h info ≡ some t
      → (tally t ≡ adjusted (tally r) h.sequence_number) × MovesBack (tally r) h.sequence_number
  unfolding maybe_adjust_start_sn
  tally-maybe_adjust r h info =
      let sn = h.sequence_number in
      let Q : Option (RtpStats J) → Type 0 = λ o.
        (t : RtpStats J)
        → o ≡ some t
        → (tally t ≡ adjusted (tally r) sn) × MovesBack (tally r) sn in
      let spread = add32 (sub32 (get_ext_highest_sn r) r.ext_start_sn) 1 in
      if_both Q (leb 32768 spread) (λ _ t e. absurd (cc))
        λ short.
          if_both Q (ltb (sub16 sn (r.ext_start_sn % 65536)) 32768) (λ _ t e. absurd (cc))
            λ before t e. (
              ap tally (sym (unsome e)) ∙ tally-set_sn_info _ sn info,
              record { short = ground arith; before = ground arith },
            )

  -- A late packet: one more, unless the start of the stream moves back across the wrap.
  total-late :
      (r : RtpStats J) (h : Header) (diff payload padding : ℕ)
      → InRange (tally r)
      → h.sequence_number < 65536
      → ¬ CrossesWrap (tally r) h.sequence_number
      → total (tally (late r h diff payload padding).0) ≡ add32 (total (tally r)) 1
  unfolding late reordered
  total-late r h diff payload padding v hs fine =
      let P : RtpStats J → Type 0 = λ t. total (tally t) ≡ add32 (total (tally r)) 1 in
      let s = reordered r diff in
      let same : tally s ≡ tally r = tally-reordered r diff in
      let info = packet_info h payload padding in
      after_adjust_both P (maybe_adjust_start_sn s h info) (late_unadjusted s h payload padding)
        (λ t e.
          let (moved, back) = tally-maybe_adjust s h info t e in
          let back' : MovesBack (tally r) h.sequence_number = rw same at back in
          ap total (moved ∙ ap (λ (c : Tally). adjusted c h.sequence_number) same)
          ∙ total-adjusted (tally r) h.sequence_number v (below_start (tally r) _ v hs back' fine))
        (total-late_unadjusted s h payload padding (tally r) v same)

module _ {J : Type 0} ⦃f : Float64 J⦄ where
  pub total-account_unless :
      (q : RtpStats J × Bool) (h : Header) (payload padding time : ℕ)
      → total (tally (account_unless q h payload padding time)) ≡ total (tally q.0)
  total-account_unless (r, true) h payload padding time = refl
  total-account_unless (r, false) h payload padding time =
      ap total (tally-account r h payload padding time)

  total-count_packet :
      (r : RtpStats J) (h : Header) (payload padding time : ℕ)
      → InRange (tally r)
      → h.sequence_number < 65536
      → ¬ CrossesWrap (tally r) h.sequence_number
      → total (tally (count_packet r h false payload padding time).0) ≡ add32 (total (tally r)) 1
  unfolding count_packet
  total-count_packet r h payload padding time v hs fine =
      let diff = sub16 h.sequence_number r.highest_sn in
      if_both (λ (q : RtpStats J × RtpFlowState). total (tally q.0) ≡ add32 (total (tally r)) 1)
        (diff == 0 || ltb 32768 diff)
        (λ _.
          total-account_unless (late r h diff payload padding) h payload padding time
          ∙ total-late r h diff payload padding v hs fine)
        (λ near.
          ap total (
            tally-account (in_order r h false diff payload padding time) h payload padding time
            ∙ tally-in_order r h false diff payload padding time)
          ∙ total-ahead (tally r) h.sequence_number v hs (ground arith) (ground arith))

  pub update-running :
      (r : RtpStats J) (h : Header) (payload padding time now : ℕ)
      → r.end_time ≡ none
      → r.initialized ≡ true
      → r.resync_on_next_packet ≡ false
      → update r h payload padding time now ≡ count_packet r h false payload padding time
  unfolding update begin resync
  update-running r h payload padding time now running ready settled = simp (running, ready, settled)

  -- A packet that comes while the stream runs (it is initialized, not stopped and not about to
  -- resync) makes the number of packets (the expected ones less the lost ones, and the duplicates)
  -- grow by exactly one, modulo 2^32, whether it is in order, late, a duplicate, or wraps round the
  -- sequence number, if it does not move the start of the stream back across the wrap.
  pub total-update :
      (r : RtpStats J) (h : Header) (payload padding time now : ℕ)
      → InRange (tally r)
      → h.sequence_number < 65536
      → r.end_time ≡ none
      → r.initialized ≡ true
      → r.resync_on_next_packet ≡ false
      → ¬ CrossesWrap (tally r) h.sequence_number
      → total (tally (update r h payload padding time now).0) ≡ add32 (total (tally r)) 1
  total-update r h payload padding time now v hs running ready settled fine =
      ap (λ (q : RtpStats J × RtpFlowState). total (tally q.0))
        (update-running r h payload padding time now running ready settled)
      ∙ total-count_packet r h payload padding time v hs fine
