-- ===== src/RtpStats/WrapStart.antt =====
-- What `maybeAdjustStartSN` of pkg/buffer/rtpstats.go does when the start of the stream moves back
-- across the wrap of the sequence numbers.
use go_ortc.Base.{
  ℕ, ◌%◌, ◌<◌, ◌≡◌, refl, ap, ◌∙◌, true, false, ◌||◌, Option, none, some, ltb, leb, ◌==◌, arith,
}
use go_ortc.Base.Words.{sub16, add32, sub32}
use go_ortc.RtpStats.Types.{RtpStats, Float64, Header, SnInfo, RtpFlowState}
use go_ortc.RtpStats.Ring.{get_ext_highest_sn}
use go_ortc.RtpStats.Update.{
  maybe_adjust_start_sn, late_unadjusted, late, count_packet, update, packet_info, after_adjust,
}
use go_ortc.RtpStats.Tally.{Tally, InRange, total, tally}
use go_ortc.RtpStats.Count.{
  adjusted, MovesBack, CrossesWrap, reordered, tally-reordered, tally-maybe_adjust,
  total-account_unless, update-running,
}

total-crossing :
    (c : Tally) (sn : ℕ)
    → InRange c
    → sn < 65536
    → c.ext_start_sn < sn
    → total (adjusted c sn) ≡ sub32 (total c) 65535
total-crossing c sn v hs above = ground arith

module _ {J : Type 0} where
  moves-adjusts :
      (r : RtpStats J) (h : Header) (info : SnInfo)
      → MovesBack (tally r) h.sequence_number
      → (t : RtpStats J) × (maybe_adjust_start_sn r h info ≡ some t)
  unfolding maybe_adjust_start_sn
  moves-adjusts r h info back =
      let short : leb 32768 (add32 (sub32 (get_ext_highest_sn r) r.ext_start_sn) 1) ≡ false =
        ground (arith, back.short) in
      let before : ltb (sub16 h.sequence_number (r.ext_start_sn % 65536)) 32768 ≡ false =
        ground (arith, back.before) in
      rw (short, before) (_, refl)

  total-late-crossing :
      (r : RtpStats J) (h : Header) (diff payload padding : ℕ)
      → InRange (tally r)
      → h.sequence_number < 65536
      → CrossesWrap (tally r) h.sequence_number
      → total (tally (late r h diff payload padding).0) ≡ sub32 (total (tally r)) 65535
  unfolding late reordered
  total-late-crossing r h diff payload padding v hs crosses =
      let s = reordered r diff in
      let same : tally s ≡ tally r = tally-reordered r diff in
      let info = packet_info h payload padding in
      let back : MovesBack (tally s) h.sequence_number = rw same crosses.moves in
      let (t, e) = moves-adjusts s h info back in
      let (moved, _) = tally-maybe_adjust s h info t e in
      ap
        (λ (o : Option (RtpStats J)).
          total (tally (after_adjust o (late_unadjusted s h payload padding)).0))
        e
      ∙ ap total (moved ∙ ap (λ (c : Tally). adjusted c h.sequence_number) same)
      ∙ total-crossing (tally r) h.sequence_number v hs crosses.above

module _ {J : Type 0} ⦃f : Float64 J⦄ where
  total-count_packet-crossing :
      (r : RtpStats J) (h : Header) (payload padding time : ℕ)
      → InRange (tally r)
      → h.sequence_number < 65536
      → CrossesWrap (tally r) h.sequence_number
      → 32768 < sub16 h.sequence_number r.highest_sn
      → total (tally (count_packet r h false payload padding time).0)
        ≡ sub32 (total (tally r)) 65535
  unfolding count_packet
  total-count_packet-crossing r h payload padding time v hs crosses behind =
      let diff = sub16 h.sequence_number r.highest_sn in
      let late_one : (diff == 0 || ltb 32768 diff) ≡ true = ground arith in
      rw late_one (
        total-account_unless (late r h diff payload padding) h payload padding time
        ∙ total-late-crossing r h diff payload padding v hs crosses)

  -- A late packet that moves the start of a running stream back across the wrap of the sequence
  -- numbers makes the number of packets fall by 65535, modulo 2^32, where it should grow by one: the
  -- start becomes the number itself, with no cycle taken off it.
  pub total-update-crossing :
      (r : RtpStats J) (h : Header) (payload padding time now : ℕ)
      → InRange (tally r)
      → h.sequence_number < 65536
      → r.end_time ≡ none
      → r.initialized ≡ true
      → r.resync_on_next_packet ≡ false
      → CrossesWrap (tally r) h.sequence_number
      → 32768 < sub16 h.sequence_number r.highest_sn
      → total (tally (update r h payload padding time now).0) ≡ sub32 (total (tally r)) 65535
  total-update-crossing r h payload padding time now v hs running ready settled crosses behind =
      ap (λ (q : RtpStats J × RtpFlowState). total (tally q.0))
        (update-running r h payload padding time now running ready settled)
      ∙ total-count_packet-crossing r h payload padding time v hs crosses behind
