-- ===== src/RtpStats/Tally.antt =====
-- The fields of the state of pkg/buffer/rtpstats.go that its count of packets depends on.
use go_ortc.Base.{
  ℕ, zero, suc, ◌+◌, ◌-◌, ◌*◌, ◌%◌, ◌<◌, ◌≡◌, refl, ap, ◌∙◌, Bool, ◌&&◌, not, Option, none, some,
  ltb, ◌==◌, if◌then◌else◌, if_both,
}
use go_ortc.Base.Words.{sub16, add16, add32, sub32}
use go_ortc.RtpStats.Types.{RtpStats, Float64, Header, SnInfo}
use go_ortc.RtpStats.Ring.{
  set_sn_info, clear_rounds, clear_sn_infos, update_gap_histogram, get_sn_info_out_of_order_ptr,
  write_at,
}
use go_ortc.RtpStats.Jitter.{update_jitter}
use go_ortc.RtpStats.Update.{in_order, account, packet_info}

-- The fields that the count of packets depends on.
pub record Tally : Type 0 where
  pub ext_start_sn : ℕ
  pub highest_sn : ℕ
  pub cycles : ℕ
  pub packets_lost : ℕ
  pub packets_duplicate : ℕ

pub record InRange (c : Tally) : Type 0 where
  pub start_u16 : c.ext_start_sn < 65536
  pub highest_u16 : c.highest_sn < 65536
  pub cycles_u16 : c.cycles < 65536
  pub lost_u32 : c.packets_lost < 4294967296
  pub duplicate_u32 : c.packets_duplicate < 4294967296

-- The packets expected so far, less those lost, and the duplicates: all packets that came.
abbrev pub total : Tally → ℕ
total c =
    let highest = (c.cycles * 65536 + c.highest_sn) % 4294967296 in
    add32 (sub32 (add32 (sub32 highest c.ext_start_sn) 1) c.packets_lost) c.packets_duplicate

-- What the in-order branch makes of the tally.
abbrev pub ahead : Tally → (sn diff : ℕ) (first : Bool) → Tally
ahead c sn diff first = record c {
  highest_sn = sn;
  cycles = if ltb sn c.highest_sn && not first then (c.cycles + 1) % 65536 else c.cycles;
  packets_lost = add32 c.packets_lost (diff - 1);
}

module _ {J : Type 0} where
  abbrev pub tally : RtpStats J → Tally
  tally r = record {
    ext_start_sn = r.ext_start_sn;
    highest_sn = r.highest_sn;
    cycles = r.cycles;
    packets_lost = r.packets_lost;
    packets_duplicate = r.packets_duplicate;
  }

  tally-write_at :
      (r : RtpStats J) (o : Option ℕ) (info : SnInfo) → tally (write_at r o info) ≡ tally r
  tally-write_at r none info = refl
  tally-write_at r (some p) info = refl

  pub tally-set_sn_info :
      (r : RtpStats J) (sn : ℕ) (info : SnInfo) → tally (set_sn_info r sn info) ≡ tally r
  unfolding set_sn_info
  tally-set_sn_info r sn info =
      if_both (λ (t : RtpStats J). tally t ≡ tally r) (ltb 32768 (sub16 sn r.highest_sn))
        (λ _. tally-write_at r (get_sn_info_out_of_order_ptr r sn) info) (λ _. refl)

  tally-clear_rounds : (n : ℕ) (r : RtpStats J) → tally (clear_rounds n r) ≡ tally r
  unfolding clear_rounds
  tally-clear_rounds zero r = refl
  tally-clear_rounds (suc n) r = tally-clear_rounds n _

  tally-update_gap_histogram :
      (r : RtpStats J) (gap : ℕ) → tally (update_gap_histogram r gap) ≡ tally r
  unfolding update_gap_histogram
  tally-update_gap_histogram r gap =
      if_both (λ (t : RtpStats J). tally t ≡ tally r) (ltb gap 2) (λ _. refl) (λ _. refl)

module _ {J : Type 0} ⦃f : Float64 J⦄ where
  tally-update_jitter :
      (r : RtpStats J) (h : Header) (time : ℕ) → tally (update_jitter r h time) ≡ tally r
  unfolding update_jitter
  tally-update_jitter r h time =
      if_both (λ (t : RtpStats J). tally t ≡ tally r) (r.last_transit == 0) (λ _. refl) (λ _. refl)

  pub tally-account :
      (r : RtpStats J) (h : Header) (payload padding time : ℕ)
      → tally (account r h payload padding time) ≡ tally r
  unfolding account
  tally-account r h payload padding time =
      if_both (λ (t : RtpStats J). tally t ≡ tally r) (payload == 0) (λ _. refl)
        (λ _. tally-update_jitter _ h time)

  pub tally-in_order :
      (r : RtpStats J) (h : Header) (first : Bool) (diff payload padding time : ℕ)
      → tally (in_order r h first diff payload padding time)
        ≡ ahead (tally r) h.sequence_number diff first
  unfolding in_order clear_sn_infos
  tally-in_order r h first diff payload padding time =
      let sn = h.sequence_number in
      let gapped = update_gap_histogram r diff in
      let cleared = clear_rounds (sub16 sn (add16 r.highest_sn 1)) gapped in
      let counted = record cleared { packets_lost = add32 cleared.packets_lost (diff - 1) } in
      let moved : Tally → Tally = λ c. record c {
        highest_sn = sn;
        cycles = if ltb sn c.highest_sn && not first then (c.cycles + 1) % 65536 else c.cycles;
      } in
      let missed : Tally → Tally =
        λ c. record c { packets_lost = add32 c.packets_lost (diff - 1) } in
      ap moved (tally-set_sn_info counted sn (packet_info h payload padding))
      ∙ ap (λ (c : Tally). moved (missed c))
          (tally-clear_rounds (sub16 sn (add16 r.highest_sn 1)) gapped
            ∙ tally-update_gap_histogram r diff)
