-- ===== src/RtpStats/Ring.antt =====
-- The ring of packet sizes of pkg/buffer/rtpstats.go, and the extended sequence number.
use go_ortc.Base.{
  ℕ, zero, suc, ◌+◌, ◌-◌, ◌*◌, ◌%◌, Bool, false, ◌&&◌, Option, none, some, ltb, leb, ◌==◌,
  if◌then◌else◌, get_or, set,
}
use go_ortc.Base.Words.{sub16}
use go_ortc.RtpStats.Types.{RtpStats, SnInfo, no_info, sn_info_size, gap_histogram_num_bins}

abbrev pub info_of : (pkt_size hdr_size payload_size : ℕ) → Bool → SnInfo
info_of pkt_size hdr_size payload_size marker = record {
  hdr_size = hdr_size;
  pkt_size = pkt_size;
  is_padding_only = payload_size == 0;
  marker = marker;
}

module _ {J : Type 0} where
  -- `(uint32(cycles) << 16) | uint32(highestSN)`: the parts do not overlap, so `|` is a sum.
  abbrev pub get_ext_highest_sn : RtpStats J → ℕ
  get_ext_highest_sn r = (r.cycles * 65536 + r.highest_sn) % 4294967296

  -- `none` is the -1 of the source. `& SnInfoMask` of a Go int is the remainder by 2048.
  unfoldable pub get_sn_info_out_of_order_ptr : RtpStats J → ℕ → Option ℕ
  get_sn_info_out_of_order_ptr r sn =
      let ahead = sub16 sn r.highest_sn in
      let offset = sub16 r.highest_sn sn in
      if ltb 0 ahead && ltb ahead 32768
      then none
      else if leb sn_info_size offset
      then none
      else some ((r.sn_info_write_ptr + sn_info_size - offset - 1) % sn_info_size)

  -- The write at a pointer that may be -1.
  abbrev pub write_at : RtpStats J → Option ℕ → SnInfo → RtpStats J
  write_at r none info = r
  write_at r (some p) info = record r { sn_infos = set r.sn_infos p info }

  unfoldable pub set_sn_info : RtpStats J → ℕ → SnInfo → RtpStats J
  set_sn_info r sn info =
      let late = write_at r (get_sn_info_out_of_order_ptr r sn) info in
      if ltb 32768 (sub16 sn r.highest_sn) then late else record r {
        sn_infos = set r.sn_infos r.sn_info_write_ptr info;
        sn_info_write_ptr = (r.sn_info_write_ptr + 1) % sn_info_size;
      }

  -- `n` rounds of the loop of `clearSnInfos`.
  unfoldable pub clear_rounds : ℕ → RtpStats J → RtpStats J
  clear_rounds zero r = r
  clear_rounds (suc n) r = clear_rounds n (record r {
    sn_infos = set r.sn_infos r.sn_info_write_ptr no_info;
    sn_info_write_ptr = (r.sn_info_write_ptr + 1) % sn_info_size;
  })

  -- The uint16 counter goes from the start to the end, so the loop makes this many rounds.
  unfoldable pub clear_sn_infos : RtpStats J → (start_inclusive end_exclusive : ℕ) → RtpStats J
  clear_sn_infos r start_inclusive end_exclusive =
      clear_rounds (sub16 end_exclusive start_inclusive) r

  abbrev pub lost_at : RtpStats J → Option ℕ → Bool
  lost_at r none = false
  lost_at r (some p) = (get_or r.sn_infos p no_info).pkt_size == 0

  unfoldable pub is_sn_info_lost : RtpStats J → ℕ → Bool
  is_sn_info_lost r sn = lost_at r (get_sn_info_out_of_order_ptr r sn)

  -- `gap` is 1 at least; the last bin collects the long gaps.
  unfoldable pub update_gap_histogram : RtpStats J → ℕ → RtpStats J
  update_gap_histogram r gap =
      let missing = gap - 1 in
      let bin =
        if ltb gap_histogram_num_bins missing then gap_histogram_num_bins - 1 else missing - 1 in
      if ltb gap 2 then r else record r {
        gap_histogram = set r.gap_histogram bin ((get_or r.gap_histogram bin 0 + 1) % 4294967296);
      }
