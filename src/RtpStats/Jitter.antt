-- ===== src/RtpStats/Jitter.antt =====
-- `updateJitter` of pkg/buffer/rtpstats.go.
use go_ortc.Base.{ℕ, ◌-◌, ◌*◌, ◌/◌, ◌%◌, ◌^◌, List, [], ◌∷◌, leb, ◌==◌, if◌then◌else◌}
use go_ortc.Base.Words.{sub32}
use go_ortc.RtpStats.Types.{RtpStats, Float64, Header, Snapshot}

-- The magnitude of an int32, as its pattern; the least one stays.
abbrev pub abs32 : ℕ → ℕ
abs32 d = if leb (2 ^ 31) d then (2 ^ 32 - d) % 2 ^ 32 else d

module _ {J : Type 0} ⦃f : Float64 J⦄ where
  -- The loop over the snapshots raises the maximum of the stream, not that of the snapshot.
  unfoldable pub raise_max : (jitter : J) → List (ℕ × Snapshot J) → J → J
  raise_max jitter [] most = most
  raise_max jitter ((id, s) ∷ ss) most =
      raise_max jitter ss (if f.ltb s.max_jitter jitter then jitter else most)

  unfoldable pub update_jitter : RtpStats J → Header → (packet_time : ℕ) → RtpStats J
  update_jitter r h packet_time =
      let packet_time_rtp = packet_time / 1000000 * (r.params.clock_rate / 1000) % 2 ^ 32 in
      let transit = sub32 packet_time_rtp h.timestamp in
      let d = f.of_int32 (abs32 (sub32 transit r.last_transit)) in
      let jitter = f.add r.jitter (f.div (f.sub d r.jitter) (f.of_uint32 16)) in
      let most = if f.ltb r.max_jitter jitter then jitter else r.max_jitter in
      if r.last_transit == 0 then record r { last_transit = transit } else record r {
        jitter = jitter;
        max_jitter = raise_max jitter r.snapshots most;
        last_transit = transit;
      }
