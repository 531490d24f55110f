-- ===== src/DownTrack/Retransmit.antt =====
-- `retransmitPackets` of pkg/rtc/downtrack.go.
use go_ortc.Base.{
  ℕ, ◌/◌, Bool, true, Option, none, some, List, [], ◌∷◌, ◌++◌, ◌≡◌, ◌⊎◌, inl, inr, refl, ltb,
  if◌then◌else◌, get_or, length,
}
use go_ortc.Base.Words.{add32}
use go_ortc.Rtp.{RtpHeader, RtpPacket, Pion, stats_header}
use go_ortc.RtpStats.Types.{Float64}
use go_ortc.RtpStats.Update.{update}
use go_ortc.RtpStats.Counters.{update_nack_processed}
use go_ortc.Sequencer.{Sequencer, PacketMeta, zero_meta, get_packets_meta}
use go_ortc.DownTrack.Types.{DownTrack, Effect, written, Outcome, quiet}
use go_ortc.DownTrack.Forward.{prepare_rtp_header_for_forwarding}

-- What `producer.ReadRTP` returns: the bytes of a packet, `io.EOF`, or another error.
pub data Read : Type 0 where
  bytes : List ℕ → Read
  eof read_error : Read

pub Read-cases : (r : Read) → ((r ≡ eof) ⊎ (r ≡ read_error)) ⊎ ((b : List ℕ) × (r ≡ bytes b))
Read-cases (bytes b) = inr (b, refl)
Read-cases eof = inl (inl refl)
Read-cases read_error = inl (inr refl)

-- The locals of the loop, and the track.
pub record Resending (J : Type 0) : Type 0 where
  pub track : DownTrack J
  pub effects : List Effect
  pub nack_acks : ℕ
  pub nack_misses : ℕ
  pub num_repeated_nacks : ℕ

-- The pointers that the sequencer hands out are read through its records.
abbrev pub metas_at : List PacketMeta → List ℕ → List PacketMeta
metas_at metas [] = []
metas_at metas (i ∷ is) = get_or metas i zero_meta ∷ metas_at metas is

-- `writes` is whether the peer's stream takes a packet, `read_rtp` the producer's buffer.
module _ {J : Type 0} ⦃f : Float64 J⦄ (p : Pion) (writes : RtpHeader → List ℕ → Bool)
    (read_rtp : ℕ → Read) (now : ℕ) where
  abbrev pub write_resent :
      Resending J → DownTrack J × Option RtpHeader → (payload : List ℕ) → Resending J
  write_resent l (d, none) payload = record l { track = d }
  write_resent l (d, some hdr) payload =
      let counted = record d {
        rtp_stats = (update d.rtp_stats (stats_header p hdr) (length payload) 0 now now).0;
      } in
      if writes hdr payload
      then record l { track = counted; effects = l.effects ++ (written hdr payload ∷ []) }
      else record l { track = d }

  -- The rest of a round for a packet that was read.
  abbrev pub resend_packet : Resending J → PacketMeta → Option RtpPacket → Resending J
  resend_packet l meta none = l
  resend_packet l meta (some pkt) =
      write_resent l
        (prepare_rtp_header_for_forwarding p l.track pkt.header meta.timestamp meta.target_seq_no
          now)
        pkt.payload

  abbrev pub repeated : Resending J → PacketMeta → Resending J
  repeated l meta =
      if ltb 1 meta.nacked
      then record l { num_repeated_nacks = add32 l.num_repeated_nacks 1 }
      else l

  abbrev pub acked : Resending J → Resending J
  acked l = record l { nack_acks = add32 l.nack_acks 1 }

  abbrev pub missed : Resending J → Resending J
  missed l = record l { nack_misses = add32 l.nack_misses 1 }

  -- The loop, which ends early at the end of the producer's buffer.
  unfoldable pub resend_loop : Resending J → List PacketMeta → Resending J
  resend_loop l [] = l
  resend_loop l (meta ∷ metas) = elim (read_rtp meta.source_seq_no) [
    | eof ↦ acked l
    | read_error ↦ resend_loop (missed (acked l)) metas
    | bytes b ↦
        resend_loop (resend_packet (repeated (acked l) meta) meta (p.unmarshal_packet b)) metas
  ]

  abbrev pub finish_resend : Resending J → Outcome J
  finish_resend l = record {
    track = record l.track {
      rtp_stats =
          update_nack_processed l.track.rtp_stats l.nack_acks l.nack_misses l.num_repeated_nacks;
    };
    effects = l.effects;
    success = true;
  }

  unfoldable pub retransmit_of : DownTrack J → List ℕ → Option Sequencer → Outcome J
  retransmit_of d nacks none = quiet d
  retransmit_of d nacks (some s) =
      let (s', found) = get_packets_meta s (now / 1000000) nacks in
      finish_resend (
        resend_loop
          (record {
            track = record d { sequencer = some s' };
            effects = [];
            nack_acks = 0;
            nack_misses = 0;
            num_repeated_nacks = 0;
          })
          (metas_at s'.metas found))

  abbrev pub retransmit_packets : DownTrack J → List ℕ → Outcome J
  retransmit_packets d nacks = retransmit_of d nacks d.sequencer
