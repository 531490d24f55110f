-- ===== src/DownTrack/Feedback.antt =====
-- `handleRTCP` of pkg/rtc/downtrack.go.
use go_ortc.Base.{
  ℕ, ◌%◌, Bool, true, false, ◌&&◌, Option, none, some, List, [], ◌∷◌, ◌++◌, ◌==◌, if◌then◌else◌,
  length,
}
use go_ortc.Base.Words.{add32}
use go_ortc.RtpStats.Types.{RtpStats, Float64, ReceptionReport}
use go_ortc.RtpStats.Counters.{update_pli, update_pli_time, update_fir, update_from_receiver_report}
use go_ortc.Sequencer.{Sequencer, set_rtt}
use go_ortc.DownTrack.Types.{
  DownTrack, Effect, pli_call, remb_feedback, transport_cc_feedback, retransmit, Outcome,
}

-- The packets of pion's rtcp that the method tests for. A NACK has, for each of its pairs, what
-- `PacketList` makes of the pair.
pub data Rtcp : Type 0 where
  picture_loss full_intra_request : Rtcp
  remb : (bitrate : ℕ) → Rtcp
  receiver_report : List ReceptionReport → Rtcp
  transport_nack : (pairs : List (List ℕ)) → Rtcp
  transport_cc : (media_ssrc : ℕ) → Rtcp
  other_rtcp : Rtcp

-- The locals of the method, and the track.
pub record Handling (J : Type 0) : Type 0 where
  pub track : DownTrack J
  pub effects : List Effect
  pub pli_once : Bool
  pub rtt_to_report : ℕ
  pub num_nacks : ℕ
  pub num_plis : ℕ
  pub num_firs : ℕ

abbrev pub concat : List (List ℕ) → List ℕ
concat [] = []
concat (l ∷ ls) = l ++ concat ls

abbrev pub report_rtt : Option Sequencer → (rtt : ℕ) → Option Sequencer
report_rtt none rtt = none
report_rtt (some s) rtt = if rtt == 0 then some s else some (set_rtt s rtt)

-- `measured` is what mediatransportutil makes of a report, `now` the time of the call.
module _ {J : Type 0} ⦃f : Float64 J⦄ (measured : ReceptionReport → ℕ × Bool) (now : ℕ) where
  unfoldable pub send_pli_once : Handling J → Handling J
  send_pli_once l =
      let d = l.track in
      if l.pli_once && d.enabled
      then record l {
        track = record d { rtp_stats = update_pli_time d.rtp_stats now };
        effects = l.effects ++ (pli_call false ∷ []);
        pli_once = false;
      }
      else l

  abbrev pub with_report : Handling J → RtpStats J × (ℕ × Bool) → Handling J
  with_report l (stats, (rtt, changed)) = record l {
    track = record l.track { rtp_stats = stats };
    rtt_to_report = if changed then rtt else l.rtt_to_report;
  }

  abbrev pub take_reception : Handling J → ReceptionReport → Handling J
  take_reception l r =
      if r.ssrc == l.track.ssrc
      then with_report l (update_from_receiver_report l.track.rtp_stats r (measured r) now)
      else l

  unfoldable pub take_reports : Handling J → List ReceptionReport → Handling J
  take_reports l [] = l
  take_reports l (r ∷ rs) = take_reports (take_reception l r) rs

  -- A round of the loop over the packets.
  unfoldable pub handle_packet : Handling J → Rtcp → Handling J
  handle_packet l picture_loss = send_pli_once (record l { num_plis = add32 l.num_plis 1 })
  handle_packet l full_intra_request = send_pli_once (record l { num_firs = add32 l.num_firs 1 })
  handle_packet l (remb bitrate) =
      if l.track.on_remb_feedback
      then record l { effects = l.effects ++ (remb_feedback bitrate ∷ []) }
      else l
  handle_packet l (receiver_report reports) = take_reports l reports
  handle_packet l (transport_nack pairs) = record l {
    num_nacks = add32 l.num_nacks (length (concat pairs) % 4294967296);
    effects = l.effects ++ (retransmit (concat pairs) ∷ []);
  }
  handle_packet l (transport_cc media_ssrc) =
      if media_ssrc == l.track.ssrc && l.track.on_transport_cc_feedback
      then record l { effects = l.effects ++ (transport_cc_feedback ∷ []) }
      else l
  handle_packet l other_rtcp = l

  unfoldable pub handle_packets : Handling J → List Rtcp → Handling J
  handle_packets l [] = l
  handle_packets l (pkt ∷ pkts) = handle_packets (handle_packet l pkt) pkts

  abbrev pub finish_handling : Handling J → Outcome J
  finish_handling l = record {
    track = record l.track {
      rtp_stats = update_fir (update_pli l.track.rtp_stats l.num_plis) l.num_firs;
      sequencer = report_rtt l.track.sequencer l.rtt_to_report;
    };
    effects = l.effects;
    success = true;
  }

  abbrev pub begin_handling : DownTrack J → Handling J
  begin_handling d = record {
    track = d;
    effects = [];
    pli_once = true;
    rtt_to_report = 0;
    num_nacks = 0;
    num_plis = 0;
    num_firs = 0;
  }

  -- `none` is an error of pion's `Unmarshal`.
  unfoldable pub handle_rtcp : DownTrack J → Option (List Rtcp) → Outcome J
  handle_rtcp d none = record { track = d; effects = []; success = true }
  handle_rtcp d (some pkts) = finish_handling (handle_packets (begin_handling d) pkts)
