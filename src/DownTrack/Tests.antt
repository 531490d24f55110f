-- ===== src/DownTrack/Tests.antt =====
-- Runs of a down track, and its theorems at concrete inputs, with a small pion that appends extensions.
use go_ortc.Base.{
  ℕ, ◌+◌, ◌≡◌, refl, subst, Bool, true, false, Option, none, some, List, [], ◌∷◌, ◌++◌, arith,
  if◌then◌else◌, ◌==◌, ltb,
}
use go_ortc.Base.Int.{pos}
use go_ortc.Rtp.{RtpHeader, RtpPacket, Pion, sdes_mid, transport_cc}
use go_ortc.RtpStats.Types.{Float64, ReceptionReport}
use go_ortc.Sequencer.{
  Sequencer, new_sequencer, push, get_slot, get_slot_started, start, advance, clear_slots, wrap,
  wrap_up, wrap_down, store,
}
use go_ortc.Sequencer.Valid.{new_sequencer-IsValid}
use go_ortc.DownTrack.Types.{DownTrack, video, ExtPacket}
use go_ortc.DownTrack.Forward.{
  set_one, set_all, prepare_rtp_header_for_forwarding, forward, write_rtp,
}
use go_ortc.DownTrack.Retransmit.{Read, bytes, eof, retransmit_packets}
use go_ortc.DownTrack.Feedback.{picture_loss, full_intra_request, transport_nack, handle_rtcp}
use go_ortc.DownTrack.Lifecycle.{new_down_track, mute}
use go_ortc.DownTrack.Numbers.{extras, SameNumbers, SetsExtensions}
use go_ortc.DownTrack.Sends.{config, Sends, SendsBy, RunSends, write_rtp-RunSends}
use go_ortc.DownTrack.Events.{muted, handle, handle_all}
use go_ortc.DownTrack.Resync.{Resumes, following, write_rtp-rewinds}
use go_ortc.DownTrack.Resend.{retransmit_packets-SendsBy}
use go_ortc.DownTrack.Requests.{pli_calls, retransmit_calls, handle_rtcp-asks_once}

instance whole : Float64 ℕ
whole = record {
  of_int32 = λ n. n;
  of_uint32 = λ n. n;
  add = λ a b. a + b;
  sub = λ a b. a;
  mul = λ a b. b;
  div = λ a b. a;
  ltb = ltb;
}

abbrev packet_of : (sn ts : ℕ) → List ℕ → RtpPacket
packet_of sn ts payload = record {
  header = record {
    payload_type = 96;
    ssrc = 7;
    sequence_number = sn;
    timestamp = ts;
    marker = true;
    extension = false;
    extension_profile = 0;
    extensions = [];
  };
  payload = payload;
  padding_size = 0;
}

abbrev parsed : List ℕ → Option RtpPacket
parsed [] = none
parsed (sn ∷ []) = none
parsed (sn ∷ ts ∷ payload) = some (packet_of sn ts payload)

abbrev small : Pion
small = record {
  get_extension = λ h id. [];
  set_extension = λ h id value.
      some (record h { extension = true; extensions = h.extensions ++ ((id, value) ∷ []) });
  marshal_size = λ h. 12;
  marshal_send_time = λ now. some (now ∷ []);
  marshal_transport_cc = λ sequence. some (sequence ∷ []);
  unmarshal_packet = parsed;
}

abbrev SameOf : RtpHeader → Option RtpHeader → Type 0
SameOf h none = Unit {0}
SameOf h (some h') = SameNumbers h h'

small-SetsExtensions : SetsExtensions small
small-SetsExtensions = record {
  keeps = λ h id value h' e. subst (SameOf h) e (record {
    payload_type = refl;
    ssrc = refl;
    sequence_number = refl;
    timestamp = refl;
    marker = refl;
  });
}

abbrev accepts : RtpHeader → List ℕ → Bool
accepts h payload = true

abbrev four : Sequencer
four = new_sequencer 4 0 0

-- A track that is bound to ssrc 9 and payload type 100, and has two header extensions.
abbrev track : DownTrack ℕ
track = record (new_down_track video 90000 (49 ∷ []) 4 0) {
  bound = true;
  enabled = true;
  sync_required = false;
  started = false;
  kind = video;
  sequencer = some four;
  mid = 49 ∷ [];
  ssrc = 9;
  payload_type = 100;
  sn_offset = 5;
  ts_offset = 1000;
  twcc_sn = 0;
  enabled_headers = record { uri = sdes_mid; id = 4 } ∷ record { uri = transport_cc; id = 5 } ∷ [];
}

abbrev ext_of : (sn ts : ℕ) → List ℕ → ExtPacket
ext_of sn ts payload = record { packet = packet_of sn ts payload; key_frame = true }

write_rtp-RunSends_example :
    RunSends small small-SetsExtensions accepts 0
      (config track)
      track
      (ext_of 10 4000 (1 ∷ []) ∷ ext_of 11 4000 (2 ∷ []) ∷ [])
write_rtp-RunSends_example =
    write_rtp-RunSends small small-SetsExtensions accepts 0 track
      (ext_of 10 4000 (1 ∷ []) ∷ ext_of 11 4000 (2 ∷ []) ∷ []) refl refl refl

first_push : (push four 10 5 3000 (pos 0)).1 ≡ some 0
unfolding new_sequencer push get_slot get_slot_started start advance clear_slots wrap wrap_up
    wrap_down store
first_push = refl

abbrev kept : ℕ → Read
kept sn = if sn == 10 then bytes (10 ∷ 4000 ∷ 1 ∷ []) else eof

retransmit_packets-SendsBy_example :
    SendsBy small accepts
      (config track)
      (packet_of 10 4000 (1 ∷ []))
      (retransmit_packets small accepts kept 9000000
        (forward small accepts 0 track (packet_of 10 4000 (1 ∷ []))).track
        (5 ∷ [])).effects
retransmit_packets-SendsBy_example =
    retransmit_packets-SendsBy small small-SetsExtensions track four (packet_of 10 4000 (1 ∷ [])) 0
      (10 ∷ 4000 ∷ 1 ∷ []) accepts accepts 0 9000000 kept refl
      (new_sequencer-IsValid 4 0 0 (omega arith)) first_push refl refl

handle_rtcp-asks_once_example :
    let effects =
      (handle_rtcp
        (λ (r : ReceptionReport). (0, false))
        0
        track
        (some (
          picture_loss
          ∷ transport_nack ((5 ∷ 6 ∷ []) ∷ (9 ∷ []) ∷ [])
          ∷ full_intra_request
          ∷ []))).effects in
    (pli_calls effects ≡ 1) × (retransmit_calls effects ≡ (5 ∷ 6 ∷ 9 ∷ []) ∷ [])
handle_rtcp-asks_once_example =
    handle_rtcp-asks_once (λ (r : ReceptionReport). (0, false)) 0 track
      (picture_loss ∷ transport_nack ((5 ∷ 6 ∷ []) ∷ (9 ∷ []) ∷ []) ∷ full_intra_request ∷ [])

abbrev muted_and_back : DownTrack ℕ
muted_and_back =
    handle_all small (muted true ∷ muted false ∷ [])
      (forward small accepts 0 track (packet_of 10 4000 (1 ∷ []))).track

resumes : Resumes muted_and_back (ext_of 500 90000 (3 ∷ []))
unfolding handle_all handle mute forward prepare_rtp_header_for_forwarding set_all set_one
resumes = record { bound = refl; enabled = refl; sync_required = refl; key_frame = refl }

-- Packet 500 is sent under 6, the number after that of the first packet.
write_rtp-rewinds_example :
    Sends small
      (extras muted_and_back)
      accepts
      (following muted_and_back (packet_of 500 90000 (3 ∷ [])).header 5 3000)
      (3 ∷ [])
      (write_rtp small accepts 7 muted_and_back (ext_of 500 90000 (3 ∷ []))).effects
write_rtp-rewinds_example =
    write_rtp-rewinds small small-SetsExtensions track (packet_of 10 4000 (1 ∷ [])) accepts 0
      (muted true ∷ muted false ∷ []) (ext_of 500 90000 (3 ∷ [])) accepts 7 refl (ground arith)
      resumes (omega arith) (omega arith)
