-- ===== src/DownTrack/Resend.antt =====
-- A packet that pkg/rtc/downtrack.go forwarded, and the peer asks for again.
use go_ortc.Base.{
  ℕ, ◌/◌, ◌%◌, ◌^◌, ◌<◌, ◌≡◌, refl, sym, ap, ◌∙◌, subst, Bool, true, false, ◌++◌, ltb, Option, none,
  some, List, [], ◌∷◌, if◌then◌else◌, if_both, arith, get_or, set, length, get_or-set_self,
}
use go_ortc.Base.Words.{add32, sub32}
use go_ortc.Base.Int.{pos}
use go_ortc.Sequencer.Nack.{SameMeta, mark-SameMeta, lookup-lt, get_packets_meta-fresh}
use go_ortc.Rtp.{RtpHeader, RtpPacket, Pion}
use go_ortc.RtpStats.Types.{Float64}
use go_ortc.Sequencer.{Sequencer, PacketMeta, zero_meta, new_meta, push, lookup, mark}
use go_ortc.Sequencer.Valid.{IsValid, push-IsValid}
use go_ortc.Sequencer.Lookup.{lookup-push}
use go_ortc.DownTrack.Types.{DownTrack, Effect, written, Outcome}
use go_ortc.DownTrack.Forward.{
  prepare_rtp_header_for_forwarding, push_to, note_first, write_prepared, forward,
}
use go_ortc.DownTrack.Retransmit.{
  Read, bytes, Resending, write_resent, resend_packet, acked, resend_loop, metas_at, retransmit_of,
  retransmit_packets,
}
use go_ortc.DownTrack.Numbers.{Extras, extras, numbered, SetsExtensions, Numbered, prepare-Numbered}
use go_ortc.DownTrack.Sends.{
  Config, config, renumbered, SendsBy, forward-config, Sends, unprepared, refused, sent,
}
use go_ortc.DownTrack.Resync.{sent_sn, sent_ts}

module _ {J : Type 0} ⦃f : Float64 J⦄ (p : Pion) (law : SetsExtensions p)
    (writes : RtpHeader → List ℕ → Bool) (read_rtp : ℕ → Read) (now : ℕ) where
  write_resent-Sends :
      (l : Resending J) (x : Extras) (base : RtpHeader) (payload : List ℕ) (d : DownTrack J)
      (o : Option RtpHeader)
      → l.effects ≡ []
      → Numbered p x base o
      → Sends p x writes base payload (write_resent p writes read_rtp now l (d, o) payload).effects
  write_resent-Sends l x base payload d none none_yet n =
      subst (Sends p x writes base payload) (sym none_yet) (unprepared n)
  write_resent-Sends l x base payload d (some h) none_yet n =
      if_both (λ (t : Resending J). Sends p x writes base payload t.effects) (writes h payload)
        (λ e.
          subst
            (λ (es : List Effect). Sends p x writes base payload (es ++ (written h payload ∷ [])))
            (sym none_yet) (sent n e))
        (λ e. subst (Sends p x writes base payload) (sym none_yet) (refused n e))

  resend_packet-Sends :
      (l : Resending J) (meta : PacketMeta) (pkt : RtpPacket)
      → l.effects ≡ []
      → Sends p
          (extras l.track)
          writes
          (numbered l.track pkt.header meta.timestamp meta.target_seq_no)
          pkt.payload
          (resend_packet p writes read_rtp now l meta (some pkt)).effects
  resend_packet-Sends l meta pkt none_yet =
      let prepared =
        prepare_rtp_header_for_forwarding p l.track pkt.header meta.timestamp meta.target_seq_no
          now in
      write_resent-Sends l (extras l.track) _ pkt.payload prepared.0 prepared.1 none_yet
        (prepare-Numbered p law l.track pkt.header meta.timestamp meta.target_seq_no now)

  -- The header under which a record has a packet sent.
  abbrev Resent : DownTrack J → PacketMeta → RtpPacket → List Effect → Type 0
  Resent d m pkt effects =
      Sends p (extras d) writes (numbered d pkt.header m.timestamp m.target_seq_no) pkt.payload
        effects

  Resent-same :
      (d : DownTrack J) (a b : PacketMeta) (pkt : RtpPacket) (effects : List Effect)
      → SameMeta a b
      → Resent d b pkt effects
      → Resent d a pkt effects
  Resent-same d a b pkt effects same =
      subst (λ (h : RtpHeader). Sends p (extras d) writes h pkt.payload effects)
        (λ i. numbered d pkt.header (same.timestamp i) (same.target_seq_no i))

  repeated-Resent :
      (l : Resending J) (meta : PacketMeta) (pkt : RtpPacket) (again : Bool)
      → l.effects ≡ []
      → Resent l.track meta pkt
          (resend_packet p writes read_rtp now
            (if again then record l { num_repeated_nacks = add32 l.num_repeated_nacks 1 } else l)
            meta
            (some pkt)).effects
  repeated-Resent l meta pkt true none_yet = resend_packet-Sends _ meta pkt none_yet
  repeated-Resent l meta pkt false none_yet = resend_packet-Sends l meta pkt none_yet

  resend_loop-one :
      (l : Resending J) (meta : PacketMeta) (b : List ℕ) (pkt : RtpPacket)
      → l.effects ≡ []
      → read_rtp meta.source_seq_no ≡ bytes b
      → p.unmarshal_packet b ≡ some pkt
      → Resent l.track meta pkt (resend_loop p writes read_rtp now l (meta ∷ [])).effects
  unfolding resend_loop
  resend_loop-one l meta b pkt none_yet reads parses =
      rw (reads, resend_loop, parses)
        (repeated-Resent (acked p writes read_rtp now l) meta pkt (ltb 1 meta.nacked) none_yet)

  -- A run of the method whose sequencer holds the record of the number.
  retransmit_of-Resent :
      (d : DownTrack J) (s : Sequencer) (sn k : ℕ) (b : List ℕ) (pkt : RtpPacket)
      → k < length s.metas
      → lookup s sn ≡ some k
      → (get_or s.metas k zero_meta).last_nack ≡ 0
      → read_rtp (get_or s.metas k zero_meta).source_seq_no ≡ bytes b
      → p.unmarshal_packet b ≡ some pkt
      → Resent d
          (get_or s.metas k zero_meta)
          pkt
          (retransmit_of p writes read_rtp now d (sn ∷ []) (some s)).effects
  unfolding retransmit_of
  retransmit_of-Resent d s sn k b pkt within found fresh reads parses =
      let m = get_or s.metas k zero_meta in
      let ms = now / 1000000 in
      let t = sub32 (ms % 2 ^ 32) (s.start_time % 2 ^ 32) in
      let same = mark-SameMeta t m in
      let begin : Sequencer → Resending J = λ u. record {
        track = record d { sequencer = some u };
        effects = [];
        nack_acks = 0;
        nack_misses = 0;
        num_repeated_nacks = 0;
      } in
      let s' = record s { metas = set s.metas k (mark t m) } in
      subst
        (λ (r : Sequencer × List ℕ).
          Resent d m pkt
            (resend_loop p writes read_rtp now (begin r.0) (metas_at r.0.metas r.1)).effects)
        (sym (get_packets_meta-fresh s ms sn k found fresh))
        (subst
          (λ (n : PacketMeta).
            Resent d m pkt (resend_loop p writes read_rtp now (begin s') (n ∷ [])).effects)
          (sym (get_or-set_self s.metas k (mark t m) zero_meta within))
          (Resent-same d m (mark t m) pkt _ same (
            resend_loop-one (begin s') (mark t m) b pkt refl
              (ap read_rtp same.source_seq_no ∙ reads) parses)))

module _ {J : Type 0} ⦃f : Float64 J⦄ (p : Pion) where
  write_prepared-sequencer :
      (writes : RtpHeader → List ℕ → Bool) (now : ℕ) (d : DownTrack J) (o : Option RtpHeader)
      (payload : List ℕ)
      → (write_prepared p writes now (d, o) payload).track.sequencer ≡ d.sequencer
  write_prepared-sequencer writes now d none payload = refl
  write_prepared-sequencer writes now d (some h) payload =
      if_both (λ (t : Outcome J). t.track.sequencer ≡ d.sequencer) (writes h payload) (λ _. refl)
        (λ _. refl)

  forward-sequencer :
      (writes : RtpHeader → List ℕ → Bool) (now : ℕ) (d : DownTrack J) (pkt : RtpPacket)
      → (forward p writes now d pkt).track.sequencer
        ≡ push_to d.sequencer pkt.header.sequence_number (sent_sn d pkt) (sent_ts d pkt)
  unfolding forward prepare_rtp_header_for_forwarding
  forward-sequencer writes now d pkt =
      let sn = sent_sn d pkt in
      let ts = sent_ts d pkt in
      let pushed = record d { sequencer = push_to d.sequencer pkt.header.sequence_number sn ts } in
      let prepared =
        prepare_rtp_header_for_forwarding p (note_first pushed sn ts) pkt.header ts sn now in
      write_prepared-sequencer writes now prepared.0 prepared.1 pkt.payload
      ∙ if_both (λ (t : DownTrack J). t.sequencer ≡ pushed.sequencer) d.started (λ _. refl)
          (λ _. refl)

  -- In the state right after a packet was forwarded, where the sequencer took a record of it and the
  -- producer's buffer still has it under its source number, a NACK for just the number that it was
  -- sent under has it written exactly once more, with its own payload and marker, and under exactly
  -- the number, timestamp, ssrc and payload type of the first time. It is left out only where the
  -- peer's stream refuses it now, or where one of the track's enabled extensions cannot be set
  -- in this packet's header after the ones before it: pion refuses its id and value, or it is a mid of
  -- more than 8 bytes.
  pub retransmit_packets-SendsBy :
      (law : SetsExtensions p) (d : DownTrack J) (s : Sequencer) (pkt : RtpPacket) (k : ℕ)
      (b : List ℕ) (writes writes' : RtpHeader → List ℕ → Bool) (now later : ℕ)
      (read_rtp : ℕ → Read)
      → d.sequencer ≡ some s
      → IsValid s
      → (push s pkt.header.sequence_number (sent_sn d pkt) (sent_ts d pkt) (pos 0)).1 ≡ some k
      → read_rtp pkt.header.sequence_number ≡ bytes b
      → p.unmarshal_packet b ≡ some pkt
      → SendsBy p writes'
          (config d)
          pkt
          (retransmit_packets p writes' read_rtp later
            (forward p writes now d pkt).track
            (sent_sn d pkt ∷ [])).effects
  retransmit_packets-SendsBy law d s pkt k b writes writes' now later read_rtp has v accepted reads
        parses =
      let sn = sent_sn d pkt in
      let ts = sent_ts d pkt in
      let h = pkt.header in
      let d' = (forward p writes now d pkt).track in
      let s' = (push s h.sequence_number sn ts (pos 0)).0 in
      let v' = push-IsValid s h.sequence_number sn ts (pos 0) (omega arith) v in
      let (found, is) = lookup-push s h.sequence_number sn ts (pos 0) k v (omega arith) accepted in
      let m : get_or s'.metas k zero_meta ≡ new_meta h.sequence_number sn ts (pos 0) = is in
      let base : Config → PacketMeta → RtpHeader = λ c n. record (renumbered c h) {
        timestamp = n.timestamp;
        sequence_number = n.target_seq_no;
      } in
      let same = forward-config p law writes now d pkt in
      let again =
        retransmit_of-Resent p law writes' read_rtp later d' s' sn k b pkt
          (lookup-lt s' sn k v' found) found (ap (λ (n : PacketMeta). n.last_nack) m)
          (ap (λ (n : PacketMeta). read_rtp n.source_seq_no) m ∙ reads) parses in
      let queue =
        forward-sequencer writes now d pkt
        ∙ ap (λ (o : Option Sequencer). push_to o h.sequence_number sn ts) has in
      subst
        (λ (o : Option Sequencer).
          SendsBy p writes' (config d) pkt
            (retransmit_of p writes' read_rtp later d' (sn ∷ []) o).effects)
        (sym queue)
        (subst
          (λ (c : Config).
            Sends p c.extras writes' (base c (new_meta h.sequence_number sn ts (pos 0))) pkt.payload
              (retransmit_of p writes' read_rtp later d' (sn ∷ []) (some s')).effects)
          same
          (subst
            (λ (n : PacketMeta).
              Sends p (extras d') writes' (base (config d') n) pkt.payload
                (retransmit_of p writes' read_rtp later d' (sn ∷ []) (some s')).effects)
            m again))
