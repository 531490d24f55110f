-- ===== src/Transport/Produce.antt =====
-- `Produce` of pkg/rtc/webrtc_transport.go, with `AddProducer` of pkg/rtc/router.go.
use go_ortc.Base.{
  ℕ, Bool, true, not, ◌||◌, Option, none, some, [], ◌∷◌, ◌++◌, length, if◌then◌else◌,
}
use go_ortc.Codecs.{CodecParameters}
use go_ortc.DownTrack.Types.{CodecType}
use go_ortc.Router.{Map, Router, insert_in, add_producer}
use go_ortc.Producer.{Producer, new_producer}
use go_ortc.Transport.Types.{Store, Transport, rtp_producer_id, get_next_id, Made, failed}

-- What pion answers: whether the media engine is set up, the receiver made and started; the remote
-- track's kind and codec; and whether the factory has both buffers of its ssrc.
pub record ProduceAnswers : Type 0 where
  pub engine : Bool
  pub receiver : Bool
  pub receive : Bool
  pub kind : CodecType
  pub codec : CodecParameters
  pub buffers : Bool

-- What `AddProducer` leaves of the producer.
abbrev pub attached : Producer → Producer
attached producer = record producer {
  has_buffer = true;
  on_rtp_packet_handler = true;
  on_rtcp_packet = true;
}

module _ {J : Type 0} where
  abbrev pub keep_producer : Store J → Transport → Router → Producer → Option (Map ℕ) → Made J
  keep_producer s t r producer none = none
  keep_producer s t r producer (some producers) = some (
    (
      record s { router = r; producers = s.producers ++ (attached producer ∷ []) },
      record t { producers = producers },
    ),
    some (length s.producers),
  )

  abbrev pub added_producer : Store J → Transport → Producer → Option Router → Made J
  added_producer s t producer none = none
  added_producer s t producer (some r) =
      keep_producer s t r producer (insert_in t.producers producer.id (length s.producers))

  abbrev pub produce_as : Store J → ProduceAnswers → Option (Transport × ℕ) → Made J
  produce_as s answers none = none
  produce_as s answers (some (t, id)) =
      if not answers.buffers
      then failed s t
      else added_producer s t (new_producer id answers.kind answers.codec)
          (add_producer s.router id (length s.producers))

  unfoldable pub produce : Store J → Transport → ProduceAnswers → Made J
  produce s t answers =
      if not answers.engine || (not answers.receiver || not answers.receive)
      then failed s t
      else produce_as s answers (get_next_id (record t { has_twcc = true }) rtp_producer_id)
