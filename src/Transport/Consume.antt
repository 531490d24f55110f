-- ===== src/Transport/Consume.antt =====
-- `Consume` of pkg/rtc/webrtc_transport.go, with `newConsumer` of pkg/rtc/consumer.go.
use go_ortc.Base.{
  ℕ, zero, suc, ◌+◌, ◌/◌, ◌%◌, Bool, true, false, not, ◌&&◌, Option, none, some, List, [], ◌∷◌,
  ◌++◌, ltb, length, if◌then◌else◌, find_in, get_elem?,
}
use go_ortc.RtpStats.Types.{Float64}
use go_ortc.DownTrack.Types.{DownTrack, Outcome}
use go_ortc.DownTrack.Lifecycle.{TrackLocalContext, kind_of, new_down_track, bind}
use go_ortc.Router.{Map, Router, insert_in, add_consumer}
use go_ortc.Consumer.{Consumer}
use go_ortc.Producer.{Producer}
use go_ortc.Transport.Types.{Store, Transport, mid_id, rtp_consumer_id, get_next_id, Made, failed}

-- What pion answers: whether the media engine is set up, the estimator made and the sender made, and
-- the context with which `Send` binds the track, `none` if it fails before that.
pub record ConsumeAnswers : Type 0 where
  pub engine : Bool
  pub estimator : Bool
  pub sender : Bool
  pub context : Option TrackLocalContext

-- `strconv.Itoa`, for numbers of at most `fuel` digits; 20 are enough for 64 bits.
abbrev pub itoa : (fuel n : ℕ) → List ℕ
itoa zero n = []
itoa (suc fuel) n =
    let front = itoa fuel (n / 10) in
    if ltb n 10 then (48 + n) ∷ [] else front ++ ((48 + n % 10) ∷ [])

abbrev pub at_pointer : List Producer → Option ℕ → Option Producer
at_pointer heap none = none
at_pointer heap (some ptr) = get_elem? heap ptr

module _ {J : Type 0} where
  -- The last lines of `newConsumer`, and the line of `Consume` that sets the close handler.
  abbrev pub consumer_of : Producer → (id : ℕ) → (paused : Bool) → DownTrack J → Consumer J
  consumer_of producer id paused d = record {
    id = id;
    producer_id = producer.id;
    closed = false;
    paused = paused;
    kind = producer.kind;
    available_bitrate = 0;
    track = record d { on_remb_feedback = true; on_close_handler = true };
    on_rtp_packet_handler = false;
  }

  -- The transport's own entry.
  abbrev pub keep_consumer :
      Store J
      → Transport
      → Router
      → Consumer J
      → (id : ℕ) → (success : Bool) → Option (Map ℕ)
      → Made J
  keep_consumer s t r c id success none = none
  keep_consumer s t r c id success (some consumers) = some (
    (
      record s { router = r; consumers = s.consumers ++ (c ∷ []) },
      record t { consumers = consumers },
    ),
    if success then some (length s.consumers) else none,
  )

  abbrev pub added_consumer :
      Store J → Transport → Consumer J → (id : ℕ) → Option (Router × Bool) → Made J
  added_consumer s t c id none = none
  added_consumer s t c id (some (r, success)) =
      keep_consumer s t r c id success (insert_in t.consumers id (length s.consumers))

  abbrev pub finish_consume :
      Store J → Transport → Producer → (id : ℕ) → (paused : Bool) → Outcome J → Made J
  finish_consume s t producer id paused o =
      if o.success
      then added_consumer s t (consumer_of producer id paused o.track) id
          (add_consumer s.router id producer.id (length s.consumers))
      else failed s t

module _ {J : Type 0} ⦃f : Float64 J⦄ (answers : ConsumeAnswers) (now : ℕ) where
  abbrev pub send :
      Store J
      → Transport
      → Producer
      → (id : ℕ) → (paused : Bool) → DownTrack J
      → Option TrackLocalContext
      → Made J
  send s t producer id paused d none = failed s t
  send s t producer id paused d (some context) =
      finish_consume s t producer id paused (bind d producer.codec context (now / 1000000))

  abbrev pub new_consumer :
      Store J → Producer → (paused : Bool) → DownTrack J → Option (Transport × ℕ) → Made J
  new_consumer s producer paused d none = none
  new_consumer s producer paused d (some (t, id)) =
      if not answers.sender then failed s t else send s t producer id paused d answers.context

  abbrev pub track_for : Producer → (mid : ℕ) → DownTrack J
  track_for producer mid =
      record (new_down_track (kind_of producer.codec.mime_type) producer.codec.clock_rate
        (itoa 20 mid) 500 now) { on_transport_cc_feedback = true }

  abbrev pub with_track : Store J → Producer → (paused : Bool) → Option (Transport × ℕ) → Made J
  with_track s producer paused none = none
  with_track s producer paused (some (t, mid)) =
      new_consumer s producer paused (track_for producer mid) (get_next_id t rtp_consumer_id)

  -- A pointer of the router's map always leads to a producer.
  abbrev pub consume_of : Store J → Transport → (paused : Bool) → Option Producer → Made J
  consume_of s t paused none = failed s t
  consume_of s t paused (some producer) =
      if not answers.engine
      then failed s t
      else if not t.has_bwe && not answers.estimator
      then failed s t
      else with_track s producer paused (get_next_id (record t { has_bwe = true }) mid_id)

  unfoldable pub consume : Store J → Transport → (producer_id : ℕ) → (paused : Bool) → Made J
  consume s t producer_id paused =
      consume_of s t paused (at_pointer s.producers (find_in s.router.producers producer_id))
