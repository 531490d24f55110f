-- ===== src/Lib.antt =====
-- go-ortc is an ORTC-style selective forwarding unit in Go. A router takes RTP packets of producers
-- and forwards them to consumers. Each incoming stream has a receive buffer (pkg/buffer) that parses
-- packets, keeps statistics of the stream and detects key frames; each outgoing stream has a down
-- track (pkg/rtc/downtrack.go) that rewrites packets and answers requests for retransmission out of a
-- sequencer (pkg/rtc/sequencer.go).
--
-- Files and the code they are about:
-- Sequencer: pkg/rtc/sequencer.go. The slots of the ring hold indices of records where the code
--   holds pointers into the slice of records, so a change of a record is seen through each slot.
--   `push`, `push_padding`, `get_slot`, `get_packets_meta` are the methods of these names. The mutex
--   makes each method one step. Time in ms is an argument. Sequencer/Pack has `packVP8`, `unpackVP8`;
--   Sequencer/Nack, Answers and Marks are about `get_packets_meta`.
-- Vp8: `Unmarshal` and `MarshalTo` of pkg/buffer/helpers.go, in a monad of errors, which carry the
--   receiver as far as the code has filled it, and of panics.
-- KeyFrame: `IsH264Keyframe` and `IsAV1Keyframe` of pkg/buffer/helpers.go, with Go's signed
--   integers where the code relies on them.
-- RtpStats: pkg/buffer/rtpstats.go. RtpStats/Types is the state, Ring the ring of packet sizes,
--   Update the handler of a packet, Counters the handlers of feedback, Snapshots the intervals,
--   Reports the reception report.
-- FrameRate: pkg/buffer/fps.go. The pointers to frames are the frames, since none is changed after it
--   is stored. A panic is `none`; the arrays are lists, and each index that Go tests when the code
--   runs is tested when it is read or written, with a panic out of range.
-- AudioLevel: pkg/audio/audiolevel.go, with frames of a level and a duration in ms.
-- Buffer: pkg/buffer/buffer.go. Buffer/Types is the state and the calls that leave it, Steps and Calc
--   are `calc`, Methods has `Bind` and `Write`, Reads has `Read`, `ReadExtended`, `SendPLI`, `Close`. It
--   uses RtpStats, Vp8, KeyFrame, FrameRate and AudioLevel. The bucket of packets and the queue of NACKs
--   of mediatransportutil are a parameter, and so is what stands in memory behind an extension of a
--   packet; `none` is a panic. A loop that sleeps is one pass.
-- Rtp: the types of pion's rtp that the sources read, and the functions of pion that they call, as a
--   record of functions.
-- Codecs: `codecParametersFuzzySearch` of pkg/rtc/utils.go. Texts are lists of bytes. Of
--   `strings.EqualFold`, what it does on ASCII texts is modelled, as mime types are.
-- DownTrack: pkg/rtc/downtrack.go. DownTrack/Types is the state and the calls that leave it (packets to
--   the peer, requests to the producer, handlers), Forward is `WriteRTP`, Retransmit is
--   `retransmitPackets`, Feedback is `handleRTCP`, Lifecycle has `Bind`, `Unbind`, `Mute`, `Close` and
--   `NewDownTrack`. A retransmission that `handleRTCP` starts with `go` is a call that leaves it, and
--   runs as a step of its own. It uses Sequencer, RtpStats and Codecs.
-- Consumer, Producer: pkg/rtc/consumer.go and pkg/rtc/producer.go. A consumer owns a down track. The
--   worker of a producer is a function of what happens in its rounds.
-- Router: pkg/rtc/router.go. A map is an association list, or `none` for a nil map; a pointer is an
--   index into the list of all consumers or producers. `on_rtp_packet` is the handler that each
--   producer calls.
-- Transport: pkg/rtc/webrtc_transport.go, with `newConsumer` and `AddProducer` as `Consume` and
--   `Produce` call them. What pion answers in a call is an argument; `none` is a panic. The calls of `Stop`
--   on the connections are kept in the state, not what they do inside pion.
-- Base: the names, lists, machine words and bit operations that the others share.
--
-- Machine words are native naturals with the wrap written out. Loops of the code run on fuel or on a
-- count of rounds: `wrap` of the sequencer has as many rounds as its argument is large, the loop over
-- the units of H264 as many as there are bytes, since each round moves ahead by three at least, the
-- loop over AV1 units four, since the count of units is two bits, and the loops over sequence numbers
-- as many as the distance of their ends. A run that is out of fuel is a result of its own where the
-- theorem on termination does not follow from the type.
--
-- float64, float32 and their operations are parameters with no laws. Times are naturals, with `none`
-- for Go's zero time. Logging is left out, as are the parts of pkg/buffer/rtpstats.go that print and that make
-- sender reports, the workers of a consumer that read and write RTCP, data channels,
-- the parts of a transport that only call pion, and the example server in cmd. Each method runs as one
-- step; goroutines that run at the same time are not interleaved within a method.
pub mod AudioLevel
pub mod Base
pub mod Buffer
pub mod Codecs
pub mod Consumer
pub mod DownTrack
pub mod FrameRate
pub mod KeyFrame
pub mod Producer
pub mod Router
pub mod Rtp
pub mod RtpStats
pub mod Sequencer
pub mod Transport
pub mod Vp8
