-- ===== src/Transport/Tests.antt =====
-- Runs of two transports of a router, and their theorems at concrete inputs.
use go_ortc.Base.{
  ℕ, ◌+◌, ◌≡◌, refl, Bool, true, false, none, some, List, [], ◌∷◌, ltb, arith, find_in,
}
use go_ortc.Rtp.{RtpHeader, Pion}
use go_ortc.RtpStats.Types.{Float64}
use go_ortc.Codecs.{CodecParameters, text_eq, find_first, codec_parameters_fuzzy_search}
use go_ortc.DownTrack.Types.{video, ExtPacket}
use go_ortc.DownTrack.Lifecycle.{bind_codec, bind, kind_of}
use go_ortc.Router.{new_router, add_producer, add_consumer, on_rtp_packet}
use go_ortc.Router.Forward.{Resolves, nothing, leads, Skipped, Delivered, on_rtp_packet-Delivered}
use go_ortc.Producer.{new_producer}
use go_ortc.Transport.Types.{Store, Transport, new_webrtc_transport, Made}
use go_ortc.Transport.Consume.{ConsumeAnswers, consume}
use go_ortc.Transport.Close.{close_router}
use go_ortc.Transport.Clash.{InHeap, consume-Skipped}
use go_ortc.Transport.Produce.{produce}
use go_ortc.Transport.Orphans.{produce-Orphans}
use go_ortc.Transport.Served.{consume-Delivered}
use go_ortc.Transport.Closed.{close_router-silent}

instance whole : Float64 ℕ
whole = record {
  of_int32 = λ n. n;
  of_uint32 = λ n. n;
  add = λ a b. a + b;
  sub = λ a b. a;
  mul = λ a b. b;
  div = λ a b. a;
  ltb = ltb;
}

-- A pion that takes every extension.
abbrev small : Pion
small = record {
  get_extension = λ h id. [];
  set_extension = λ h id value. some (record h { extension = true });
  marshal_size = λ h. 12;
  marshal_send_time = λ now. none;
  marshal_transport_cc = λ sequence. none;
  unmarshal_packet = λ b. none;
}

abbrev takes : ℕ → RtpHeader → List ℕ → Bool
takes ptr h payload = true

-- `video/VP8`
abbrev vp8 : CodecParameters
vp8 = record {
  mime_type = 118 ∷ 105 ∷ 100 ∷ 101 ∷ 111 ∷ 47 ∷ 86 ∷ 80 ∷ 56 ∷ [];
  clock_rate = 90000;
  sdp_fmtp_line = [];
  payload_type = 96;
}

abbrev ext : ExtPacket
ext = record {
  packet = record {
    header = record {
      payload_type = 96;
      ssrc = 7;
      sequence_number = 10;
      timestamp = 4000;
      marker = true;
      extension = false;
      extension_profile = 0;
      extensions = [];
    };
    payload = 1 ∷ [];
    padding_size = 0;
  };
  key_frame = true;
}

-- One producer, of another transport.
abbrev one_producer : Store ℕ
one_producer = record {
  router = record new_router {
    producers = some ((1, 0) ∷ []);
    producer_id_to_consumer_ids_map = some ((1, []) ∷ []);
  };
  producers = new_producer 1 video vp8 ∷ [];
  consumers = [];
}

one_producer-InHeap : InHeap one_producer
one_producer-InHeap id ptr e = ground arith

abbrev answers : ConsumeAnswers
answers = record {
  engine = true;
  estimator = true;
  sender = true;
  context =
      some (record {
        ssrc = 9;
        codec_parameters = vp8 ∷ [];
        header_extensions = [];
        has_reader = true;
      });
}

abbrev store_of : Made ℕ → Store ℕ
store_of none = one_producer
store_of (some ((s, t), o)) = s

abbrev transport_of : Made ℕ → Transport
transport_of none = new_webrtc_transport 0
transport_of (some ((s, t), o)) = t

abbrev first : Made ℕ
first = consume answers 0 one_producer (new_webrtc_transport 1) 1 false

abbrev second : Made ℕ
second = consume answers 0 (store_of first) (new_webrtc_transport 2) 1 false

first_made : first ≡ some ((store_of first, transport_of first), some 0)
unfolding consume kind_of bind bind_codec codec_parameters_fuzzy_search find_first text_eq
    add_consumer
first_made = refl

second_made : second ≡ some ((store_of second, transport_of second), some 1)
unfolding consume kind_of bind bind_codec codec_parameters_fuzzy_search find_first text_eq
    add_consumer
second_made = refl

consume-Skipped_example :
    Skipped small takes 5 ext 0
      (store_of second).consumers
      (on_rtp_packet small takes 5 (store_of second).router 1 ext (store_of second).consumers)
consume-Skipped_example =
    consume-Skipped one_producer (store_of first) (store_of second) (new_webrtc_transport 1)
      (transport_of first) (new_webrtc_transport 2) (transport_of second) answers answers 0 0 1 1
      false false 0 1 one_producer-InHeap refl first_made second_made small takes 5 ext 1

-- The list of the producer has the id twice, so the second consumer gets each packet twice.
second_lists :
    (store_of second).router.producer_id_to_consumer_ids_map ≡ some ((1, 1 ∷ 1 ∷ []) ∷ [])
unfolding consume kind_of bind bind_codec codec_parameters_fuzzy_search find_first text_eq
    add_consumer
second_lists = refl

consume-Delivered_example :
    Delivered small takes 5 ext
      (0 ∷ [])
      (store_of first).consumers
      (on_rtp_packet small takes 5 (store_of first).router 1 ext (store_of first).consumers)
consume-Delivered_example =
    consume-Delivered small takes 5 ext one_producer (store_of first) (new_webrtc_transport 1)
      (transport_of first) answers 0 1 false (new_producer 1 video vp8) 0 [] [] one_producer-InHeap
      refl refl refl nothing tt (λ id e. refl) first_made

first_lists : find_in (store_of first).router.producer_id_to_consumer_ids_map 1 ≡ some (1 ∷ [])
unfolding consume kind_of bind bind_codec codec_parameters_fuzzy_search find_first text_eq
    add_consumer
first_lists = refl

first-Resolves : Resolves (store_of first).router.consumers (1 ∷ []) (0 ∷ [])
unfolding consume kind_of bind bind_codec codec_parameters_fuzzy_search find_first text_eq
    add_consumer
first-Resolves = leads refl nothing

on_rtp_packet-Delivered_example :
    Delivered small takes 5 ext
      (0 ∷ [])
      (store_of first).consumers
      (on_rtp_packet small takes 5 (store_of first).router 1 ext (store_of first).consumers)
on_rtp_packet-Delivered_example =
    on_rtp_packet-Delivered small takes 5 ext (store_of first).router 1 (1 ∷ []) (0 ∷ [])
      (store_of first).consumers first_lists first-Resolves (tt, tt)

close_router-silent_example :
    let (s', ts') = close_router one_producer (new_webrtc_transport 1 ∷ []) in
    (on_rtp_packet small takes 5 s'.router 1 ext one_producer.consumers
      ≡ (one_producer.consumers, []))
    × (close_router s' ts' ≡ (s', ts'))
close_router-silent_example =
    close_router-silent small takes 5 ext one_producer (new_webrtc_transport 1 ∷ []) 1
      one_producer.consumers refl

-- The first transport's producer 1 has a consumer; the second transport makes its own producer 1.
abbrev third : Made ℕ
third = produce (store_of first) (new_webrtc_transport 3) (record {
  engine = true;
  receiver = true;
  receive = true;
  kind = video;
  codec = vp8;
  buffers = true;
})

third_made : third ≡ some ((store_of third, transport_of third), some 1)
unfolding consume kind_of bind bind_codec codec_parameters_fuzzy_search find_first text_eq
    add_consumer produce add_producer
third_made = refl

produce-Orphans_example :
    on_rtp_packet small takes 5 (store_of third).router 1 ext (store_of third).consumers
    ≡ ((store_of third).consumers, [])
produce-Orphans_example =
    produce-Orphans (store_of first) (store_of third) (new_webrtc_transport 3) (transport_of third)
      (record {
        engine = true;
        receiver = true;
        receive = true;
        kind = video;
        codec = vp8;
        buffers = true;
      })
      1 1 third_made refl small takes 5 ext
