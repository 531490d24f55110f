-- ===== src/RtpStats/Stopped.antt =====
-- The handlers of pkg/buffer/rtpstats.go that look at the end time, on a stopped stream.
use go_ortc.Base.{ℕ, ◌≡◌, refl, ap, ◌∙◌, Bool, List, [], ◌∷◌}
use go_ortc.RtpStats.Types.{RtpStats, Float64, Header, ReceptionReport}
use go_ortc.RtpStats.Update.{update}
use go_ortc.RtpStats.Counters.{
  stop, update_nack, update_nack_processed, update_pli_and_time, update_pli, update_pli_time,
  update_layer_lock_pli_and_time, update_fir, update_fir_time, update_key_frame, update_rtt,
  update_from_receiver_report,
}

-- A call of one of the handlers, with its arguments and the time.
pub data Event : Type 0 where
  packet : Header → (payload_size padding_size packet_time now : ℕ) → Event
  nack : (nack_count : ℕ) → Event
  nack_processed : (nack_ack_count nack_miss_count nack_repeated_count : ℕ) → Event
  pli_and_time : (pli_count now : ℕ) → Event
  pli : (pli_count : ℕ) → Event
  pli_time : (now : ℕ) → Event
  layer_lock_pli : (pli_count now : ℕ) → Event
  fir : (fir_count : ℕ) → Event
  fir_time : (now : ℕ) → Event
  key_frame : (kf_count now : ℕ) → Event
  round_trip : (rtt : ℕ) → Event
  receiver_report : ReceptionReport → (measured : ℕ × Bool) (now : ℕ) → Event

module _ {J : Type 0} ⦃f : Float64 J⦄ where
  unfoldable pub handle : Event → RtpStats J → RtpStats J
  handle (packet h payload padding time now) r = (update r h payload padding time now).0
  handle (nack n) r = update_nack r n
  handle (nack_processed acks misses repeated) r = update_nack_processed r acks misses repeated
  handle (pli_and_time n now) r = update_pli_and_time r n now
  handle (pli n) r = update_pli r n
  handle (pli_time now) r = update_pli_time r now
  handle (layer_lock_pli n now) r = update_layer_lock_pli_and_time r n now
  handle (fir n) r = update_fir r n
  handle (fir_time now) r = update_fir_time r now
  handle (key_frame n now) r = update_key_frame r n now
  handle (round_trip rtt) r = update_rtt r rtt
  handle (receiver_report rr measured now) r = (update_from_receiver_report r rr measured now).0

  unfoldable pub handle_all : List Event → RtpStats J → RtpStats J
  handle_all [] r = r
  handle_all (e ∷ es) r = handle_all es (handle e r)

  handle-stop : (e : Event) (r : RtpStats J) (now : ℕ) → handle e (stop r now) ≡ stop r now
  unfolding handle update update_nack update_nack_processed update_pli_and_time update_pli
      update_pli_time update_layer_lock_pli_and_time update_fir update_fir_time update_key_frame
      update_rtt update_from_receiver_report
  handle-stop (packet h payload padding time later) r now = refl
  handle-stop (nack n) r now = refl
  handle-stop (nack_processed acks misses repeated) r now = refl
  handle-stop (pli_and_time n later) r now = refl
  handle-stop (pli n) r now = refl
  handle-stop (pli_time later) r now = refl
  handle-stop (layer_lock_pli n later) r now = refl
  handle-stop (fir n) r now = refl
  handle-stop (fir_time later) r now = refl
  handle-stop (key_frame n later) r now = refl
  handle-stop (round_trip rtt) r now = refl
  handle-stop (receiver_report rr (rtt, ok) later) r now = refl

  -- After `Stop`, no sequence of packets, reports and counts changes the statistics.
  pub handle_all-stop :
      (es : List Event) (r : RtpStats J) (now : ℕ) → handle_all es (stop r now) ≡ stop r now
  unfolding handle_all
  handle_all-stop [] r now = refl
  handle_all-stop (e ∷ es) r now =
      ap (handle_all es) (handle-stop e r now) ∙ handle_all-stop es r now
