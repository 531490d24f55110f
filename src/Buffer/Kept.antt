-- ===== src/Buffer/Kept.antt =====
-- The steps of `calc` of pkg/buffer/buffer.go that leave the packets handed on as they are.
use go_ortc.Base.{
  ℕ, ◌+◌, ◌-◌, ◌*◌, ◌/◌, ◌≡◌, refl, ◌∙◌, Bool, true, false, ◌&&◌, ◌||◌, Option, Option-cases, inl,
  inr, none, some, List, [], ◌∷◌, ltb, ◌==◌, length, if◌then◌else◌, if_both,
}
use go_ortc.Base.Words.{sub32}
use go_ortc.Rtp.{RtpPacket, Pion}
use go_ortc.RtpStats.Types.{RtpStats, Float64, ReceptionReport}
use go_ortc.RtpStats.Reports.{ReportFloats}
use go_ortc.FrameRate.{Float32, Calculator, recv_packet}
use go_ortc.AudioLevel.{Float}
use go_ortc.Buffer.Types.{Library, StreamPacket, Buffer, Made}
use go_ortc.Buffer.Steps.{
  audio_extension, twcc_calls, and_then, update_stats, update_stream_state, observe_level,
  take_level, process_header_extensions, nack_pairs, do_nacks, report_calls, do_reports,
  report_delta,
}
use go_ortc.Buffer.Calc.{frame_of, with_rate, do_fps_calc}

-- A test of a computed value that may panic.
pub and_then_both :
    {A C : Type 0} (P : Option C → Type 0) (o : Option A) (k : A → Option C)
    → P none
    → ((a : A) → P (k a))
    → P (and_then o k)
and_then_both P none k n s = n
and_then_both P (some a) k n s = s a

-- What both branches have, on a value that may be absent.
pub option_both :
    {A C : Type 0} (P : C → Type 0) (o : Option A) {n : C} {s : A → C}
    → P n
    → ((a : A) → P (s a))
    → P (elim o [ none ↦ n | some a ↦ s a ])
option_both P none n s = n
option_both P (some a) n s = s a

module _ {J A F B N : Type 0} where
  -- The packets handed on are the given ones, if the call does not panic.
  abbrev pub Keeps : List StreamPacket → Option (Made J A F B N) → Type 0
  Keeps es none = Unit {0}
  Keeps es (some m) = m.0.ext_packets ≡ es

module _ {J A F B N : Type 0} ⦃f : Float64 J⦄ ⦃a : Float A⦄ ⦃g : Float32 F⦄ (p : Pion)
    (lib : Library B N) (floats : ReportFloats J F) (now : ℕ) where
  pub update_stream_state-Keeps :
      (pkt : RtpPacket) (arrival : ℕ) (m : Made J A F B N)
      → Keeps m.0.ext_packets (update_stream_state p lib floats now pkt arrival m)
  unfolding update_stream_state
  update_stream_state-Keeps pkt arrival (b, calls) =
      and_then_both (Keeps b.ext_packets) (update_stats p now b.rtp_stats pkt arrival) _ tt
        (λ r. refl)

  nack_pairs-packets :
      (m : Made J A F B N) (r : N × (List (ℕ × ℕ) × ℕ))
      → (nack_pairs p lib floats now m r).0.ext_packets ≡ m.0.ext_packets
  nack_pairs-packets (b, calls) (q, ([], n)) = refl
  nack_pairs-packets (b, calls) (q, (pair ∷ pairs, n)) = refl

  report_calls-packets :
      (m : Made J A F B N) (r : RtpStats J × Option ReceptionReport)
      → (report_calls p lib floats now m r).0.ext_packets ≡ m.0.ext_packets
  report_calls-packets (b, calls) (r, none) = refl
  report_calls-packets (b, calls) (r, some report) = refl

  pub do_nacks-packets :
      (m : Made J A F B N) → (do_nacks p lib floats now m).0.ext_packets ≡ m.0.ext_packets
  unfolding do_nacks
  do_nacks-packets (b, calls) = elim (Option-cases b.nacker) [
    | inl e ↦ rw (e, do_nacks) refl
    | inr (q, e) ↦ rw (e, do_nacks) (nack_pairs-packets (b, calls) (lib.pairs q now))
  ]

  pub do_reports-packets :
      (arrival : ℕ) (m : Made J A F B N)
      → (do_reports p lib floats now arrival m).0.ext_packets ≡ m.0.ext_packets
  unfolding do_reports
  do_reports-packets arrival (b, calls) =
      if_both (λ (t : Made J A F B N). t.0.ext_packets ≡ b.ext_packets)
        (ltb arrival (b.last_report + report_delta)) (λ _. refl)
        (λ _.
          option_both (λ (t : Made J A F B N). t.0.ext_packets ≡ b.ext_packets) b.rtp_stats refl
            (λ r. report_calls-packets (record b { last_report = arrival }, calls) _))

  observe_level-packets :
      (b : Buffer J A F B N) (timestamp level : ℕ)
      → (observe_level p lib floats now b timestamp level).ext_packets ≡ b.ext_packets
  observe_level-packets b timestamp level =
      if_both (λ (t : Buffer J A F B N). t.ext_packets ≡ b.ext_packets)
        (ltb (sub32 timestamp b.latest_ts_for_audio_level) 2147483648)
        (λ _.
          if_both (λ (t : Buffer J A F B N). t.ext_packets ≡ b.ext_packets)
            (ltb 0 ((timestamp - b.latest_ts_for_audio_level) * 1000 / b.clock_rate)) (λ _. refl)
            (λ _. refl))
        (λ _. refl)

  take_level-packets :
      (b : Buffer J A F B N) (timestamp : ℕ) (o : Option ℕ)
      → (take_level p lib floats now b timestamp o).ext_packets ≡ b.ext_packets
  take_level-packets b timestamp none = refl
  take_level-packets b timestamp (some level) = observe_level-packets b timestamp level

  -- The extension is read in a state that has begun, or not at all.
  begun_level-packets :
      (b c : Buffer J A F B N) (timestamp : ℕ) (absent empty : Bool) (o : Option ℕ)
      → c.ext_packets ≡ b.ext_packets
      → (if absent
          then b
          else if empty
          then c
          else take_level p lib floats now c timestamp o).ext_packets
        ≡ b.ext_packets
  begun_level-packets b c timestamp true empty o e = refl
  begun_level-packets b c timestamp false true o e = e
  begun_level-packets b c timestamp false false o e = take_level-packets c timestamp o ∙ e

  audio_extension-packets :
      (b : Buffer J A F B N) (pkt : RtpPacket)
      → (audio_extension p lib floats now b pkt).ext_packets ≡ b.ext_packets
  audio_extension-packets b pkt =
      begun_level-packets b _ pkt.header.timestamp (b.audio_level_ext == 0)
        (length (p.get_extension pkt.header b.audio_level_ext) == 0)
        (lib.unmarshal_audio_level (p.get_extension pkt.header b.audio_level_ext))
        (if_both (λ (t : Buffer J A F B N). t.ext_packets ≡ b.ext_packets)
          b.latest_ts_for_audio_level_initialized (λ _. refl) (λ _. refl))

  pub process_header_extensions-Keeps :
      (pkt : RtpPacket) (arrival : ℕ) (m : Made J A F B N)
      → Keeps m.0.ext_packets (process_header_extensions p lib floats now pkt arrival m)
  unfolding process_header_extensions
  process_header_extensions-Keeps pkt arrival (b, calls) =
      and_then_both (Keeps b.ext_packets) (twcc_calls p lib floats now b pkt arrival) _ tt
        (λ more. audio_extension-packets b pkt)

  with_rate-packets :
      (m : Made J A F B N) (r : Calculator F × Bool)
      → (with_rate p lib floats now m r).0.ext_packets ≡ m.0.ext_packets
  with_rate-packets (b, calls) (c, received) =
      if_both (λ (t : Made J A F B N). t.0.ext_packets ≡ b.ext_packets) (received && c.completed)
        (λ _. refl) (λ _. refl)

  pub do_fps_calc-Keeps :
      (ep : StreamPacket) (m : Made J A F B N)
      → Keeps m.0.ext_packets (do_fps_calc p lib floats now ep m)
  unfolding do_fps_calc
  do_fps_calc-Keeps ep (b, calls) =
      if_both (Keeps b.ext_packets)
        (b.paused || (b.frame_rate_calculated || length ep.packet.payload == 0)) (λ _. refl)
        (λ _. option_both (Keeps b.ext_packets) b.frame_rate_calculator refl (λ c.
          and_then_both (Keeps b.ext_packets) (recv_packet c (frame_of ep)) _ tt
            (λ r. with_rate-packets (b, calls) r)))
