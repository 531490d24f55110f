-- ===== src/FrameRate/Tests.antt =====
-- Runs of the frame rate calculator, and its theorems at concrete inputs. Natural numbers stand for
-- the float32 values.
use go_ortc.Base.{ℕ, zero, suc, ◌+◌, ◌*◌, ◌/◌, ◌≡◌, refl, Option, some, none, List, [], ◌∷◌, ltb}
use go_ortc.Base.Int.{pos}
use go_ortc.FrameRate.{
  Float32, Packet, Calculator, new_calculator, recv_packet, recv_after, recv_frame, place_second,
  calc, calc_loop, calc_layer, by_frames, count_between, count_frames, with_count, finish, reset,
  read_entry, write_entry, recv_new, recv_stored,
}
use go_ortc.FrameRate.Calc.{IsValid, Returns}
use go_ortc.FrameRate.Safe.{recv_packet-Safe, new_calculator-IsValid, recv_all}

instance whole : Float32 ℕ
whole = record { of_uint = λ n. n; mul = λ a b. a * b; div = λ a b. a / b; ltb = ltb }

-- A packet of a frame, 3000 ticks after the frame before it.
abbrev packet : ℕ → Packet
packet fn = record {
  sequence_number = fn;
  timestamp = 3000 * fn;
  temporal = pos 0;
  picture_id = some fn;
}

abbrev packets_from : (count fn : ℕ) → List Packet
packets_from zero fn = []
packets_from (suc count) fn = packet fn ∷ packets_from count (fn + 1)

abbrev rates : Option (Calculator ℕ) → List ℕ
rates none = []
rates (some c) = c.frame_rates

-- Nine frames of the lowest layer.
run_nine : rates (recv_all (new_calculator 90000) (packets_from 9 100)) ≡ 24 ∷ 0 ∷ 0 ∷ 0 ∷ []
unfolding recv_all new_calculator recv_packet recv_after recv_frame place_second calc calc_loop
    calc_layer by_frames count_between count_frames with_count finish reset whole read_entry
    write_entry recv_new recv_stored
run_nine = refl

recv_packet-Safe_example :
    Returns (λ q. IsValid q.0) (recv_packet (new_calculator {F = ℕ} 90000) (packet 100))
recv_packet-Safe_example =
    recv_packet-Safe (new_calculator {F = ℕ} 90000) (packet 100) (new_calculator-IsValid ℕ 90000)
