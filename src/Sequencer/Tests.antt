-- ===== src/Sequencer/Tests.antt =====
-- Runs of the sequencer, and its theorems at concrete inputs.
use go_ortc.Base.{◌<◌, ◌≡◌, refl, none, some, [], ◌∷◌, true, arith, All, get_or}
use go_ortc.Base.Int.{pos, negsuc}
use go_ortc.Sequencer.{
  Sequencer, zero_meta, new_sequencer, wrap, wrap_up, wrap_down, clear_slots, start, advance,
  get_slot_started, get_slot, new_meta, store, push, push_padding, lookup, due, mark, nack_one,
  get_packets_meta,
}
use go_ortc.Sequencer.Wrap.{Congruent, wrap_remainder}
use go_ortc.Sequencer.Valid.{IsValid, new_sequencer-IsValid, push-IsValid, push_padding-IsValid}
use go_ortc.Sequencer.Marks.{Marks, get_packets_meta-Marks}
use go_ortc.Sequencer.Lookup.{lookup-push}
use go_ortc.Sequencer.Keep.{push-keeps-lookup}
use go_ortc.Sequencer.Nack.{nack_again}
use go_ortc.Sequencer.Answers.{Answers, get_packets_meta-Answers}
use go_ortc.Vp8.{Vp8}
use go_ortc.Sequencer.Pack.{pack_vp8, unpack_vp8, Fits}
use go_ortc.Sequencer.Pack.Trip.{unpack_vp8-pack_vp8}

abbrev descriptor : Vp8
descriptor = record {
  first_byte = 0x90;
  picture_id_present = 1;
  picture_id = 17000;
  m_bit = true;
  tl0_picidx_present = 1;
  tl0_picidx = 200;
  tid_present = 1;
  tid = 2;
  y = 1;
  keyidx_present = 1;
  keyidx = 21;
  header_size = 6;
  is_key_frame = true;
}

descriptor-Fits : Fits descriptor
descriptor-Fits = record {
  first_byte = omega arith;
  picture_id_present = omega arith;
  picture_id = omega arith;
  tl0_picidx_present = omega arith;
  tl0_picidx = omega arith;
  tid_present = omega arith;
  tid = omega arith;
  y = omega arith;
  keyidx_present = omega arith;
  keyidx = omega arith;
  header_size = omega arith;
}

unpack_vp8-pack_vp8_example : unpack_vp8 (pack_vp8 zero_meta descriptor) ≡ descriptor
unpack_vp8-pack_vp8_example = unpack_vp8-pack_vp8 zero_meta descriptor descriptor-Fits

-- Three records and two slots of padding; packets 65534 and 65535 are in, and 0 is next.
abbrev running : Sequencer
running = record {
  init = true;
  max = 5;
  seq = some 0 ∷ some 1 ∷ none ∷ none ∷ none ∷ [];
  metas = new_meta 10 65534 900 (pos 0) ∷ new_meta 11 65535 910 (pos 0) ∷ zero_meta ∷ [];
  meta_write_ptr = 2;
  step = 2;
  head_sn = 65535;
  start_time = 0;
  rtt = 70;
}

running-IsValid : IsValid running
running-IsValid = omega arith

run_push : (push running 14 2 940 (pos 0)).1 ≡ some 2
unfolding push get_slot get_slot_started start advance store clear_slots wrap wrap_up wrap_down
run_push = refl

run_lookup : lookup running 65534 ≡ some 0
unfolding lookup wrap wrap_up wrap_down
run_lookup = refl

run_nack : (nack_one running 500 65534).1 ≡ some 0
unfolding nack_one lookup due mark wrap wrap_up wrap_down
run_nack = refl

wrap_remainder_example : (wrap 5 (negsuc 6) < 5) × Congruent 5 (negsuc 6) (wrap 5 (negsuc 6))
wrap_remainder_example = wrap_remainder 5 (negsuc 6) (omega arith)

new_sequencer-IsValid_example : IsValid (new_sequencer 3 2 0)
new_sequencer-IsValid_example = new_sequencer-IsValid 3 2 0 (omega arith)

push-IsValid_example : IsValid (push running 14 2 940 (pos 0)).0
push-IsValid_example = push-IsValid running 14 2 940 (pos 0) (omega arith) running-IsValid

push_padding-IsValid_example : IsValid (push_padding running 2)
push_padding-IsValid_example = push_padding-IsValid running 2 (omega arith) running-IsValid

get_packets_meta-Marks_example :
    Marks running 500
      (get_packets_meta running 500 (65534 ∷ 65535 ∷ [])).0
      (get_packets_meta running 500 (65534 ∷ 65535 ∷ [])).1
get_packets_meta-Marks_example =
    get_packets_meta-Marks running 500 (65534 ∷ 65535 ∷ []) running-IsValid

lookup-push_example :
    (lookup (push running 14 2 940 (pos 0)).0 2 ≡ some 2)
    × (get_or (push running 14 2 940 (pos 0)).0.metas 2 zero_meta ≡ new_meta 14 2 940 (pos 0))
lookup-push_example = lookup-push running 14 2 940 (pos 0) 2 running-IsValid (omega arith) run_push

push-keeps-lookup_example :
    (lookup (push running 14 2 940 (pos 0)).0 65534 ≡ some 0)
    × (get_or (push running 14 2 940 (pos 0)).0.metas 0 zero_meta ≡ new_meta 10 65534 900 (pos 0))
unfolding push get_slot get_slot_started start advance store clear_slots wrap wrap_up wrap_down
push-keeps-lookup_example =
    push-keeps-lookup running 14 2 940 (pos 0) 65534 0 running-IsValid refl (omega arith)
      (omega arith) (omega arith) run_lookup (omega arith)
      (record { recent = omega arith; held = omega arith })

nack_again_example : (nack_one (nack_one running 500 65534).0 550 65534).1 ≡ none
nack_again_example = nack_again running 500 550 65534 0 running-IsValid (omega arith) run_nack

get_packets_meta-Answers_example :
    All (Answers running (65534 ∷ 65535 ∷ [])) (get_packets_meta running 500 (65534 ∷ 65535 ∷ [])).1
get_packets_meta-Answers_example = get_packets_meta-Answers running 500 (65534 ∷ 65535 ∷ [])
