-- ===== src/Vp8/Tests.antt =====
-- Runs of the VP8 descriptor's parser, and its theorems at concrete inputs.
use go_ortc.Base.{ℕ, ◌≤◌, ◌≡◌, refl, arith, length, get_or, some, List, [], ◌∷◌, true}
use go_ortc.Vp8.{
  ok, err, invalid_packet, zero_vp8, next, read_picture_id, read_tl0, read_tid_keyidx,
  read_key_frame, read_extended, unmarshal_bytes, unmarshal,
}
use go_ortc.Vp8.{Vp8}
use go_ortc.Vp8.Marshal.{
  put, put_picture_id, put_tl0, put_tid, put_extended, put_header, marshal_to,
}
use go_ortc.Vp8.Room.{Succeeds, marshal_to-Succeeds}
use go_ortc.Vp8.Total.{Yields, HeaderInside, unmarshal-HeaderInside}

-- A long picture id, a level index, and both T and K.
abbrev full : List ℕ
full = 0x90 ∷ 0xf0 ∷ 0x81 ∷ 0x02 ∷ 9 ∷ 0x63 ∷ 0x10 ∷ []

run_full :
    unmarshal zero_vp8 (some full)
    ≡ ok (record {
      first_byte = 0x90;
      picture_id_present = 1;
      picture_id = 258;
      m_bit = true;
      tl0_picidx_present = 1;
      tl0_picidx = 9;
      tid_present = 1;
      tid = 1;
      y = 1;
      keyidx_present = 1;
      keyidx = 3;
      header_size = 6;
      is_key_frame = true;
    })
unfolding unmarshal unmarshal_bytes read_extended read_picture_id read_tl0 read_tid_keyidx
    read_key_frame next
run_full = refl

-- An error leaves the receiver as far as it was filled.
run_invalid :
    unmarshal zero_vp8 (some (0x90 ∷ 0x40 ∷ []))
    ≡ err invalid_packet (record zero_vp8 { first_byte = 0x90 })
unfolding unmarshal unmarshal_bytes read_extended next
run_invalid = refl

unmarshal-HeaderInside_example : Yields (HeaderInside full 6) (unmarshal zero_vp8 (some full))
unmarshal-HeaderInside_example = unmarshal-HeaderInside zero_vp8 full

-- The descriptor of `full`, without its key index.
abbrev part : Vp8
part = record zero_vp8 {
  first_byte = 0x90;
  picture_id_present = 1;
  picture_id = 258;
  m_bit = true;
  tl0_picidx_present = 1;
  tl0_picidx = 9;
  tid_present = 1;
  tid = 1;
  y = 1;
  header_size = 6;
}

run_marshal :
    marshal_to part (1 ∷ 2 ∷ 3 ∷ 4 ∷ 5 ∷ 6 ∷ 7 ∷ [])
    ≡ ok (0x90 ∷ 0xe0 ∷ 0x81 ∷ 0x02 ∷ 9 ∷ 0x60 ∷ 7 ∷ [])
unfolding marshal_to put_header put_extended put_picture_id put_tl0 put_tid put
run_marshal = refl

-- An extension byte with no parts: the header size is 2, and one byte is written.
run_stale :
    marshal_to (record zero_vp8 { first_byte = 0x90; header_size = 2 }) (1 ∷ 2 ∷ [])
    ≡ ok (0x10 ∷ 2 ∷ [])
unfolding marshal_to put_header put
run_stale = refl

marshal_to-Succeeds_example :
    Succeeds
      (λ out.
        (length out ≡ 7)
        × ((j : ℕ) → 6 ≤ j → get_or out j 0 ≡ get_or (1 ∷ 2 ∷ 3 ∷ 4 ∷ 5 ∷ 6 ∷ 7 ∷ []) j 0))
      (marshal_to part (1 ∷ 2 ∷ 3 ∷ 4 ∷ 5 ∷ 6 ∷ 7 ∷ []))
marshal_to-Succeeds_example =
    marshal_to-Succeeds part (1 ∷ 2 ∷ 3 ∷ 4 ∷ 5 ∷ 6 ∷ 7 ∷ []) (omega arith) (omega arith)
