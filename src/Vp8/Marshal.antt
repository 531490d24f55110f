-- ===== src/Vp8/Marshal.antt =====
-- `MarshalTo` and `VP8PictureIdSizeDiff` of pkg/buffer/helpers.go: a descriptor written to a buffer.
use go_ortc.Base.{
  ℕ, ◌+◌, ◌*◌, ◌/◌, ◌%◌, Bool, true, false, ◌||◌, not, List, ltb, ◌==◌, if◌then◌else◌, length, set,
  bit_and, bit_or,
}
use go_ortc.Base.Int.{ℤ, pos, negsuc}
use go_ortc.Vp8.{Vp8, Parse, ok, panic, short_packet, fail_if, ◌>>=◌, ◌>>◌}

-- `buf[idx] = b; idx++`, a panic outside the buffer.
unfoldable pub put : ℕ → List ℕ × ℕ → Parse (List ℕ × ℕ)
put b (buf, idx) = if ltb idx (length buf) then ok (set buf idx (b % 256), idx + 1) else panic

-- The four presence bits.
abbrev pub flags : Vp8 → ℕ
flags v =
    bit_or
      (bit_or (bit_or (v.picture_id_present * 128 % 256) (v.tl0_picidx_present * 64 % 256))
        (v.tid_present * 32 % 256))
      (v.keyidx_present * 16 % 256)

unfoldable pub put_picture_id : Vp8 → List ℕ × ℕ → Parse (List ℕ × ℕ)
put_picture_id v q =
    let long = do
      next ← put (bit_or 0x80 (bit_and (v.picture_id / 256) 0x7f)) q
      put (bit_and v.picture_id 0xff) next
    in if v.picture_id_present == 1 then if v.m_bit then long else put v.picture_id q else ok q

unfoldable pub put_tl0 : Vp8 → List ℕ × ℕ → Parse (List ℕ × ℕ)
put_tl0 v q = if v.tl0_picidx_present == 1 then put v.tl0_picidx q else ok q

-- The byte is set to 0, to the temporal layer, and then has the key index added to it.
abbrev pub tid_byte : Vp8 → ℕ
tid_byte v =
    let tid = if v.tid_present == 1 then bit_or (v.tid * 64 % 256) (v.y * 32 % 256) else 0 in
    if v.keyidx_present == 1 then bit_or tid (bit_and v.keyidx 0x1f) else tid

unfoldable pub put_tid : Vp8 → List ℕ × ℕ → Parse (List ℕ × ℕ)
put_tid v q = if v.tid_present == 1 || v.keyidx_present == 1 then put (tid_byte v) q else ok q

-- `v.PictureIDPresent + v.TL0PICIDXPresent + v.TIDPresent + v.KEYIDXPresent != 0`
abbrev pub is_extended : Vp8 → Bool
is_extended v =
    not (v.picture_id_present + v.tl0_picidx_present + v.tid_present + v.keyidx_present == 0)

-- The writes of `MarshalTo` for a descriptor with the extension.
unfoldable pub put_extended : Vp8 → List ℕ × ℕ → Parse (List ℕ × ℕ)
put_extended v q = do
  q1 ← put (bit_or v.first_byte 0x80) q
  q2 ← put (flags v) q1
  q3 ← put_picture_id v q2
  q4 ← put_tl0 v q3
  put_tid v q4

-- The writes of `MarshalTo` behind the test of the size, with the index after the last one.
unfoldable pub put_header : Vp8 → List ℕ × ℕ → Parse (List ℕ × ℕ)
put_header v q = if is_extended v then put_extended v q else put (bit_and v.first_byte 0x7f) q

-- The buffer after the call.
unfoldable pub marshal_to : Vp8 → List ℕ → Parse (List ℕ)
marshal_to v buf = do
  fail_if (ltb (length buf) v.header_size) short_packet v
  q ← put_header v (buf, 0)
  ok q.0

abbrev pub vp8_picture_id_size_diff : (m_bit1 m_bit2 : Bool) → ℤ
vp8_picture_id_size_diff true true = pos 0
vp8_picture_id_size_diff false false = pos 0
vp8_picture_id_size_diff true false = pos 1
vp8_picture_id_size_diff false true = negsuc 0

-- The bytes that each part takes.
abbrev pub picture_id_size : Vp8 → ℕ
picture_id_size v = if v.picture_id_present == 1 then if v.m_bit then 2 else 1 else 0

abbrev pub size_of : Vp8 → ℕ
size_of v =
    if is_extended v
    then 2
      + picture_id_size v
      + (if v.tl0_picidx_present == 1 then 1 else 0)
      + (if v.tid_present == 1 || v.keyidx_present == 1 then 1 else 0)
    else 1
