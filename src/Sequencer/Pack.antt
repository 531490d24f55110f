-- ===== src/Sequencer/Pack.antt =====
-- `packVP8` and `unpackVP8` of pkg/rtc/sequencer.go: a VP8 descriptor in the 64 bits of `misc`.
pub mod Fields
pub mod Trip
use go_ortc.Base.{
  ℕ, ◌+◌, ◌-◌, ◌*◌, ◌/◌, ◌%◌, ◌^◌, ◌<◌, ◌≤◌, ◌≡◌, refl, sym, ap, ◌∙◌, Bool, true, false, not, ◌==◌,
  if◌then◌else◌, bit_and, bit_or, arith,
}
use go_ortc.Base.Bits.{bit_or_clear, bit_and_mask}
use go_ortc.Base.Words.{shl, shr}
use go_ortc.Vp8.{Vp8}
use go_ortc.Sequencer.{PacketMeta}
use native.Mathlib.Nat.{mod-eq_of_lt}

abbrev pub btoi : Bool → ℕ
btoi true = 1
btoi false = 0

abbrev pub itob : ℕ → Bool
itob i = not (i == 0)

-- The `|` of the fields, each shifted to its place in a uint64.
abbrev pub or_all : (a b c d e f g h i j k l m : ℕ) → ℕ
or_all a b c d e f g h i j k l m =
    bit_or
      (bit_or
        (bit_or
          (bit_or
            (bit_or (bit_or (bit_or (bit_or (bit_or (bit_or (bit_or (bit_or a b) c) d) e) f) g) h)
              i)
            j)
          k)
        l)
      m

pub pack_vp8 : PacketMeta → Vp8 → PacketMeta
pack_vp8 p vp8 = record p {
  misc =
      or_all (shl 64 vp8.first_byte 56) (shl 64 (bit_and vp8.picture_id_present 0x1) 55)
        (shl 64 (bit_and vp8.tl0_picidx_present 0x1) 54) (shl 64 (bit_and vp8.tid_present 0x1) 53)
        (shl 64 (bit_and vp8.keyidx_present 0x1) 52) (shl 64 (bit_and (btoi vp8.m_bit) 0x1) 51)
        (shl 64 (bit_and (btoi vp8.is_key_frame) 0x1) 50)
        (shl 64 (bit_and vp8.picture_id 0x7FFF) 32) (shl 64 (bit_and vp8.tl0_picidx 0xFF) 24)
        (shl 64 (bit_and vp8.tid 0x3) 22) (shl 64 (bit_and vp8.y 0x1) 21)
        (shl 64 (bit_and vp8.keyidx 0x1F) 16) (shl 64 (bit_and vp8.header_size 0xFF) 8);
}

pub unpack_vp8 : PacketMeta → Vp8
unpack_vp8 p = record {
  first_byte = shr p.misc 56 % 256;
  picture_id_present = bit_and (shr p.misc 55) 0x1;
  picture_id = bit_and (shr p.misc 32) 0x7FFF % 65536;
  m_bit = itob (bit_and (shr p.misc 51) 0x1);
  tl0_picidx_present = bit_and (shr p.misc 54) 0x1;
  tl0_picidx = bit_and (shr p.misc 24) 0xFF % 256;
  tid_present = bit_and (shr p.misc 53) 0x1;
  tid = bit_and (shr p.misc 22) 0x3 % 256;
  y = bit_and (shr p.misc 21) 0x1 % 256;
  keyidx_present = bit_and (shr p.misc 52) 0x1;
  keyidx = bit_and (shr p.misc 16) 0x1F % 256;
  header_size = bit_and (shr p.misc 8) 0xFF;
  is_key_frame = itob (bit_and (shr p.misc 50) 0x1);
}

-- Each field fits the bits that it is given.
pub record Fits (v : Vp8) : Type 0 where
  pub first_byte : v.first_byte < 256
  pub picture_id_present : v.picture_id_present < 2
  pub picture_id : v.picture_id < 32768
  pub tl0_picidx_present : v.tl0_picidx_present < 2
  pub tl0_picidx : v.tl0_picidx < 256
  pub tid_present : v.tid_present < 2
  pub tid : v.tid < 4
  pub y : v.y < 2
  pub keyidx_present : v.keyidx_present < 2
  pub keyidx : v.keyidx < 32
  pub header_size : v.header_size < 256
