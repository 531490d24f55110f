-- ===== src/Sequencer/Pack/Trip.antt =====
-- The round trip of `packVP8` and `unpackVP8` of pkg/rtc/sequencer.go.
use go_ortc.Base.{
  ℕ, ◌-◌, ◌*◌, ◌/◌, ◌%◌, ◌^◌, ◌<◌, ◌≡◌, refl, ap, ◌∙◌, Bool, true, false, bit_and, arith,
}
use go_ortc.Base.Bits.{bit_and_mask}
use go_ortc.Base.Words.{shl, shr}
use go_ortc.Vp8.{Vp8}
use go_ortc.Sequencer.{PacketMeta}
use native.Mathlib.Nat.{mod-eq_of_lt}
use go_ortc.Sequencer.Pack.{btoi, itob, pack_vp8, unpack_vp8, Fits}
use go_ortc.Sequencer.Pack.Fields.{sum_of_fields, or_fields, field_of_sum}

btoi-lt : (b : Bool) → btoi b < 2
btoi-lt true = omega arith
btoi-lt false = omega arith

itob-btoi : (b : Bool) → itob (btoi b) ≡ b
itob-btoi true = refl
itob-btoi false = refl

-- A field that fits, masked and shifted to its place, is a multiple.
place :
    (k w x : ℕ) (mask : ℕ)
    → mask ≡ 2 ^ w - 1
    → x < 2 ^ w
    → x * 2 ^ k < 2 ^ 64
    → shl 64 (bit_and x mask) k ≡ x * 2 ^ k
place k w x mask e h fits =
    ap (λ (t : ℕ). shl 64 (bit_and x t) k) e
    ∙ ap (λ (t : ℕ). shl 64 t k) (bit_and_mask w x ∙ mod-eq_of_lt h)
    ∙ mod-eq_of_lt fits

-- A field as `unpackVP8` reads it.
taken : (m k w mask : ℕ) → mask ≡ 2 ^ w - 1 → bit_and (shr m k) mask ≡ m / 2 ^ k % 2 ^ w
taken m k w mask e = ap (bit_and (shr m k)) e ∙ bit_and_mask w (shr m k)

module _ (p : PacketMeta) (v : Vp8) (f : Fits v) where
  whole : ℕ
  whole =
      sum_of_fields v.first_byte v.picture_id_present v.tl0_picidx_present v.tid_present
        v.keyidx_present (btoi v.m_bit) (btoi v.is_key_frame) v.picture_id v.tl0_picidx v.tid v.y
        v.keyidx v.header_size f.first_byte f.picture_id_present f.tl0_picidx_present f.tid_present
        f.keyidx_present (btoi-lt v.m_bit) (btoi-lt v.is_key_frame) f.picture_id f.tl0_picidx f.tid
        f.y f.keyidx f.header_size

  misc-pack_vp8 : (pack_vp8 p v).misc ≡ whole
  unfolding pack_vp8 whole
  misc-pack_vp8 =
      rw
        (
          mod-eq_of_lt {n = v.first_byte * 2 ^ 56} {m = 2 ^ 64} (omega arith),
          place 55 1 v.picture_id_present 0x1 refl (omega arith) (omega arith),
          place 54 1 v.tl0_picidx_present 0x1 refl (omega arith) (omega arith),
          place 53 1 v.tid_present 0x1 refl (omega arith) (omega arith),
          place 52 1 v.keyidx_present 0x1 refl (omega arith) (omega arith),
          place 51 1 (btoi v.m_bit) 0x1 refl (omega (arith, btoi-lt v.m_bit))
              (omega (arith, btoi-lt v.m_bit)),
          place 50 1 (btoi v.is_key_frame) 0x1 refl (omega (arith, btoi-lt v.is_key_frame))
              (omega (arith, btoi-lt v.is_key_frame)),
          place 32 15 v.picture_id 0x7FFF refl (omega arith) (omega arith),
          place 24 8 v.tl0_picidx 0xFF refl (omega arith) (omega arith),
          place 22 2 v.tid 0x3 refl (omega arith) (omega arith),
          place 21 1 v.y 0x1 refl (omega arith) (omega arith),
          place 16 5 v.keyidx 0x1F refl (omega arith) (omega arith),
          place 8 8 v.header_size 0xFF refl (omega arith) (omega arith),
        )
        (or_fields v.first_byte v.picture_id_present v.tl0_picidx_present v.tid_present
          v.keyidx_present (btoi v.m_bit) (btoi v.is_key_frame) v.picture_id v.tl0_picidx v.tid v.y
          v.keyidx v.header_size f.first_byte f.picture_id_present f.tl0_picidx_present
          f.tid_present f.keyidx_present (btoi-lt v.m_bit) (btoi-lt v.is_key_frame) f.picture_id
          f.tl0_picidx f.tid f.y f.keyidx f.header_size)

  field_of_whole :
      (whole / 2 ^ 56 % 2 ^ 8 ≡ v.first_byte)
      × (whole / 2 ^ 55 % 2 ^ 1 ≡ v.picture_id_present)
      × (whole / 2 ^ 54 % 2 ^ 1 ≡ v.tl0_picidx_present)
      × (whole / 2 ^ 53 % 2 ^ 1 ≡ v.tid_present)
      × (whole / 2 ^ 52 % 2 ^ 1 ≡ v.keyidx_present)
      × (whole / 2 ^ 51 % 2 ^ 1 ≡ btoi v.m_bit)
      × (whole / 2 ^ 50 % 2 ^ 1 ≡ btoi v.is_key_frame)
      × (whole / 2 ^ 32 % 2 ^ 15 ≡ v.picture_id)
      × (whole / 2 ^ 24 % 2 ^ 8 ≡ v.tl0_picidx)
      × (whole / 2 ^ 22 % 2 ^ 2 ≡ v.tid)
      × (whole / 2 ^ 21 % 2 ^ 1 ≡ v.y)
      × (whole / 2 ^ 16 % 2 ^ 5 ≡ v.keyidx)
      × (whole / 2 ^ 8 % 2 ^ 8 ≡ v.header_size)
  unfolding whole
  field_of_whole =
      field_of_sum v.first_byte v.picture_id_present v.tl0_picidx_present v.tid_present
        v.keyidx_present (btoi v.m_bit) (btoi v.is_key_frame) v.picture_id v.tl0_picidx v.tid v.y
        v.keyidx v.header_size f.first_byte f.picture_id_present f.tl0_picidx_present f.tid_present
        f.keyidx_present (btoi-lt v.m_bit) (btoi-lt v.is_key_frame) f.picture_id f.tl0_picidx f.tid
        f.y f.keyidx f.header_size

  -- `unpackVP8` reads back the descriptor that `packVP8` stored, whatever the record held before, if
  -- each field fits the bits that it is given.
  pub unpack_vp8-pack_vp8 : unpack_vp8 (pack_vp8 p v) ≡ v
  unfolding unpack_vp8
  unpack_vp8-pack_vp8 =
      let m = (pack_vp8 p v).misc in
      let fields : (m / 2 ^ 56 % 2 ^ 8 ≡ v.first_byte)
          × (m / 2 ^ 55 % 2 ^ 1 ≡ v.picture_id_present)
          × (m / 2 ^ 54 % 2 ^ 1 ≡ v.tl0_picidx_present)
          × (m / 2 ^ 53 % 2 ^ 1 ≡ v.tid_present)
          × (m / 2 ^ 52 % 2 ^ 1 ≡ v.keyidx_present)
          × (m / 2 ^ 51 % 2 ^ 1 ≡ btoi v.m_bit)
          × (m / 2 ^ 50 % 2 ^ 1 ≡ btoi v.is_key_frame)
          × (m / 2 ^ 32 % 2 ^ 15 ≡ v.picture_id)
          × (m / 2 ^ 24 % 2 ^ 8 ≡ v.tl0_picidx)
          × (m / 2 ^ 22 % 2 ^ 2 ≡ v.tid)
          × (m / 2 ^ 21 % 2 ^ 1 ≡ v.y)
          × (m / 2 ^ 16 % 2 ^ 5 ≡ v.keyidx)
          × (m / 2 ^ 8 % 2 ^ 8 ≡ v.header_size) =
        rw misc-pack_vp8 field_of_whole in
      λ i. record {
        first_byte = fields.0 i;
        picture_id_present = (taken m 55 1 0x1 refl ∙ fields.1) i;
        tl0_picidx_present = (taken m 54 1 0x1 refl ∙ fields.2) i;
        tid_present = (taken m 53 1 0x1 refl ∙ fields.3) i;
        keyidx_present = (taken m 52 1 0x1 refl ∙ fields.4) i;
        m_bit = (ap itob (taken m 51 1 0x1 refl ∙ fields.5) ∙ itob-btoi v.m_bit) i;
        is_key_frame = (ap itob (taken m 50 1 0x1 refl ∙ fields.6) ∙ itob-btoi v.is_key_frame) i;
        picture_id =
            (ap (λ (t : ℕ). t % 65536) (taken m 32 15 0x7FFF refl ∙ fields.7)
                ∙ mod-eq_of_lt (omega arith))
              i;
        tl0_picidx =
            (ap (λ (t : ℕ). t % 256) (taken m 24 8 0xFF refl ∙ fields.8)
                ∙ mod-eq_of_lt (omega arith))
              i;
        tid =
            (ap (λ (t : ℕ). t % 256) (taken m 22 2 0x3 refl ∙ fields.9)
                ∙ mod-eq_of_lt (omega arith))
              i;
        y =
            (ap (λ (t : ℕ). t % 256) (taken m 21 1 0x1 refl ∙ fields.10)
                ∙ mod-eq_of_lt (omega arith))
              i;
        keyidx =
            (ap (λ (t : ℕ). t % 256) (taken m 16 5 0x1F refl ∙ fields.11)
                ∙ mod-eq_of_lt (omega arith))
              i;
        header_size = (taken m 8 8 0xFF refl ∙ fields.12) i;
      }
