-- ===== src/Vp8.antt =====
-- pkg/buffer/helpers.go: the VP8 payload descriptor, read from a packet and written to a buffer.
-- A slice is a list of bytes, `none` for nil. The method fills the receiver as it goes, so an error
-- carries the receiver as far as it was filled. `panic` is Go's, for an index out of range.
pub mod Total
pub mod Marshal
pub mod Room
mod Tests
use go_ortc.Base.{
  ℕ, ◌+◌, ◌*◌, ◌/◌, ◌%◌, Bool, true, false, ◌&&◌, ◌||◌, not, Option, none, some, List, ltb, leb,
  ◌==◌, if◌then◌else◌, length, get_elem?, set, bit_and, bit_or,
}

pub record Vp8 : Type 0 where
  pub first_byte : ℕ
  pub picture_id_present : ℕ
  pub picture_id : ℕ
  pub m_bit : Bool
  pub tl0_picidx_present : ℕ
  pub tl0_picidx : ℕ
  pub tid_present : ℕ
  pub tid : ℕ
  pub y : ℕ
  pub keyidx_present : ℕ
  pub keyidx : ℕ
  pub header_size : ℕ
  pub is_key_frame : Bool

pub data Error : Type 0 where
  short_packet nil_packet invalid_packet : Error

pub data Parse {ℓ} (A : Type ℓ) : Type ℓ where
  ok : A → Parse A
  err : Error → Vp8 → Parse A
  panic : Parse A

infixl 5 ◌>>=◌ ◌>>◌
abbrev pub ◌>>=◌ {ℓ κ} : {A : Type ℓ} {B : Type κ} → Parse A → (A → Parse B) → Parse B
ok a >>= f = f a
err e v >>= f = err e v
panic >>= f = panic

abbrev pub ◌>>◌ {ℓ} : {B : Type ℓ} → Parse (Unit {0}) → Parse B → Parse B
m >> k = m >>= λ _. k

-- `if bad { return e }`
abbrev pub fail_if : Bool → Error → Vp8 → Parse (Unit {0})
fail_if true e v = err e v
fail_if false e v = ok tt

abbrev pub or_panic {ℓ} : {A : Type ℓ} → Option A → Parse A
or_panic none = panic
or_panic (some a) = ok a

-- `payload[idx]`
abbrev pub at : List ℕ → ℕ → Parse ℕ
at payload idx = or_panic (get_elem? payload idx)

-- `b&mask > 0`
abbrev pub has : (mask b : ℕ) → Bool
has mask b = ltb 0 (bit_and b mask)

-- `idx++; if payloadLen < idx+1 { return errShortPacket }`
pub next : Vp8 → List ℕ → ℕ → Parse ℕ
next v payload idx = do fail_if (ltb (length payload) (idx + 1 + 1)) short_packet v; ok (idx + 1)

-- The picture id, of one byte or of two.
pub read_picture_id : Vp8 → List ℕ → ℕ → Parse (Vp8 × ℕ)
read_picture_id v payload idx = do
  i ← next v payload idx
  b ← at payload i
  let w = record v { picture_id_present = 1 }
  let pid = bit_and b 0x7f
  let long = do
    j ← next w payload i
    low ← at payload j
    ok (record w { m_bit = true; picture_id = pid * 256 + low }, j)
  if has 0x80 b then long else ok (record w { picture_id = pid }, i)

pub read_tl0 : Vp8 → List ℕ → ℕ → Parse (Vp8 × ℕ)
read_tl0 v payload idx = do
  i ← next v payload idx
  let w = record v { tl0_picidx_present = 1 }
  fail_if (leb (length payload) i) short_packet w
  b ← at payload i
  ok (record w { tl0_picidx = b }, i)

abbrev pub with_tid : Bool → ℕ → Vp8 → Vp8
with_tid t b v =
    if t
    then record v { tid_present = 1; tid = bit_and b 0xc0 / 64; y = bit_and b 0x20 / 32 }
    else v

abbrev pub with_keyidx : Bool → ℕ → Vp8 → Vp8
with_keyidx k b v = if k then record v { keyidx_present = 1; keyidx = bit_and b 0x1f } else v

pub read_tid_keyidx : (t k : Bool) → Vp8 → List ℕ → ℕ → Parse (Vp8 × ℕ)
read_tid_keyidx t k v payload idx = do
  i ← next v payload idx
  b ← at payload i
  ok (with_keyidx k b (with_tid t b v), i)

-- The first byte behind the descriptor: its lowest bit is clear in a key frame.
pub read_key_frame : (s : Bool) → Vp8 → List ℕ → ℕ → Parse Vp8
read_key_frame s v payload idx = do
  i ← next v payload idx
  b ← at payload i
  ok (record v { is_key_frame = (bit_and b 0x01 == 0) && s; header_size = i })

abbrev pub when : Bool → (Vp8 → ℕ → Parse (Vp8 × ℕ)) → Vp8 → ℕ → Parse (Vp8 × ℕ)
when true f v idx = f v idx
when false f v idx = ok (v, idx)

-- The branch for a descriptor with the extension byte `x`, which is byte 1.
pub read_extended : (s : Bool) → Vp8 → List ℕ → Parse Vp8
read_extended s v payload = do
  idx ← next v payload 0
  x ← at payload idx
  let l = has 0x40 x
  let t = has 0x20 x
  let k = has 0x10 x
  fail_if (l && not t) invalid_packet v
  (v1, i1) ← when (has 0x80 x) (λ w i. read_picture_id w payload i) v idx
  (v2, i2) ← when l (λ w i. read_tl0 w payload i) v1 i1
  (v3, i3) ← when (t || k) (λ w i. read_tid_keyidx t k w payload i) v2 i2
  fail_if (leb (length payload) i3) short_packet v3
  read_key_frame s v3 payload i3

pub unmarshal_bytes : Vp8 → List ℕ → Parse Vp8
unmarshal_bytes v payload = do
  fail_if (ltb (length payload) 1) short_packet v
  b ← at payload 0
  let w = record v { first_byte = b }
  let s = has 0x10 b
  let extended = read_extended s w payload
  if has 0x80 b then extended else read_key_frame s w payload 0

-- `Unmarshal`
pub unmarshal : Vp8 → Option (List ℕ) → Parse Vp8
unmarshal v none = err nil_packet v
unmarshal v (some payload) = unmarshal_bytes v payload

-- `VP8{}`
abbrev pub zero_vp8 : Vp8
zero_vp8 = record {
  first_byte = 0;
  picture_id_present = 0;
  picture_id = 0;
  m_bit = false;
  tl0_picidx_present = 0;
  tl0_picidx = 0;
  tid_present = 0;
  tid = 0;
  y = 0;
  keyidx_present = 0;
  keyidx = 0;
  header_size = 0;
  is_key_frame = false;
}
