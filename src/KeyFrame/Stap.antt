-- ===== src/KeyFrame/Stap.antt =====
-- STAP-A packets: what `IsH264Keyframe` of pkg/buffer/helpers.go says of an aggregate of units.
use go_ortc.Base.{
  ℕ, zero, suc, ◌+◌, ◌*◌, ◌/◌, ◌%◌, ◌≤◌, ◌<◌, ◌≡◌, refl, sym, ap, ◌∙◌, Bool, true, false, ◌||◌,
  some, List, [], ◌∷◌, ◌++◌, ltb, leb, ◌==◌, length, get_elem?, length-append, arith, bit_and, All,
  if◌then◌else◌,
}
use go_ortc.Base.Bits.{bit_or_clear}
use go_ortc.KeyFrame.{Run, ret, size16, aggregate_loop, is_h264_keyframe}
use mathlib.Core.List.{append_assoc}

-- A unit of an aggregate: its header byte and the bytes behind it.
pub record Unit264 : Type 0 where
  pub header : ℕ
  pub body : List ℕ

abbrev pub size : Unit264 → ℕ
size u = suc (length u.body)

-- Its 16-bit size, then its bytes.
abbrev pub framed : Unit264 → List ℕ → List ℕ
framed u rest = (size u / 256) ∷ (size u % 256) ∷ u.header ∷ (u.body ++ rest)

pub aggregate : List Unit264 → List ℕ
aggregate [] = []
aggregate (u ∷ us) = framed u (aggregate us)

-- One of the units is a sequence parameter set.
pub has_sps : List Unit264 → Bool
has_sps [] = false
has_sps (u ∷ us) = bit_and u.header 0x1F == 7 || has_sps us

unfoldable pub Small : Unit264 → Type 0
Small u = size u < 65536

size16-parts : (n : ℕ) → n < 65536 → size16 (n / 256) (n % 256) ≡ n
size16-parts n h =
    bit_or_clear 8 ((n / 256) * 256 % 65536) (n % 256) (omega arith) (omega arith) ∙ omega arith

-- Reading behind a prefix.
get_elem?-append :
    (xs ys : List ℕ) (i k : ℕ) → k ≡ length xs + i → get_elem? (xs ++ ys) k ≡ get_elem? ys i
get_elem?-append [] ys i k e = ap (get_elem? ys) (e ∙ omega arith)
get_elem?-append (x ∷ xs) ys i zero e = absurd (omega arith)
get_elem?-append (x ∷ xs) ys i (suc k) e = get_elem?-append xs ys i k (omega arith)

-- One round of the loop over a unit that is whole.
aggregate_round :
    (fuel : ℕ) (payload : List ℕ) (i hi lo b n : ℕ)
    → get_elem? payload i ≡ some hi
    → get_elem? payload (i + 1) ≡ some lo
    → get_elem? payload (i + 2 + 0) ≡ some b
    → size16 hi lo ≡ n
    → 0 < n
    → i + 2 + n ≤ length payload
    → aggregate_loop (suc fuel) payload 24 i
      ≡ (if bit_and b 0x1F == 7 then ret true else aggregate_loop fuel payload 24 (i + 2 + n))
unfolding aggregate_loop
aggregate_round fuel payload i hi lo b n eh el eb en pos fits =
    let inside : ltb i (length payload) ≡ true = ground arith in
    let room : ltb (length payload) (i + 2) ≡ false = ground arith in
    let whole : (ltb (length payload) (i + 2 + n) || leb n 0) ≡ false = ground arith in
    rw (inside, room, eh, el, en, whole, eb)

aggregate_end :
    (fuel : ℕ) (payload : List ℕ) (nalu i : ℕ)
    → length payload ≤ i
    → aggregate_loop (suc fuel) payload nalu i ≡ ret false
unfolding aggregate_loop
aggregate_end fuel payload nalu i h =
    let out : ltb i (length payload) ≡ false = ground arith in rw out

regroup :
    (front : List ℕ) (u : Unit264) (rest : List ℕ)
    → front ++ framed u rest
      ≡ (front ++ (size u / 256) ∷ (size u % 256) ∷ u.header ∷ u.body) ++ rest
regroup front u rest =
    sym (append_assoc front ((size u / 256) ∷ (size u % 256) ∷ u.header ∷ u.body) rest)

choose : (b c : Bool) → (if b then ret true else ret c) ≡ ret (b || c)
choose true c = refl
choose false c = refl

aggregate_loop-has_sps :
    (us : List Unit264) (fuel : ℕ) (front payload : List ℕ) (i : ℕ)
    → All Small us
    → length (aggregate us) < fuel
    → payload ≡ front ++ aggregate us
    → i ≡ length front
    → aggregate_loop fuel payload 24 i ≡ ret (has_sps us)
unfolding aggregate has_sps Small
aggregate_loop-has_sps us zero front payload i h hf ep ei = absurd (omega arith)
aggregate_loop-has_sps [] (suc fuel) front payload i h hf ep ei =
    aggregate_end fuel payload 24 i (omega (arith, ap length ep, length-append front [], ei))
aggregate_loop-has_sps (u ∷ us) (suc fuel) front payload i h hf ep ei =
    let rest = aggregate us in
    let long : length payload ≡ length front + (3 + (length u.body + length rest)) =
      omega (arith, ap length ep, length-append front (framed u rest), length-append u.body rest) in
    let reads : (k j : ℕ)
        → k ≡ length front + j
        → get_elem? payload k ≡ get_elem? (framed u rest) j =
      λ k j e.
        ap (λ (l : List ℕ). get_elem? l k) ep ∙ get_elem?-append front (framed u rest) j k e in
    let next =
      aggregate_loop-has_sps us fuel (front ++ (size u / 256) ∷ (size u % 256) ∷ u.header ∷ u.body)
        payload (i + 2 + size u) h.1 (omega (arith, hf, length-append u.body rest))
        (ep ∙ regroup front u rest)
        (omega
          (arith, length-append front ((size u / 256) ∷ (size u % 256) ∷ u.header ∷ u.body))) in
    aggregate_round fuel payload i (size u / 256) (size u % 256) u.header (size u)
      (reads i 0 (omega arith)) (reads (i + 1) 1 (omega arith)) (reads (i + 2 + 0) 2 (omega arith))
      (size16-parts (size u) h.0) (omega arith) (omega arith)
    ∙ ap (λ (r : Run Bool). if bit_and u.header 0x1F == 7 then ret true else r) next
    ∙ choose (bit_and u.header 0x1F == 7) (has_sps us)

-- A STAP-A packet, a header byte of type 24 and any units behind it, each of fewer than 65536 bytes,
-- is a key frame exactly if one of the units is a sequence parameter set.
pub stap_a_keyframe :
    (first : ℕ) (us : List Unit264)
    → bit_and first 0x1F ≡ 24
    → All Small us
    → is_h264_keyframe (first ∷ aggregate us) ≡ ret (has_sps us)
unfolding is_h264_keyframe
stap_a_keyframe first us e h =
    let some_byte : ltb (length (first ∷ aggregate us)) 1 ≡ false = ground arith in
    rw (e, some_byte)
      (aggregate_loop-has_sps us (suc (length (aggregate us))) (first ∷ []) (first ∷ aggregate us) 1
        h (omega arith) refl (omega arith))
