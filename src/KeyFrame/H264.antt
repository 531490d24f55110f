-- ===== src/KeyFrame/H264.antt =====
-- `IsH264Keyframe` of pkg/buffer/helpers.go returns on every payload.
use go_ortc.Base.{
  ℕ, zero, suc, ◌+◌, ◌<◌, ◌||◌, List, ltb, leb, ◌==◌, length, get_or, get_elem?-eq-get_or, arith,
  if_both, bit_and,
}
use go_ortc.KeyFrame.{
  Run, ret, panic, stuck, unit_offset, size16, aggregate_loop, is_h264_keyframe, at, ◌>>=◌,
}

-- A value is returned: no panic, and the fuel did not run out.
abbrev pub Returns {ℓ} : {A : Type ℓ} → Run A → Type 0
Returns (ret a) = Unit {0}
Returns panic = ⊥
Returns stuck = ⊥

-- A read inside the payload goes on with the byte.
pub at-inside {ℓ κ} :
    {B : Type ℓ} (P : Run B → Type κ) (payload : List ℕ) (i : ℕ) (f : ℕ → Run B)
    → i < length payload
    → P (f (get_or payload i 0))
    → P (at payload i >>= f)
at-inside P payload i f h p = rw (get_elem?-eq-get_or payload i 0 h) p

aggregate_loop-Returns :
    (fuel : ℕ) (payload : List ℕ) (nalu i : ℕ)
    → 0 < fuel
    → length payload < i + fuel
    → Returns (aggregate_loop fuel payload nalu i)
unfolding aggregate_loop
aggregate_loop-Returns zero payload nalu i pos h = absurd (omega arith)
aggregate_loop-Returns (suc fuel) payload nalu i pos h =
    if_both Returns (ltb i (length payload))
      (λ more.
        if_both Returns (ltb (length payload) (i + 2)) (λ _. tt)
          (λ room. at-inside Returns payload i _ (ground arith) (
            at-inside Returns payload (i + 1) _ (ground arith) (
              let size = size16 (get_or payload i 0) (get_or payload (i + 1) 0) in
              if_both Returns (ltb (length payload) (i + 2 + size) || leb size (unit_offset nalu))
                (λ _. tt)
                (λ fits. at-inside Returns payload (i + 2 + unit_offset nalu) _ (ground arith) (
                  if_both Returns (bit_and (get_or payload (i + 2 + unit_offset nalu) 0) 0x1F == 7)
                    (λ _. tt)
                    (λ _.
                      aggregate_loop-Returns fuel payload nalu (i + 2 + size) (ground arith)
                        (ground arith))))))))
      (λ _. tt)

-- `IsH264Keyframe` ends on every payload, and reads inside it.
pub is_h264_keyframe-Returns : (payload : List ℕ) → Returns (is_h264_keyframe payload)
unfolding is_h264_keyframe
is_h264_keyframe-Returns payload =
    let nalu = bit_and (get_or payload 0 0) 0x1F in
    if_both Returns (ltb (length payload) 1) (λ _. tt)
      λ some_byte. at-inside Returns payload 0 _ (ground arith) (
        if_both Returns (nalu == 0) (λ _. tt)
          λ _.
            if_both Returns (leb nalu 23) (λ _. tt)
              λ _.
                if_both Returns (nalu == 24 || nalu == 25 || nalu == 26 || nalu == 27)
                  (λ _.
                    aggregate_loop-Returns (length payload) payload nalu _ (ground arith)
                      (ground arith))
                  (λ _.
                    if_both Returns (nalu == 28 || nalu == 29)
                      (λ _.
                        if_both Returns (ltb (length payload) 2) (λ _. tt)
                          (λ two. at-inside Returns payload 1 _ (ground arith) (
                            if_both Returns (bit_and (get_or payload 1 0) 0x80 == 0) (λ _. tt)
                              (λ _. tt))))
                      (λ _. tt)))
