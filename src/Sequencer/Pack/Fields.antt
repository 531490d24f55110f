-- ===== src/Sequencer/Pack/Fields.antt =====
-- The fields of a VP8 descriptor side by side in a number of 64 bits, for pkg/rtc/sequencer.go.
use go_ortc.Base.{ℕ, ◌+◌, ◌*◌, ◌/◌, ◌%◌, ◌<◌, ◌≡◌, arith}
use go_ortc.Base.Bits.{bit_or_clear}
use go_ortc.Sequencer.Pack.{or_all}

-- The fields as numbers, each in its range.
module _ (fb pp lp tp kp mb kf pid tl ti yy ki hs : ℕ) (fb_lt : fb < 256) (pp_lt : pp < 2)
    (lp_lt : lp < 2) (tp_lt : tp < 2) (kp_lt : kp < 2) (mb_lt : mb < 2) (kf_lt : kf < 2)
    (pid_lt : pid < 32768) (tl_lt : tl < 256) (ti_lt : ti < 4) (yy_lt : yy < 2) (ki_lt : ki < 32)
    (hs_lt : hs < 256) where
  unfoldable pub sum_of_fields : ℕ
  sum_of_fields =
      fb * 72057594037927936
      + pp * 36028797018963968
      + lp * 18014398509481984
      + tp * 9007199254740992
      + kp * 4503599627370496
      + mb * 2251799813685248
      + kf * 1125899906842624
      + pid * 4294967296
      + tl * 16777216
      + ti * 4194304
      + yy * 2097152
      + ki * 65536
      + hs * 256

  pub or_fields :
      or_all
        (fb * 72057594037927936)
        (pp * 36028797018963968)
        (lp * 18014398509481984)
        (tp * 9007199254740992)
        (kp * 4503599627370496)
        (mb * 2251799813685248)
        (kf * 1125899906842624)
        (pid * 4294967296)
        (tl * 16777216)
        (ti * 4194304)
        (yy * 2097152)
        (ki * 65536)
        (hs * 256)
      ≡ sum_of_fields
  unfolding sum_of_fields
  or_fields =
      let e1 =
        bit_or_clear 56 (fb * 72057594037927936) (pp * 36028797018963968) (omega arith)
          (omega arith) in
      let e2 =
        bit_or_clear 55 (fb * 72057594037927936 + pp * 36028797018963968) (lp * 18014398509481984)
          (omega arith) (omega arith) in
      let e3 =
        bit_or_clear 54 (fb * 72057594037927936 + pp * 36028797018963968 + lp * 18014398509481984)
          (tp * 9007199254740992) (omega arith) (omega arith) in
      let e4 =
        bit_or_clear 53
          (fb * 72057594037927936
            + pp * 36028797018963968
            + lp * 18014398509481984
            + tp * 9007199254740992)
          (kp * 4503599627370496) (omega arith) (omega arith) in
      let e5 =
        bit_or_clear 52
          (fb * 72057594037927936
            + pp * 36028797018963968
            + lp * 18014398509481984
            + tp * 9007199254740992
            + kp * 4503599627370496)
          (mb * 2251799813685248) (omega arith) (omega arith) in
      let e6 =
        bit_or_clear 51
          (fb * 72057594037927936
            + pp * 36028797018963968
            + lp * 18014398509481984
            + tp * 9007199254740992
            + kp * 4503599627370496
            + mb * 2251799813685248)
          (kf * 1125899906842624) (omega arith) (omega arith) in
      let e7 =
        bit_or_clear 50
          (fb * 72057594037927936
            + pp * 36028797018963968
            + lp * 18014398509481984
            + tp * 9007199254740992
            + kp * 4503599627370496
            + mb * 2251799813685248
            + kf * 1125899906842624)
          (pid * 4294967296) (omega arith) (omega arith) in
      let e8 =
        bit_or_clear 32
          (fb * 72057594037927936
            + pp * 36028797018963968
            + lp * 18014398509481984
            + tp * 9007199254740992
            + kp * 4503599627370496
            + mb * 2251799813685248
            + kf * 1125899906842624
            + pid * 4294967296)
          (tl * 16777216) (omega arith) (omega arith) in
      let e9 =
        bit_or_clear 24
          (fb * 72057594037927936
            + pp * 36028797018963968
            + lp * 18014398509481984
            + tp * 9007199254740992
            + kp * 4503599627370496
            + mb * 2251799813685248
            + kf * 1125899906842624
            + pid * 4294967296
            + tl * 16777216)
          (ti * 4194304) (omega arith) (omega arith) in
      let e10 =
        bit_or_clear 22
          (fb * 72057594037927936
            + pp * 36028797018963968
            + lp * 18014398509481984
            + tp * 9007199254740992
            + kp * 4503599627370496
            + mb * 2251799813685248
            + kf * 1125899906842624
            + pid * 4294967296
            + tl * 16777216
            + ti * 4194304)
          (yy * 2097152) (omega arith) (omega arith) in
      let e11 =
        bit_or_clear 21
          (fb * 72057594037927936
            + pp * 36028797018963968
            + lp * 18014398509481984
            + tp * 9007199254740992
            + kp * 4503599627370496
            + mb * 2251799813685248
            + kf * 1125899906842624
            + pid * 4294967296
            + tl * 16777216
            + ti * 4194304
            + yy * 2097152)
          (ki * 65536) (omega arith) (omega arith) in
      let e12 =
        bit_or_clear 16
          (fb * 72057594037927936
            + pp * 36028797018963968
            + lp * 18014398509481984
            + tp * 9007199254740992
            + kp * 4503599627370496
            + mb * 2251799813685248
            + kf * 1125899906842624
            + pid * 4294967296
            + tl * 16777216
            + ti * 4194304
            + yy * 2097152
            + ki * 65536)
          (hs * 256) (omega arith) (omega arith) in
      rw (e1, e2, e3, e4, e5, e6, e7, e8, e9, e10, e11, e12)

  pub field_of_sum :
      (sum_of_fields / 72057594037927936 % 256 ≡ fb)
      × (sum_of_fields / 36028797018963968 % 2 ≡ pp)
      × (sum_of_fields / 18014398509481984 % 2 ≡ lp)
      × (sum_of_fields / 9007199254740992 % 2 ≡ tp)
      × (sum_of_fields / 4503599627370496 % 2 ≡ kp)
      × (sum_of_fields / 2251799813685248 % 2 ≡ mb)
      × (sum_of_fields / 1125899906842624 % 2 ≡ kf)
      × (sum_of_fields / 4294967296 % 32768 ≡ pid)
      × (sum_of_fields / 16777216 % 256 ≡ tl)
      × (sum_of_fields / 4194304 % 4 ≡ ti)
      × (sum_of_fields / 2097152 % 2 ≡ yy)
      × (sum_of_fields / 65536 % 32 ≡ ki)
      × (sum_of_fields / 256 % 256 ≡ hs)
  unfolding sum_of_fields
  field_of_sum = omega arith
