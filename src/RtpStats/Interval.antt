-- ===== src/RtpStats/Interval.antt =====
-- What `getIntervalStats` of pkg/buffer/rtpstats.go counts.
use go_ortc.Base.{
  ℕ, zero, suc, ◌+◌, ◌-◌, ◌%◌, ◌≤◌, ◌<◌, ◌≡◌, refl, ap, ap₂, ◌∙◌, Bool, true, false, ◌&&◌, not,
  Option, none, some, List, arith, if_both, if◌then◌else◌, ◌==◌, get_or,
}
use go_ortc.Base.Words.{IsU16, add16}
use go_ortc.RtpStats.Types.{RtpStats, SnInfo, no_info}
use go_ortc.RtpStats.Ring.{get_sn_info_out_of_order_ptr}
use go_ortc.RtpStats.Snapshots.{
  IntervalStats, no_stats, process_info, process_at, process_sn, process_rounds, interval_rounds,
  get_interval_stats,
}

-- f 0 + f 1 + … + f (n - 1).
abbrev pub sum : (ℕ → ℕ) → (n : ℕ) → ℕ
sum g zero = 0
sum g (suc n) = g 0 + sum (λ k. g (k + 1)) n

sum-ext : (g h : ℕ → ℕ) (n : ℕ) → ((k : ℕ) → g k ≡ h k) → sum g n ≡ sum h n
sum-ext g h zero same = refl
sum-ext g h (suc n) same =
    ap₂ (λ (a : ℕ) (b : ℕ). a + b) (same 0)
      (sum-ext (λ k. g (k + 1)) (λ k. h (k + 1)) n (λ k. same (k + 1)))

abbrev pub one_if : Bool → ℕ
one_if true = 1
one_if false = 0

-- What a record tells of its packet: no packet, padding alone, or a packet with media.
abbrev pub is_lost : SnInfo → Bool
is_lost info = info.pkt_size == 0

abbrev pub is_padding : SnInfo → Bool
is_padding info = not (info.pkt_size == 0) && info.is_padding_only

abbrev pub is_packet : SnInfo → Bool
is_packet info = not (info.pkt_size == 0) && not info.is_padding_only

-- 1 for a number with a record that passes the test.
abbrev pub weigh : (SnInfo → Bool) → List SnInfo → Option ℕ → ℕ
weigh test infos none = 0
weigh test infos (some p) = one_if (test (get_or infos p no_info))

abbrev pub weigh_none : Option ℕ → ℕ
weigh_none none = 1
weigh_none (some p) = 0

module _ {J : Type 0} (r : RtpStats J) where
  -- How many of the `n` sequence numbers from `first` on, modulo 65536, have a record of a kind.
  abbrev pub tally : (SnInfo → Bool) → (first n : ℕ) → ℕ
  tally test first n =
      sum (λ k. weigh test r.sn_infos (get_sn_info_out_of_order_ptr r ((first + k) % 65536))) n

  -- How many of them have no record in the ring.
  abbrev pub tally_none : (first n : ℕ) → ℕ
  tally_none first n =
      sum (λ k. weigh_none (get_sn_info_out_of_order_ptr r ((first + k) % 65536))) n

-- The statistics of the `n` sequence numbers from `first` on.
pub record Counts {J : Type 0} (r : RtpStats J) (first n : ℕ) (q : IntervalStats × ℕ) : Type 0 where
  pub packets : q.0.packets ≡ tally r is_packet first n
  pub packets_padding : q.0.packets_padding ≡ tally r is_padding first n
  pub packets_lost : q.0.packets_lost ≡ tally r is_lost first n
  pub frames : q.0.frames ≡ tally r (λ info. info.marker) first n
  pub not_found : q.1 ≡ tally_none r first n

-- A field that a round adds the weight of its number to.
record Counter (infos : List SnInfo) (g : IntervalStats × ℕ → ℕ) (w : Option ℕ → ℕ) : Type 0 where
  pub small : (p : Option ℕ) → w p ≤ 1
  pub step :
      (q : IntervalStats × ℕ) (p : Option ℕ) → g q < 65536 → g (process_at infos q p) ≡ g q + w p

one_if-le : (b : Bool) → one_if b ≤ 1
one_if-le true = omega arith
one_if-le false = omega arith

weigh-le : (test : SnInfo → Bool) (infos : List SnInfo) (p : Option ℕ) → weigh test infos p ≤ 1
weigh-le test infos none = omega arith
weigh-le test infos (some p) = one_if-le (test (get_or infos p no_info))

field-step :
    (infos : List SnInfo) (test : SnInfo → Bool) (g : IntervalStats → ℕ)
    → ((i : IntervalStats) (info : SnInfo)
        → g i < 65536
        → g (process_info i info) ≡ g i + one_if (test info))
    → (q : IntervalStats × ℕ) (p : Option ℕ) → g q.0 < 65536
    → g (process_at infos q p).0 ≡ g q.0 + weigh test infos p
field-step infos test g step q none small = omega arith
field-step infos test g step q (some p) small = step q.0 (get_or infos p no_info) small

-- A field that a record of a kind adds 1 to.
field-Counter :
    (infos : List SnInfo) (test : SnInfo → Bool) (g : IntervalStats → ℕ)
    → ((i : IntervalStats) (info : SnInfo)
        → g i < 65536
        → g (process_info i info) ≡ g i + one_if (test info))
    → Counter infos (λ q. g q.0) (weigh test infos)
field-Counter infos test g step = record {
  small = weigh-le test infos;
  step = field-step infos test g step;
}

packets-step :
    (i : IntervalStats) (info : SnInfo)
    → i.packets < 65536
    → (process_info i info).packets ≡ i.packets + one_if (is_packet info)
unfolding process_info
packets-step i info small = ground arith

packets_padding-step :
    (i : IntervalStats) (info : SnInfo)
    → i.packets_padding < 65536
    → (process_info i info).packets_padding ≡ i.packets_padding + one_if (is_padding info)
unfolding process_info
packets_padding-step i info small = ground arith

packets_lost-step :
    (i : IntervalStats) (info : SnInfo)
    → i.packets_lost < 65536
    → (process_info i info).packets_lost ≡ i.packets_lost + one_if (is_lost info)
unfolding process_info
packets_lost-step i info small = ground arith

frames-step :
    (i : IntervalStats) (info : SnInfo)
    → i.frames < 65536
    → (process_info i info).frames ≡ i.frames + one_if info.marker
unfolding process_info
frames-step i info small = ground arith

weigh_none-le : (p : Option ℕ) → weigh_none p ≤ 1
weigh_none-le none = omega arith
weigh_none-le (some p) = omega arith

not_found-step :
    (infos : List SnInfo) (q : IntervalStats × ℕ) (p : Option ℕ)
    → q.1 < 65536
    → (process_at infos q p).1 ≡ q.1 + weigh_none p
not_found-step infos q none small = omega arith
not_found-step infos q (some p) small = omega arith

not_found-Counter : (infos : List SnInfo) → Counter infos (λ q. q.1) weigh_none
not_found-Counter infos = record { small = weigh_none-le; step = not_found-step infos }

module _ {J : Type 0} (r : RtpStats J) (g : IntervalStats × ℕ → ℕ) (w : Option ℕ → ℕ)
    (c : Counter r.sn_infos g w) where
  process_rounds-sum :
      (n sn : ℕ) (q : IntervalStats × ℕ)
      → IsU16 sn
      → g q + n ≤ 65536
      → g (process_rounds r n sn q)
        ≡ g q + sum (λ k. w (get_sn_info_out_of_order_ptr r ((sn + k) % 65536))) n
  unfolding process_rounds process_sn
  process_rounds-sum zero sn q u16 small = omega arith
  process_rounds-sum (suc n) sn q u16 small =
      let at : ℕ → ℕ = λ m. w (get_sn_info_out_of_order_ptr r m) in
      let step = c.step q (get_sn_info_out_of_order_ptr r sn) (omega arith) in
      let light = c.small (get_sn_info_out_of_order_ptr r sn) in
      let first : at ((sn + 0) % 65536) ≡ at sn = ap at (omega arith) in
      let same =
        sum-ext (λ k. at ((add16 sn 1 + k) % 65536)) (λ k. at ((sn + (k + 1)) % 65536)) n
          (λ k. ap at (omega arith)) in
      let rest =
        process_rounds-sum n (add16 sn 1) (process_sn r sn q) (omega arith)
          (omega (arith, step, light)) in
      rest ∙ omega (arith, step, same, first)

module _ {J : Type 0} (r : RtpStats J) where
  rounds-Counts :
      (first n : ℕ) → IsU16 first → n ≤ 65536 → Counts r first n (process_rounds r n first no_stats)
  rounds-Counts first n u16 small =
      let infos = r.sn_infos in
      let total : (g : IntervalStats × ℕ → ℕ) (w : Option ℕ → ℕ)
          → Counter infos g w
          → g no_stats ≡ 0
          → g (process_rounds r n first no_stats)
            ≡ sum (λ k. w (get_sn_info_out_of_order_ptr r ((first + k) % 65536))) n =
        λ g w c start.
          process_rounds-sum r g w c n first no_stats u16 (omega (arith, start))
          ∙ omega (arith, start) in
      record {
        packets = total _ _ (field-Counter infos is_packet (λ i. i.packets) packets-step) refl;
        packets_padding =
            total _ _ (field-Counter infos is_padding (λ i. i.packets_padding) packets_padding-step)
              refl;
        packets_lost =
            total _ _ (field-Counter infos is_lost (λ i. i.packets_lost) packets_lost-step) refl;
        frames =
            total _ _ (field-Counter infos (λ info. info.marker) (λ i. i.frames) frames-step) refl;
        not_found = total _ _ (not_found-Counter infos) refl;
      }

  -- The statistics of an interval of uint16 sequence numbers look at each number from its start up to
  -- its end, modulo 65536, exactly once (at all 65536 from 0 on, where the ends agree): the packets,
  -- the padding, the lost packets and the frames are as many as there are numbers in the interval
  -- whose record in the ring has a size and is not just padding, has a size and is just padding, has
  -- no size, and has the marker; the rest of the numbers, without a record, are counted as not found.
  pub get_interval_stats-Counts :
      (start end : ℕ)
      → IsU16 start
      → Counts r
          (if start == end then 0 else start)
          (if start == end then 65536 else (end + 65536 - start) % 65536)
          (get_interval_stats r start end)
  unfolding get_interval_stats
  get_interval_stats-Counts start end u16 =
      rounds-Counts (if start == end then 0 else start) (interval_rounds start end)
        (if_both IsU16 (start == end) (λ _. omega arith) (λ _. u16))
        (if_both (λ (n : ℕ). n ≤ 65536) (start == end) (λ _. omega arith) (λ _. omega arith))
