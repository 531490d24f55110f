-- ===== src/Sequencer/Marks.antt =====
-- What `getPacketsMeta` of pkg/rtc/sequencer.go leaves behind in the sequencer.
use go_ortc.Base.{
  ℕ, suc, ◌+◌, ◌%◌, ◌^◌, ◌<◌, ◌≡◌, ◌≢◌, inl, inr, refl, ap, ◌∙◌, subst, ◌==◌, Bool-cases, Option,
  List, [], ◌∷◌, arith, length, set, get_or, get_or-set_self, get_or-set_ne, if◌then◌else◌,
}
use go_ortc.Base.Words.{sub32}
use go_ortc.Sequencer.{Sequencer, PacketMeta, zero_meta, mark, nack_loop, get_packets_meta}
use go_ortc.Sequencer.Valid.{IsValid, nack_one-IsValid, nack_loop-IsValid}
use go_ortc.Sequencer.Nack.{nack_one_cases, lookup-lt}

-- How often a pointer is handed out.
abbrev pub times : ℕ → List ℕ → ℕ
times i [] = 0
times i (p ∷ out) = let rest = times i out in if i == p then suc rest else rest

-- The record `a` after it was handed out `n` times at a time: the time and the uint8 count of the
-- requests are kept in it, and nothing else of it changes.
pub record Marked (ref_time n : ℕ) (a b : PacketMeta) : Type 0 where
  pub source_seq_no : b.source_seq_no ≡ a.source_seq_no
  pub target_seq_no : b.target_seq_no ≡ a.target_seq_no
  pub timestamp : b.timestamp ≡ a.timestamp
  pub layer : b.layer ≡ a.layer
  pub misc : b.misc ≡ a.misc
  pub last_nack : b.last_nack ≡ (if n == 0 then a.last_nack else ref_time)
  pub nacked : b.nacked ≡ (if n == 0 then a.nacked else (a.nacked + n) % 256)

abbrev pub meta_at : Sequencer → ℕ → PacketMeta
meta_at s i = get_or s.metas i zero_meta

abbrev RecordsMarked : (s : Sequencer) (ref_time : ℕ) (t : Sequencer) (out : List ℕ) → Type 0
RecordsMarked s ref_time t out = (i : ℕ) → Marked ref_time (times i out) (meta_at s i) (meta_at t i)

Marked-none : (ref_time : ℕ) (a : PacketMeta) → Marked ref_time 0 a a
Marked-none ref_time a = record {
  source_seq_no = refl;
  target_seq_no = refl;
  timestamp = refl;
  layer = refl;
  misc = refl;
  last_nack = refl;
  nacked = refl;
}

Marked-mark :
    (ref_time n : ℕ) (a b : PacketMeta)
    → Marked ref_time n (mark ref_time a) b
    → Marked ref_time (suc n) a b
unfolding mark
Marked-mark ref_time n a b m = record {
  source_seq_no = m.source_seq_no;
  target_seq_no = m.target_seq_no;
  timestamp = m.timestamp;
  layer = m.layer;
  misc = m.misc;
  last_nack = ground (arith, m.last_nack);
  nacked = ground (arith, m.nacked);
}

-- A record is handed out, and then the rest of the numbers is looked up.
handed-RecordsMarked :
    (s : Sequencer) (ref_time p : ℕ) (t u : Sequencer) (out : List ℕ)
    → p < length s.metas
    → t.metas ≡ set s.metas p (mark ref_time (meta_at s p))
    → RecordsMarked t ref_time u out
    → RecordsMarked s ref_time u (p ∷ out)
handed-RecordsMarked s ref_time p t u out within stored rest i = elim (Bool-cases (i == p)) [
  | inl e ↦
      let same : i ≡ p = ground arith in
      let reads : meta_at t i ≡ mark ref_time (meta_at s i) =
        rw (stored, same) (get_or-set_self s.metas p _ zero_meta within) in
      rw e (
        Marked-mark ref_time (times i out) (meta_at s i) (meta_at u i)
          (subst (λ a. Marked ref_time (times i out) a (meta_at u i)) reads (rest i)))
  | inr e ↦
      let other : p ≢ i = λ same. ground arith in
      let reads : meta_at t i ≡ meta_at s i =
        rw stored (get_or-set_ne s.metas p i _ zero_meta other) in
      rw e (subst (λ a. Marked ref_time (times i out) a (meta_at u i)) reads (rest i))
]

nack_loop-RecordsMarked :
    (s : Sequencer) (ref_time : ℕ) (sns : List ℕ)
    → IsValid s
    → RecordsMarked s ref_time (nack_loop s ref_time sns).0 (nack_loop s ref_time sns).1
unfolding nack_loop
nack_loop-RecordsMarked s ref_time [] v = λ i. Marked-none ref_time (meta_at s i)
nack_loop-RecordsMarked s ref_time (sn ∷ sns) v = elim (nack_one_cases s ref_time sn) [
  | inl skip ↦ rw (skip, nack_loop) (nack_loop-RecordsMarked s ref_time sns v)
  | inr (p, t, step, h) ↦
      let kept : IsValid t =
        subst (λ (r : Sequencer × Option ℕ). IsValid r.0) step (nack_one-IsValid s ref_time sn v) in
      rw (step, nack_loop)
        (handed-RecordsMarked s ref_time p t (nack_loop t ref_time sns).0
          (nack_loop t ref_time sns).1 (lookup-lt s sn p v h.found)
          (ap (λ (r : Sequencer). r.metas) h.marked) (nack_loop-RecordsMarked t ref_time sns kept))
]

-- All but the records is the same.
abbrev pub SameRing : (s t : Sequencer) → Type 0
SameRing s t = t ≡ record s { metas = t.metas }

nack_loop-SameRing :
    (s : Sequencer) (ref_time : ℕ) (sns : List ℕ) → SameRing s (nack_loop s ref_time sns).0
unfolding nack_loop
nack_loop-SameRing s ref_time [] = refl
nack_loop-SameRing s ref_time (sn ∷ sns) = elim (nack_one_cases s ref_time sn) [
  | inl skip ↦ rw (skip, nack_loop) (nack_loop-SameRing s ref_time sns)
  | inr (p, t, step, h) ↦
      let u = (nack_loop t ref_time sns).0 in
      rw (step, nack_loop)
        (nack_loop-SameRing t ref_time sns
          ∙ ap (λ (r : Sequencer). record r { metas = u.metas }) h.marked)
]

-- What a request leaves behind: a sequencer with the same ring, in which every record carries the
-- time and the number of the times it was handed out.
pub record Marks (s : Sequencer) (now : ℕ) (t : Sequencer) (out : List ℕ) : Type 0 where
  pub valid : IsValid t
  pub same_ring : SameRing s t
  pub marked :
      (i : ℕ)
      → Marked
          (sub32 (now % 2 ^ 32) (s.start_time % 2 ^ 32))
          (times i out)
          (meta_at s i)
          (meta_at t i)

-- Answering a NACK on a sequencer that satisfies the invariant keeps the invariant, the ring, its
-- pointers and all else but the records. A record that is handed out keeps its numbers, timestamp and
-- layer, has the time of this request as its last one, and counts as many requests more as it was
-- handed out (as a uint8); the fields of every other record are unchanged.
pub get_packets_meta-Marks :
    (s : Sequencer) (now : ℕ) (seq_no : List ℕ)
    → IsValid s
    → Marks s now (get_packets_meta s now seq_no).0 (get_packets_meta s now seq_no).1
unfolding get_packets_meta
get_packets_meta-Marks s now seq_no v = record {
  valid = nack_loop-IsValid s _ seq_no v;
  same_ring = nack_loop-SameRing s _ seq_no;
  marked = nack_loop-RecordsMarked s _ seq_no v;
}
