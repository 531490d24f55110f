-- ===== src/Sequencer/Nack.antt =====
-- `getPacketsMeta` of pkg/rtc/sequencer.go: which records it hands out, and how often.
use go_ortc.Base.{
  ℕ, zero, suc, if◌then◌else◌, All-get_or, ◌+◌, ◌*◌, ◌%◌, ◌^◌, ◌<◌, ◌≡◌, ◌≢◌, ◌⊎◌, inl, inr, refl,
  sym, ap, ◌∙◌, min, ltb, leb, ◌==◌, ◌||◌, Bool, Bool-cases, Option, none, some, List, [], ◌∷◌,
  true, arith, length, set, get_or, get_or-set_self, Option-cases,
}
use go_ortc.Base.Words.{sub16, sub32}
use go_ortc.Base.Int.{sub_ℕ}
use go_ortc.Sequencer.Valid.{IsValid, PointsBelow}
use go_ortc.Sequencer.{
  Sequencer, PacketMeta, zero_meta, ignore_retransmission, lookup, checked, wrap, due, mark,
  nack_one, append_found, nack_loop, get_packets_meta,
}

-- The two ways that a round can go.
pub record Handed (s : Sequencer) (ref_time sn p : ℕ) (t : Sequencer) : Type 0 where
  pub found : lookup s sn ≡ some p
  pub was_due : due s ref_time (get_or s.metas p zero_meta) ≡ true
  pub marked : t ≡ record s { metas = set s.metas p (mark ref_time (get_or s.metas p zero_meta)) }

pub nack_one_cases :
    (s : Sequencer) (ref_time sn : ℕ)
    → (nack_one s ref_time sn ≡ (s, none))
      ⊎ ((p : ℕ) × (t : Sequencer) × (nack_one s ref_time sn ≡ (t, some p))
          × Handed s ref_time sn p t)
unfolding nack_one
nack_one_cases s ref_time sn = elim (Option-cases (lookup s sn)) [
  | inl e ↦ inl (rw (e, nack_one))
  | inr (p, e) ↦ elim (Bool-cases (due s ref_time (get_or s.metas p zero_meta))) [
    | inl d ↦ inr (p, _, rw (e, nack_one, d), record { found = e; was_due = d; marked = refl })
    | inr d ↦ inl (rw (e, nack_one, d))
  ]
]

-- The target of a record, at any pointer, out of range too.
abbrev target_at : Sequencer → ℕ → ℕ
target_at s i = (get_or s.metas i zero_meta).target_seq_no

set-target :
    (l : List PacketMeta) (p i ref_time : ℕ)
    → (get_or (set l p (mark ref_time (get_or l p zero_meta))) i zero_meta).target_seq_no
      ≡ (get_or l i zero_meta).target_seq_no
unfolding mark
set-target [] p i ref_time = refl
set-target (m ∷ l) zero zero ref_time = refl
set-target (m ∷ l) zero (suc i) ref_time = refl
set-target (m ∷ l) (suc p) zero ref_time = refl
set-target (m ∷ l) (suc p) (suc i) ref_time = set-target l p i ref_time

checked-marked :
    (l : List PacketMeta) (p ref_time sn : ℕ) (o : Option ℕ)
    → checked (set l p (mark ref_time (get_or l p zero_meta))) sn o ≡ checked l sn o
unfolding checked
checked-marked l p ref_time sn none = refl
checked-marked l p ref_time sn (some q) =
    ap (λ (t : ℕ). if t == sn then some q else none) (set-target l p q ref_time)

-- Marking a record does not change what a look-up finds.
pub lookup-marked :
    (s : Sequencer) (p ref_time sn : ℕ)
    → lookup (record s { metas = set s.metas p (mark ref_time (get_or s.metas p zero_meta)) }) sn
      ≡ lookup s sn
unfolding lookup
lookup-marked s p ref_time sn =
    ap
      (λ (o : Option ℕ).
        if ltb 32768 (sub16 s.head_sn sn) || leb s.max (sub16 s.head_sn sn) then none else o)
      (checked-marked s.metas p ref_time sn _)

pub lookup-lt : (s : Sequencer) (sn p : ℕ) → IsValid s → lookup s sn ≡ some p → p < length s.metas
unfolding lookup
lookup-lt s sn p v e =
    let o = get_or s.seq (wrap s.max (sub_ℕ s.step (sub16 s.head_sn sn + 1))) none in
    let below : PointsBelow (length s.metas) o =
      All-get_or (PointsBelow (length s.metas)) s.seq _ none tt v.points in
    let hit : o ≡ some p = ground arith in rw hit at below

nack_one-found :
    (s : Sequencer) (ref_time sn p : ℕ)
    → lookup s sn ≡ some p
    → (nack_one s ref_time sn).1
      ≡ (if due s ref_time (get_or s.metas p zero_meta) then some p else none)
unfolding nack_one
nack_one-found s ref_time sn p e = elim (Bool-cases (due s ref_time (get_or s.metas p zero_meta))) [
  | inl d ↦ rw (e, nack_one, d)
  | inr d ↦ rw (e, nack_one, d)
]

due-mark :
    (s : Sequencer) (later ref_time : ℕ) (m : PacketMeta)
    → ref_time ≢ 0
    → due s later (mark ref_time m)
      ≡ ltb (min ignore_retransmission (2 * s.rtt % 2 ^ 32)) (sub32 later ref_time)
unfolding due mark
due-mark s later ref_time m ne = ground arith

-- After a record was handed out at a time that is not 0, a further request for the number gets it
-- again exactly if the time since then exceeds the smaller of 100 ms and two round trips.
pub nack_again :
    (s : Sequencer) (ref_time later sn p : ℕ)
    → IsValid s
    → ref_time ≢ 0
    → (nack_one s ref_time sn).1 ≡ some p
    → (nack_one (nack_one s ref_time sn).0 later sn).1 ≡ (
        if ltb (min ignore_retransmission (2 * s.rtt % 2 ^ 32)) (sub32 later ref_time)
        then some p
        else none)
nack_again s ref_time later sn p v ne e = elim (nack_one_cases s ref_time sn) [
  | inl skip ↦ absurd (cc)
  | inr (q, t, step, h) ↦
      let m = get_or s.metas q zero_meta in
      let u = record s { metas = set s.metas q (mark ref_time m) } in
      let next : (nack_one s ref_time sn).0 ≡ u =
        ap (λ (r : Sequencer × Option ℕ). r.0) step ∙ h.marked in
      let same : some p ≡ some q = sym e ∙ ap (λ (r : Sequencer × Option ℕ). r.1) step in
      let reads =
        get_or-set_self s.metas q (mark ref_time m) zero_meta (lookup-lt s sn q v h.found) in
      rw (next, same)
        (nack_one-found u later sn q (lookup-marked s q ref_time sn ∙ h.found)
          ∙ ap (λ (d : Bool). if d then some q else none)
              (ap (due u later) reads ∙ due-mark u later ref_time m ne))
]

-- What `retransmitPackets` reads of a record.
pub record SameMeta (a b : PacketMeta) : Type 0 where
  pub source_seq_no : b.source_seq_no ≡ a.source_seq_no
  pub target_seq_no : b.target_seq_no ≡ a.target_seq_no
  pub timestamp : b.timestamp ≡ a.timestamp

pub mark-SameMeta : (t : ℕ) (m : PacketMeta) → SameMeta m (mark t m)
unfolding mark
mark-SameMeta t m = record { source_seq_no = refl; target_seq_no = refl; timestamp = refl }

due-never : (s : Sequencer) (t : ℕ) (m : PacketMeta) → m.last_nack ≡ 0 → due s t m ≡ true
unfolding due
due-never s t m fresh = ground arith

nack_one-due :
    (s : Sequencer) (t sn p : ℕ)
    → lookup s sn ≡ some p
    → due s t (get_or s.metas p zero_meta) ≡ true
    → nack_one s t sn
      ≡ (record s { metas = set s.metas p (mark t (get_or s.metas p zero_meta)) }, some p)
unfolding nack_one
nack_one-due s t sn p found d = rw (found, nack_one, d)

-- A NACK for one number whose record was never asked for hands out that record, marked.
pub get_packets_meta-fresh :
    (s : Sequencer) (now sn p : ℕ)
    → lookup s sn ≡ some p
    → (get_or s.metas p zero_meta).last_nack ≡ 0
    → let t = sub32 (now % 2 ^ 32) (s.start_time % 2 ^ 32) in
      get_packets_meta s now (sn ∷ [])
      ≡ (record s { metas = set s.metas p (mark t (get_or s.metas p zero_meta)) }, p ∷ [])
unfolding get_packets_meta nack_loop
get_packets_meta-fresh s now sn p found fresh =
    let t = sub32 (now % 2 ^ 32) (s.start_time % 2 ^ 32) in
    ap (λ (r : Sequencer × Option ℕ). (r.0, append_found r.1 []))
      (nack_one-due s t sn p found (due-never s t (get_or s.metas p zero_meta) fresh))
