-- ===== src/Sequencer/Answers.antt =====
-- `getPacketsMeta` of pkg/rtc/sequencer.go: the records that it hands out were asked for.
use go_ortc.Base.{
  ℕ, ◌+◌, ◌%◌, ◌^◌, ◌<◌, ◌≡◌, ◌⊎◌, inl, inr, refl, sym, ap, ◌∙◌, ltb, leb, ◌==◌, ◌||◌, Option, none,
  some, List, [], ◌∷◌, arith, get_or, if_both, ◌≤◌, subst, All,
}
use go_ortc.Base.Words.{sub16, sub32}
use go_ortc.Base.Int.{sub_ℕ}
use go_ortc.Sequencer.{
  Sequencer, PacketMeta, zero_meta, lookup, checked, wrap, nack_loop, get_packets_meta,
}
use go_ortc.Sequencer.Nack.{nack_one_cases, lookup-marked}

-- `x` is one of the list.
abbrev pub OneOf : ℕ → List ℕ → Type 0
OneOf x [] = ⊥
OneOf x (y ∷ ys) = (x ≡ y) ⊎ OneOf x ys

-- A pointer is the answer to one of the requested numbers, which lies in the window of the ring.
pub record Answer (s : Sequencer) (sn p : ℕ) : Type 0 where
  pub recent : sub16 s.head_sn sn ≤ 32768
  pub in_ring : sub16 s.head_sn sn < s.max
  pub at_slot : get_or s.seq (wrap s.max (sub_ℕ s.step (sub16 s.head_sn sn + 1))) none ≡ some p
  pub of_number : (get_or s.metas p zero_meta).target_seq_no ≡ sn

abbrev pub Answers : Sequencer → List ℕ → ℕ → Type 0
Answers s sns p = (sn : ℕ) × OneOf sn sns × Answer s sn p

abbrev target_of : List PacketMeta → ℕ → ℕ
target_of metas p = (get_or metas p zero_meta).target_seq_no

abbrev TargetIn : List PacketMeta → (sn : ℕ) → Option ℕ → Type 0
TargetIn metas sn none = Unit {0}
TargetIn metas sn (some p) = target_of metas p ≡ sn

checked-target :
    (metas : List PacketMeta) (sn p : ℕ) (o : Option ℕ)
    → checked metas sn o ≡ some p
    → (o ≡ some p) × ((get_or metas p zero_meta).target_seq_no ≡ sn)
unfolding checked
checked-target metas sn p none e = absurd (cc)
checked-target metas sn p (some q) e =
    if_both (λ (o : Option ℕ). o ≡ some p → (some q ≡ some p) × (target_of metas p ≡ sn))
      (target_of metas q == sn)
      (λ hit is. (is, subst (λ (i : Option ℕ). TargetIn metas sn i) is (ground arith)))
      (λ _ is. absurd (cc)) e

-- What a look-up finds is in the window, and is the record of the number.
lookup-Answer : (s : Sequencer) (sn p : ℕ) → lookup s sn ≡ some p → Answer s sn p
unfolding lookup
lookup-Answer s sn p e =
    let o = get_or s.seq (wrap s.max (sub_ℕ s.step (sub16 s.head_sn sn + 1))) none in
    if_both (λ (r : Option ℕ). r ≡ some p → Answer s sn p)
      (ltb 32768 (sub16 s.head_sn sn) || leb s.max (sub16 s.head_sn sn)) (λ _ is. absurd (cc))
      (λ inside is.
        let (slot, number) = checked-target s.metas sn p o is in
        record {
          recent = ground arith;
          in_ring = ground arith;
          at_slot = slot;
          of_number = number;
        })
      e

abbrev Looks : Sequencer → List ℕ → ℕ → Type 0
Looks s sns p = (sn : ℕ) × OneOf sn sns × (lookup s sn ≡ some p)

Looks-weaken :
    (s : Sequencer) (sns : List ℕ) (sn : ℕ) (out : List ℕ)
    → All (Looks s sns) out
    → All (Looks s (sn ∷ sns)) out
Looks-weaken s sns sn [] h = tt
Looks-weaken s sns sn (p ∷ out) ((n, m, e), h) = ((n, inr m, e), Looks-weaken s sns sn out h)

Looks-of_same :
    (s t : Sequencer) (sns out : List ℕ)
    → ((sn : ℕ) → lookup t sn ≡ lookup s sn)
    → All (Looks t sns) out
    → All (Looks s sns) out
Looks-of_same s t sns [] same h = tt
Looks-of_same s t sns (p ∷ out) same ((n, m, e), h) =
    ((n, m, sym (same n) ∙ e), Looks-of_same s t sns out same h)

nack_loop-Looks :
    (s : Sequencer) (ref_time : ℕ) (sns : List ℕ) → All (Looks s sns) (nack_loop s ref_time sns).1
unfolding nack_loop
nack_loop-Looks s ref_time [] = tt
nack_loop-Looks s ref_time (sn ∷ sns) = elim (nack_one_cases s ref_time sn) [
  | inl skip ↦
      rw (skip, nack_loop)
        (Looks-weaken s sns sn (nack_loop s ref_time sns).1 (nack_loop-Looks s ref_time sns))
  | inr (p, t, step, h) ↦
      let same : (n : ℕ) → lookup t n ≡ lookup s n =
        λ n. ap (λ (u : Sequencer). lookup u n) h.marked ∙ lookup-marked s p ref_time n in
      let rest = (nack_loop t ref_time sns).1 in
      rw (step, nack_loop)
        (
          (sn, inl refl, h.found),
          Looks-of_same s t (sn ∷ sns) rest same
              (Looks-weaken t sns sn rest (nack_loop-Looks t ref_time sns)),
        )
]

Looks-Answers : (s : Sequencer) (sns out : List ℕ) → All (Looks s sns) out → All (Answers s sns) out
Looks-Answers s sns [] h = tt
Looks-Answers s sns (p ∷ out) ((sn, m, e), h) =
    ((sn, m, lookup-Answer s sn p e), Looks-Answers s sns out h)

-- Every record that `getPacketsMeta` hands out was asked for: it stands, before the call, in the slot
-- of the ring that belongs to one of the numbers of the request, this number is at most 32768 and
-- less than the size of the ring behind the head, and it is the number under which the record's
-- packet was sent.
pub get_packets_meta-Answers :
    (s : Sequencer) (now : ℕ) (seq_no : List ℕ)
    → All (Answers s seq_no) (get_packets_meta s now seq_no).1
unfolding get_packets_meta
get_packets_meta-Answers s now seq_no =
    Looks-Answers s seq_no _
      (nack_loop-Looks s (sub32 (now % 2 ^ 32) (s.start_time % 2 ^ 32)) seq_no)
