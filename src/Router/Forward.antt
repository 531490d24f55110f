-- ===== src/Router/Forward.antt =====
-- What the router of pkg/rtc/router.go does with a packet of a producer.
use go_ortc.Base.{
  ℕ, zero, suc, ◌≡◌, ◌≢◌, refl, sym, ap, ap₂, ◌∙◌, subst, Bool, true, false, Option, none, some,
  List, [], ◌∷◌, ◌==◌, if◌then◌else◌, get_elem?, find_in, arith, inl, inr, All, Bool-cases,
  Option-cases,
}
use go_ortc.Rtp.{RtpHeader, Pion}
use go_ortc.RtpStats.Types.{Float64}
use go_ortc.DownTrack.Types.{ExtPacket, Effect}
use go_ortc.Consumer.{Consumer, write}
use go_ortc.Router.{Map, Router, write_to, forward_to, on_rtp_packet}

-- The pointers that a list of ids leads to.
pub data Resolves (consumers : Map ℕ) : List ℕ → List ℕ → Type 0 where
  nothing : Resolves consumers [] []
  leads :
      {id ptr : ℕ} {ids ptrs : List ℕ}
      → find_in consumers id ≡ some ptr
      → Resolves consumers ids ptrs
      → Resolves consumers (id ∷ ids) (ptr ∷ ptrs)

abbrev pub Distinct : List ℕ → Type 0
Distinct [] = Unit {0}
Distinct (x ∷ xs) = All (λ (y : ℕ). x ≢ y) xs × Distinct xs

abbrev pub member : ℕ → List ℕ → Bool
member x [] = false
member x (y ∷ ys) = if x == y then true else member x ys

-- No id leads to the pointer.
abbrev pub Unreached : Map ℕ → (ptr : ℕ) → Type 0
Unreached consumers ptr = (id : ℕ) → find_in consumers id ≢ some ptr

member-All : (x : ℕ) (xs : List ℕ) → All (λ (y : ℕ). x ≢ y) xs → member x xs ≡ false
member-All x [] h = refl
member-All x (y ∷ ys) (ne, h) = let rest = member-All x ys h in ground arith

module _ {J : Type 0} ⦃f : Float64 J⦄ (p : Pion) (writes : ℕ → RtpHeader → List ℕ → Bool) (now : ℕ)
    (ext : ExtPacket) where
  -- The consumer at a pointer after one call of `Write`, and the calls that it makes.
  abbrev pub served : ℕ → Option (Consumer J) → Option (Consumer J)
  served ptr none = none
  served ptr (some c) = some (write p (writes ptr) now c ext).consumer

  abbrev pub calls_of : ℕ → Option (Consumer J) → List Effect
  calls_of ptr none = []
  calls_of ptr (some c) = (write p (writes ptr) now c ext).effects

  abbrev pub all_calls : List ℕ → List (Consumer J) → List (ℕ × List Effect)
  all_calls [] heap = []
  all_calls (ptr ∷ ptrs) heap = (ptr, calls_of ptr (get_elem? heap ptr)) ∷ all_calls ptrs heap

  write_to-calls :
      (ptr k : ℕ) (heap : List (Consumer J))
      → (write_to p writes now ext ptr k heap).1 ≡ calls_of ptr (get_elem? heap k)
  write_to-calls ptr k [] = refl
  write_to-calls ptr zero (c ∷ cs) = refl
  write_to-calls ptr (suc k) (c ∷ cs) = write_to-calls ptr k cs

  write_to_self :
      (ptr k : ℕ) (heap : List (Consumer J))
      → get_elem? (write_to p writes now ext ptr k heap).0 k ≡ served ptr (get_elem? heap k)
  write_to_self ptr k [] = refl
  write_to_self ptr zero (c ∷ cs) = refl
  write_to_self ptr (suc k) (c ∷ cs) = write_to_self ptr k cs

  write_to-other :
      (ptr k i : ℕ) (heap : List (Consumer J))
      → k ≢ i
      → get_elem? (write_to p writes now ext ptr k heap).0 i ≡ get_elem? heap i
  write_to-other ptr k i [] ne = refl
  write_to-other ptr zero zero (c ∷ cs) ne = absurd (ne refl)
  write_to-other ptr zero (suc i) (c ∷ cs) ne = refl
  write_to-other ptr (suc k) zero (c ∷ cs) ne = refl
  write_to-other ptr (suc k) (suc i) (c ∷ cs) ne = write_to-other ptr k i cs (λ e. ne (ap suc e))

  all_calls-other :
      (ptr : ℕ) (ptrs : List ℕ) (heap : List (Consumer J))
      → All (λ (q : ℕ). ptr ≢ q) ptrs
      → all_calls ptrs (write_to p writes now ext ptr ptr heap).0 ≡ all_calls ptrs heap
  all_calls-other ptr [] heap h = refl
  all_calls-other ptr (q ∷ qs) heap (ne, h) =
      ap₂ (λ (o : Option (Consumer J)) (rest : List (ℕ × List Effect)). (q, calls_of q o) ∷ rest)
        (write_to-other ptr ptr q heap ne) (all_calls-other ptr qs heap h)

  -- Each pointer is served once, and the other consumers are left alone.
  pub record Delivered (ptrs : List ℕ) (heap : List (Consumer J))
      (r : List (Consumer J) × List (ℕ × List Effect)) : Type 0 where
    pub each_once :
        (i : ℕ)
        → get_elem? r.0 i
          ≡ (if member i ptrs then served i (get_elem? heap i) else get_elem? heap i)
    pub calls : r.1 ≡ all_calls ptrs heap

  Delivered-step :
      (ptr : ℕ) (ptrs : List ℕ) (heap : List (Consumer J))
      (r : List (Consumer J) × List (ℕ × List Effect))
      → All (λ (q : ℕ). ptr ≢ q) ptrs
      → Delivered ptrs (write_to p writes now ext ptr ptr heap).0 r
      → Delivered (ptr ∷ ptrs) heap (r.0, (ptr, (write_to p writes now ext ptr ptr heap).1) ∷ r.1)
  Delivered-step ptr ptrs heap r apart d = record {
    each_once = λ i. elim (Bool-cases (i == ptr)) [
      | inl e ↦
          let same : i ≡ ptr = ground arith in
          let absent : member i ptrs ≡ false =
            subst (λ (k : ℕ). member k ptrs ≡ false) (sym same) (member-All ptr ptrs apart) in
          let here = write_to_self ptr ptr heap in
          let step = d.each_once i in
          rw e (
            step
            ∙ ap
                (λ (b : Bool).
                  if b
                  then served i (get_elem? (write_to p writes now ext ptr ptr heap).0 i)
                  else get_elem? (write_to p writes now ext ptr ptr heap).0 i)
                absent
            ∙ subst
                (λ (k : ℕ).
                  get_elem? (write_to p writes now ext ptr ptr heap).0 k
                  ≡ served k (get_elem? heap k))
                (sym same) here)
      | inr e ↦
          let other = write_to-other ptr ptr i heap (λ q. ground arith) in
          rw e (
            d.each_once i
            ∙ ap (λ (o : Option (Consumer J)). if member i ptrs then served i o else o) other)
    ];
    calls =
        ap₂ (λ (es : List Effect) (rest : List (ℕ × List Effect)). (ptr, es) ∷ rest)
          (write_to-calls ptr ptr heap) (d.calls ∙ all_calls-other ptr ptrs heap apart);
  }

  forward_to-Delivered :
      (consumers : Map ℕ) (ids ptrs : List ℕ) (heap : List (Consumer J))
      → Resolves consumers ids ptrs
      → Distinct ptrs
      → Delivered ptrs heap (forward_to p writes now consumers ids ext heap)
  unfolding forward_to
  forward_to-Delivered consumers [] [] heap nothing apart = record {
    each_once = λ i. refl;
    calls = refl;
  }
  forward_to-Delivered consumers [] (ptr ∷ ptrs) heap r apart = elim r [ ]
  forward_to-Delivered consumers (id ∷ ids) [] heap r apart = elim r [ ]
  forward_to-Delivered consumers (id ∷ ids) (ptr ∷ ptrs) heap (leads found rest) (apart, others) =
      rw (found, forward_to)
        (Delivered-step ptr ptrs heap _ apart (
          forward_to-Delivered consumers ids ptrs (write_to p writes now ext ptr ptr heap).0 rest
            others))

  -- If each id in the list of a producer leads to a consumer of its own, a packet of the producer is
  -- written to each of these consumers exactly once, in the order of the list, whether or not the
  -- writes succeed, and every other consumer is left as it was.
  pub on_rtp_packet-Delivered :
      (r : Router) (producer_id : ℕ) (ids ptrs : List ℕ) (heap : List (Consumer J))
      → find_in r.producer_id_to_consumer_ids_map producer_id ≡ some ids
      → Resolves r.consumers ids ptrs
      → Distinct ptrs
      → Delivered ptrs heap (on_rtp_packet p writes now r producer_id ext heap)
  unfolding on_rtp_packet
  on_rtp_packet-Delivered r producer_id ids ptrs heap listed resolved apart =
      rw (listed, on_rtp_packet) (forward_to-Delivered r.consumers ids ptrs heap resolved apart)

  -- The consumer at a pointer is as it was, and no call is made for it.
  abbrev pub Skipped :
      (ptr : ℕ) → List (Consumer J) → List (Consumer J) × List (ℕ × List Effect) → Type 0
  Skipped ptr heap r =
      (get_elem? r.0 ptr ≡ get_elem? heap ptr) × All (λ (e : ℕ × List Effect). e.0 ≢ ptr) r.1

  forward_to-Skipped :
      (consumers : Map ℕ) (ptr : ℕ) (ids : List ℕ) (heap : List (Consumer J))
      → Unreached consumers ptr
      → Skipped ptr heap (forward_to p writes now consumers ids ext heap)
  unfolding forward_to
  forward_to-Skipped consumers ptr [] heap off = (refl, tt)
  forward_to-Skipped consumers ptr (id ∷ ids) heap off =
      elim (Option-cases (find_in consumers id)) [
        | inl e ↦ rw (e, forward_to) (refl, tt)
        | inr (q, e) ↦
            let ne : q ≢ ptr = λ h. off id (e ∙ ap some h) in
            let (kept, apart) =
              forward_to-Skipped consumers ptr ids (write_to p writes now ext q q heap).0 off in
            rw (e, forward_to) (kept ∙ write_to-other q q ptr heap ne, (ne, apart))
      ]

  pub on_rtp_packet-Skipped :
      (r : Router) (ptr producer_id : ℕ) (heap : List (Consumer J))
      → Unreached r.consumers ptr
      → Skipped ptr heap (on_rtp_packet p writes now r producer_id ext heap)
  unfolding on_rtp_packet
  on_rtp_packet-Skipped r ptr producer_id heap off =
      elim (Option-cases (find_in r.producer_id_to_consumer_ids_map producer_id)) [
        | inl e ↦ rw (e, on_rtp_packet) (refl, tt)
        | inr (ids, e) ↦ rw (e, on_rtp_packet) (forward_to-Skipped r.consumers ptr ids heap off)
      ]
