-- ===== src/Transport/Clash.antt =====
-- Consumers of two transports of pkg/rtc/webrtc_transport.go that have the same id.
use go_ortc.Base.{
  ℕ, ◌+◌, ◌<◌, ◌≡◌, ◌≢◌, sym, ap, ◌∙◌, subst, Bool, Option, none, some, List, [], ◌∷◌, length,
  length-append, find, find_in, insert, find-insert_self, find-insert_ne, arith, inl, inr,
  Bool-cases, ◌==◌,
}
use go_ortc.Rtp.{RtpHeader, Pion}
use go_ortc.RtpStats.Types.{Float64}
use go_ortc.DownTrack.Types.{ExtPacket}
use go_ortc.Router.{Map, on_rtp_packet}
use go_ortc.Router.Forward.{Unreached, Skipped, on_rtp_packet-Skipped}
use go_ortc.Producer.{Producer}
use go_ortc.Transport.Types.{Store, Transport, rtp_consumer_id, id_code}
use go_ortc.Transport.Consume.{ConsumeAnswers, consume}
use go_ortc.Transport.Entered.{Consumed, consume-Consumed}

-- The pointers of the router's consumers lead to consumers.
abbrev pub InHeap : {J : Type 0} → Store J → Type 0
InHeap s = (id ptr : ℕ) → find_in s.router.consumers id ≡ some ptr → ptr < length s.consumers

abbrev of_map : Map ℕ → List (ℕ × ℕ)
of_map none = []
of_map (some m) = m

overwritten-Unreached :
    (m : List (ℕ × ℕ)) (id ptr ptr' : ℕ)
    → ptr < ptr'
    → ((k q : ℕ) → find m k ≡ some q → q < ptr)
    → Unreached (some (insert (insert m id ptr) id ptr')) ptr
overwritten-Unreached m id ptr ptr' below within k e = elim (Bool-cases (id == k)) [
  | inl same ↦
      let here : some ptr' ≡ some ptr =
        sym (find-insert_self (insert m id ptr) id ptr')
        ∙ subst (λ (j : ℕ). find (insert (insert m id ptr) id ptr') j ≡ some ptr) (ground arith)
            e in
      ground arith
  | inr other ↦
      let ne : id ≢ k = λ q. ground arith in
      let old : find m k ≡ some ptr =
        sym (find-insert_ne (insert m id ptr) id k ptr' ne ∙ find-insert_ne m id k ptr ne) ∙ e in
      let lt = within k ptr old in omega arith
]

module _ {J : Type 0} where
  second-Unreached :
      (s s1 s2 : Store J) (last : Option ℕ) (one two : Producer) (ptr ptr' : ℕ)
      → InHeap s
      → Consumed s last one s1 ptr
      → Consumed s1 last two s2 ptr'
      → Unreached s2.router.consumers ptr
  second-Unreached s s1 s2 last one two ptr ptr' v c d =
      let id : some c.id ≡ some d.id = sym c.numbered ∙ d.numbered in
      let same : c.id ≡ d.id = ground arith in
      let later : length s1.consumers ≡ length s.consumers + 1 =
        ap length c.grown ∙ length-append s.consumers (c.consumer ∷ []) in
      let below : ptr < ptr' = omega (arith, c.fresh, d.fresh, later) in
      let within : (k q : ℕ) → find c.entered.consumers k ≡ some q → q < ptr = λ k q e.
        let lt = v k q (ap (λ (o : Map ℕ). find_in o k) c.entered.had ∙ e) in
        omega (arith, c.fresh) in
      let between : some d.entered.consumers ≡ some (insert c.entered.consumers c.id ptr) =
        sym d.entered.had ∙ c.entered.has in
      let all : s2.router.consumers
          ≡ some (insert (insert c.entered.consumers c.id ptr) c.id ptr') =
        d.entered.has
        ∙ ap (λ (o : Map ℕ). some (insert (of_map o) d.id ptr')) between
        ∙ ap (λ (i : ℕ). some (insert (insert c.entered.consumers c.id ptr) i ptr')) (sym same) in
      subst (λ (o : Map ℕ). Unreached o ptr) (sym all)
        (overwritten-Unreached c.entered.consumers c.id ptr ptr' below within)

-- Ids are counted on each transport, but the router has one map for all of them. When two transports
-- whose last consumer ids are the same (so any two that have no consumer yet) each make a consumer,
-- one after the other and without an error, the router no longer reaches the first of the two: in the
-- state that is left, whatever packet a producer sends, the first consumer is left as it was and no
-- call is made for it.
pub consume-Skipped :
    {J : Type 0} ⦃f : Float64 J⦄ (s s1 s2 : Store J) (t t1 u u1 : Transport)
    (answers answers' : ConsumeAnswers) (now now' producer_id producer_id' : ℕ)
    (paused paused' : Bool) (ptr ptr' : ℕ)
    → InHeap s
    → find t.ids_map (id_code rtp_consumer_id) ≡ find u.ids_map (id_code rtp_consumer_id)
    → consume answers now s t producer_id paused ≡ some ((s1, t1), some ptr)
    → consume answers' now' s1 u producer_id' paused' ≡ some ((s2, u1), some ptr')
    → (p : Pion) (writes : ℕ → RtpHeader → List ℕ → Bool) (later : ℕ) (ext : ExtPacket) (sender : ℕ)
    → Skipped p writes later ext ptr s2.consumers
        (on_rtp_packet p writes later s2.router sender ext s2.consumers)
consume-Skipped s s1 s2 t t1 u u1 answers answers' now now' producer_id producer_id' paused paused'
      ptr ptr' v same made made' p writes later ext sender =
    let (one, _, c) = consume-Consumed answers now s t producer_id paused s1 t1 ptr made in
    let (two, _, d) = consume-Consumed answers' now' s1 u producer_id' paused' s2 u1 ptr' made' in
    on_rtp_packet-Skipped p writes later ext s2.router ptr sender s2.consumers (
      second-Unreached s s1 s2 (find t.ids_map (id_code rtp_consumer_id)) one two ptr ptr' v c
        (subst (λ (o : Option ℕ). Consumed s1 o two s2 ptr') (sym same) d))
