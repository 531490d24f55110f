-- ===== src/Transport/Served.antt =====
-- A consumer that `Consume` of pkg/rtc/webrtc_transport.go made, and the packets of its producer.
use go_ortc.Base.{
  ℕ, ◌<◌, ◌≡◌, ◌≢◌, sym, ap, ◌∙◌, subst, Bool, Option, none, some, List, [], ◌∷◌, ◌++◌, length,
  find, find_in, insert, find-insert_self, find-insert_ne, arith, All,
}
use go_ortc.Rtp.{RtpHeader, Pion}
use go_ortc.RtpStats.Types.{Float64}
use go_ortc.DownTrack.Types.{ExtPacket}
use go_ortc.Router.{Map, on_rtp_packet}
use go_ortc.Router.Forward.{Resolves, nothing, leads, Distinct, Delivered, on_rtp_packet-Delivered}
use go_ortc.Producer.{Producer}
use go_ortc.Transport.Types.{Store, Transport, rtp_consumer_id, id_code, next_counted}
use go_ortc.Transport.Consume.{ConsumeAnswers, at_pointer, consume}
use go_ortc.Transport.Entered.{Consumed, consume-Consumed}
use go_ortc.Transport.Clash.{InHeap}

Resolves-insert :
    (m : List (ℕ × ℕ)) (id ptr : ℕ) (ids ptrs : List ℕ)
    → find m id ≡ none
    → Resolves (some m) ids ptrs
    → Resolves (some (insert m id ptr)) (ids ++ (id ∷ [])) (ptrs ++ (ptr ∷ []))
Resolves-insert m id ptr [] [] absent nothing = leads (find-insert_self m id ptr) nothing
Resolves-insert m id ptr [] (q ∷ qs) absent r = elim r [ ]
Resolves-insert m id ptr (k ∷ ks) [] absent r = elim r [ ]
Resolves-insert m id ptr (k ∷ ks) (q ∷ qs) absent (leads found rest) =
    let ne : id ≢ k = λ e.
      let clash : none ≡ some q = sym (subst (λ (j : ℕ). find m j ≡ none) e absent) ∙ found in
      ground arith in
    leads (find-insert_ne m id k ptr ne ∙ found) (Resolves-insert m id ptr ks qs absent rest)

All-append_one : (P : ℕ → Type 0) (xs : List ℕ) (x : ℕ) → All P xs → P x → All P (xs ++ (x ∷ []))
All-append_one P [] x h p = (p, tt)
All-append_one P (y ∷ ys) x (q, h) p = (q, All-append_one P ys x h p)

Resolves-below :
    (m : Map ℕ) (bound : ℕ) (ids ptrs : List ℕ)
    → ((id ptr : ℕ) → find_in m id ≡ some ptr → ptr < bound)
    → Resolves m ids ptrs
    → All (λ (q : ℕ). q < bound) ptrs
Resolves-below m bound [] [] within nothing = tt
Resolves-below m bound [] (q ∷ qs) within r = elim r [ ]
Resolves-below m bound (k ∷ ks) [] within r = elim r [ ]
Resolves-below m bound (k ∷ ks) (q ∷ qs) within (leads found rest) =
    (within k q found, Resolves-below m bound ks qs within rest)

Distinct-append_one :
    (xs : List ℕ) (x : ℕ) → Distinct xs → All (λ (q : ℕ). q < x) xs → Distinct (xs ++ (x ∷ []))
Distinct-append_one [] x d h = (tt, tt)
Distinct-append_one (y ∷ ys) x (apart, d) (lt, h) =
    (All-append_one (λ (q : ℕ). y ≢ q) ys x apart (λ e. omega arith), Distinct-append_one ys x d h)

module _ {J : Type 0} ⦃f : Float64 J⦄ (p : Pion) (writes : ℕ → RtpHeader → List ℕ → Bool)
    (later : ℕ) (ext : ExtPacket) where
  Consumed-Delivered :
      (s s' : Store J) (last : Option ℕ) (producer : Producer) (producer_id ptr : ℕ)
      (ids ptrs : List ℕ)
      → InHeap s
      → producer.id ≡ producer_id
      → find_in s.router.producer_id_to_consumer_ids_map producer_id ≡ some ids
      → Resolves s.router.consumers ids ptrs
      → Distinct ptrs
      → ((id : ℕ) → next_counted last ≡ some id → find_in s.router.consumers id ≡ none)
      → Consumed s last producer s' ptr
      → Delivered p writes later ext
          (ptrs ++ (ptr ∷ []))
          s'.consumers
          (on_rtp_packet p writes later s'.router producer_id ext s'.consumers)
  Consumed-Delivered s s' last producer producer_id ptr ids ptrs v is listed resolved apart unused
        c =
      let e = c.entered in
      let absent : find e.consumers c.id ≡ none =
        subst (λ (m : Map ℕ). find_in m c.id ≡ none) e.had (unused c.id c.numbered) in
      let some_ids : some e.ids ≡ some ids =
        sym e.listed
        ∙ ap (λ (k : ℕ). find e.lists k) is
        ∙ sym (ap (λ (m : Map (List ℕ)). find_in m producer_id) e.had_lists)
        ∙ listed in
      let same : e.ids ≡ ids = cc in
      let now_listed : find_in s'.router.producer_id_to_consumer_ids_map producer_id
          ≡ some (ids ++ (c.id ∷ [])) =
        ap (λ (m : Map (List ℕ)). find_in m producer_id) e.has_lists
        ∙ subst
            (λ (k : ℕ).
              find (insert e.lists producer.id (e.ids ++ (c.id ∷ []))) k
              ≡ some (e.ids ++ (c.id ∷ [])))
            is (find-insert_self e.lists producer.id (e.ids ++ (c.id ∷ [])))
        ∙ ap (λ (l : List ℕ). some (l ++ (c.id ∷ []))) same in
      let before = subst (λ (m : Map ℕ). Resolves m ids ptrs) e.had resolved in
      let after : Resolves s'.router.consumers (ids ++ (c.id ∷ [])) (ptrs ++ (ptr ∷ [])) =
        subst (λ (m : Map ℕ). Resolves m (ids ++ (c.id ∷ [])) (ptrs ++ (ptr ∷ []))) (sym e.has)
          (Resolves-insert e.consumers c.id ptr ids ptrs absent before) in
      let below : All (λ (q : ℕ). q < ptr) ptrs =
        subst (λ (n : ℕ). All (λ (q : ℕ). q < n) ptrs) (sym c.fresh)
          (Resolves-below s.router.consumers (length s.consumers) ids ptrs v resolved) in
      on_rtp_packet-Delivered p writes later ext s'.router producer_id (ids ++ (c.id ∷ []))
        (ptrs ++ (ptr ∷ [])) s'.consumers now_listed after
        (Distinct-append_one ptrs ptr apart below)

  -- Where the next consumer id of the transport is not yet one of the router's, and the consumers of a
  -- producer are apart, a `Consume` of the producer that returns no error makes a new consumer such
  -- that, in the state right after the call, a packet of the producer, whichever it is, leads to
  -- exactly one call of `Write` on this consumer and on each of the earlier ones, and on nobody else.
  pub consume-Delivered :
      (s s' : Store J) (t t' : Transport) (answers : ConsumeAnswers) (now producer_id : ℕ)
      (paused : Bool) (producer : Producer) (ptr : ℕ) (ids ptrs : List ℕ)
      → InHeap s
      → at_pointer s.producers (find_in s.router.producers producer_id) ≡ some producer
      → producer.id ≡ producer_id
      → find_in s.router.producer_id_to_consumer_ids_map producer_id ≡ some ids
      → Resolves s.router.consumers ids ptrs
      → Distinct ptrs
      → ((id : ℕ)
          → next_counted (find t.ids_map (id_code rtp_consumer_id)) ≡ some id
          → find_in s.router.consumers id ≡ none)
      → consume answers now s t producer_id paused ≡ some ((s', t'), some ptr)
      → Delivered p writes later ext
          (ptrs ++ (ptr ∷ []))
          s'.consumers
          (on_rtp_packet p writes later s'.router producer_id ext s'.consumers)
  consume-Delivered s s' t t' answers now producer_id paused producer ptr ids ptrs v found is listed
        resolved apart unused made =
      let (one, at, c) = consume-Consumed answers now s t producer_id paused s' t' ptr made in
      let both : some one ≡ some producer = sym at ∙ found in
      let same : one ≡ producer = cc in
      Consumed-Delivered s s' (find t.ids_map (id_code rtp_consumer_id)) one producer_id ptr ids
        ptrs v (ap (λ (q : Producer). q.id) same ∙ is) listed resolved apart unused c
