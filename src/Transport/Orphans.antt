-- ===== src/Transport/Orphans.antt =====
-- What `Produce` of pkg/rtc/webrtc_transport.go does to the consumers of an earlier producer.
use go_ortc.Base.{
  ℕ, true, ◌≡◌, refl, sym, ◌∙◌, subst, Bool, not, ◌||◌, Option, none, some, List, [], length,
  if_both, find, find_in, insert, find-insert_self,
}
use go_ortc.Rtp.{RtpHeader, Pion}
use go_ortc.RtpStats.Types.{Float64}
use go_ortc.DownTrack.Types.{ExtPacket}
use go_ortc.Router.{
  Map, Router, insert_in, register_producer, add_producer, forward_to, on_rtp_packet,
}
use go_ortc.Producer.{Producer, new_producer}
use go_ortc.Transport.Types.{
  Store, Transport, rtp_producer_id, id_code, next_counted, with_id, Made,
}
use go_ortc.Transport.Produce.{ProduceAnswers, keep_producer, added_producer, produce_as, produce}

-- The list of an id is empty.
abbrev Emptied : ℕ → Router → Type 0
Emptied id r = find_in r.producer_id_to_consumer_ids_map id ≡ some []

abbrev EmptiedBy : ℕ → Option Router → Type 0
EmptiedBy id none = Unit {0}
EmptiedBy id (some r) = Emptied id r

abbrev MadeEmptied : {J : Type 0} → (last : Option ℕ) → Made J → Type 0
MadeEmptied last none = Unit {0}
MadeEmptied last (some (state, none)) = Unit {0}
MadeEmptied last (some ((s, t), some ptr)) =
    (id : ℕ) → next_counted last ≡ some id → Emptied id s.router

register_producer-EmptiedBy :
    (r : Router) (id ptr : ℕ) (producers : Option (Map ℕ)) (lists : Map (List ℕ))
    → EmptiedBy id (register_producer r id ptr producers (insert_in lists id []))
register_producer-EmptiedBy r id ptr none lists = tt
register_producer-EmptiedBy r id ptr (some producers) none = tt
register_producer-EmptiedBy r id ptr (some producers) (some lists) = find-insert_self lists id []

module _ {J : Type 0} where
  keep_producer-MadeEmptied :
      (last : Option ℕ) (s : Store J) (t : Transport) (r : Router) (producer : Producer)
      (o : Option (Map ℕ))
      → next_counted last ≡ some producer.id
      → Emptied producer.id r
      → MadeEmptied last (keep_producer s t r producer o)
  keep_producer-MadeEmptied last s t r producer none is e = tt
  keep_producer-MadeEmptied last s t r producer (some m) is e = λ id next.
      let both : some producer.id ≡ some id = sym is ∙ next in
      let same : producer.id ≡ id = cc in subst (λ (k : ℕ). Emptied k r) same e

  added_producer-MadeEmptied :
      (last : Option ℕ) (s : Store J) (t : Transport) (producer : Producer) (o : Option Router)
      → next_counted last ≡ some producer.id
      → EmptiedBy producer.id o
      → MadeEmptied last (added_producer s t producer o)
  added_producer-MadeEmptied last s t producer none is e = tt
  added_producer-MadeEmptied last s t producer (some r) is e =
      keep_producer-MadeEmptied last s t r producer _ is e

  produce_as-MadeEmptied :
      (last : Option ℕ) (s : Store J) (t : Transport) (answers : ProduceAnswers) (o : Option ℕ)
      → next_counted last ≡ o
      → MadeEmptied last (produce_as s answers (with_id t rtp_producer_id o))
  unfolding add_producer
  produce_as-MadeEmptied last s t answers none is = tt
  produce_as-MadeEmptied last s t answers (some id) is =
      if_both (MadeEmptied last) (not answers.buffers) (λ _. tt)
        (λ _.
          added_producer-MadeEmptied last s (record t { ids_map = insert t.ids_map 1 id })
            (new_producer id answers.kind answers.codec)
            (add_producer s.router id (length s.producers)) is
            (register_producer-EmptiedBy s.router id (length s.producers)
              (insert_in s.router.producers id (length s.producers))
              s.router.producer_id_to_consumer_ids_map))

  produce-MadeEmptied :
      (s : Store J) (t : Transport) (answers : ProduceAnswers)
      → MadeEmptied (find t.ids_map (id_code rtp_producer_id)) (produce s t answers)
  unfolding produce
  produce-MadeEmptied s t answers =
      if_both (MadeEmptied (find t.ids_map 1))
        (not answers.engine || (not answers.receiver || not answers.receive)) (λ _. tt)
        (λ _.
          produce_as-MadeEmptied (find t.ids_map 1) s (record t { has_twcc = true }) answers _ refl)

-- A `Produce` that returns no error empties the list of consumers under the id it takes, which is the
-- next one of its transport, whether or not another transport's producer has that id already: right
-- after it, no packet that a producer of this id sends leads to a call or changes a consumer.
pub produce-Orphans :
    {J : Type 0} ⦃f : Float64 J⦄ (s s' : Store J) (t t' : Transport) (answers : ProduceAnswers)
    (ptr id : ℕ)
    → produce s t answers ≡ some ((s', t'), some ptr)
    → next_counted (find t.ids_map (id_code rtp_producer_id)) ≡ some id
    → (p : Pion) (writes : ℕ → RtpHeader → List ℕ → Bool) (now : ℕ) (ext : ExtPacket)
    → on_rtp_packet p writes now s'.router id ext s'.consumers ≡ (s'.consumers, [])
unfolding on_rtp_packet forward_to
produce-Orphans s s' t t' answers ptr id made next p writes now ext =
    let emptied : Emptied id s'.router =
      subst (MadeEmptied (find t.ids_map 1)) made (produce-MadeEmptied s t answers) id next in
    rw (emptied, on_rtp_packet) refl
