-- ===== src/Transport/Entered.antt =====
-- What a successful `Consume` of pkg/rtc/webrtc_transport.go enters in the maps of the router.
use go_ortc.Base.{
  ℕ, ◌/◌, ◌≡◌, refl, sym, ap, ◌∙◌, subst, Bool, true, false, not, ◌&&◌, Option, none, some, List,
  [], ◌∷◌, ◌++◌, length, if_both, find, find_in, insert, find-insert_ne, arith,
}
use go_ortc.RtpStats.Types.{Float64}
use go_ortc.DownTrack.Types.{DownTrack, Outcome}
use go_ortc.DownTrack.Lifecycle.{TrackLocalContext, bind}
use go_ortc.Router.{Map, Router, append_consumer, add_to, add_consumer}
use go_ortc.Consumer.{Consumer}
use go_ortc.Producer.{Producer}
use go_ortc.Transport.Types.{
  Store, Transport, rtp_consumer_id, id_code, next_counted, next_mid, with_id, Made,
}
use go_ortc.Transport.Consume.{
  ConsumeAnswers, keep_consumer, added_consumer, finish_consume, send, new_consumer, track_for,
  consume_of, at_pointer, consume,
}

-- The entries of a consumer that the router took.
pub record Entered (r : Router) (id producer_id ptr : ℕ) (r' : Router) : Type 0 where
  pub consumers : List (ℕ × ℕ)
  pub lists : List (ℕ × List ℕ)
  pub ids : List ℕ
  pub had : r.consumers ≡ some consumers
  pub has : r'.consumers ≡ some (insert consumers id ptr)
  pub had_lists : r.producer_id_to_consumer_ids_map ≡ some lists
  pub listed : find lists producer_id ≡ some ids
  pub has_lists :
      r'.producer_id_to_consumer_ids_map ≡ some (insert lists producer_id (ids ++ (id ∷ [])))

abbrev EnteredBy : Router → (id producer_id ptr : ℕ) → Option (Router × Bool) → Type 0
EnteredBy r id producer_id ptr none = Unit {0}
EnteredBy r id producer_id ptr (some (r', false)) = Unit {0}
EnteredBy r id producer_id ptr (some (r', true)) = Entered r id producer_id ptr r'

append_consumer-EnteredBy :
    (r : Router) (id producer_id ptr : ℕ) (consumers : List (ℕ × ℕ)) (lists : Map (List ℕ))
    (o : Option (List ℕ))
    → r.consumers ≡ some consumers
    → r.producer_id_to_consumer_ids_map ≡ lists
    → find_in lists producer_id ≡ o
    → EnteredBy r id producer_id ptr (
        append_consumer
          (record r { consumers = some (insert consumers id ptr) })
          id
          producer_id
          lists
          o)
append_consumer-EnteredBy r id producer_id ptr consumers lists none had l q = tt
append_consumer-EnteredBy r id producer_id ptr consumers none (some ids) had l q = tt
append_consumer-EnteredBy r id producer_id ptr consumers (some lists) (some ids) had l q = record {
  consumers = consumers;
  lists = lists;
  ids = ids;
  had = had;
  has = refl;
  had_lists = l;
  listed = q;
  has_lists = refl;
}

add_to-EnteredBy :
    (r : Router) (id producer_id ptr : ℕ) (o : Map ℕ)
    → r.consumers ≡ o
    → EnteredBy r id producer_id ptr (add_to r id producer_id ptr o)
add_to-EnteredBy r id producer_id ptr none had = tt
add_to-EnteredBy r id producer_id ptr (some consumers) had =
    append_consumer-EnteredBy r id producer_id ptr consumers r.producer_id_to_consumer_ids_map
      (find_in r.producer_id_to_consumer_ids_map producer_id) had refl refl

-- The state that a successful `Consume` leaves, for the last id of a consumer of the transport.
pub record Consumed {J : Type 0} (s : Store J) (last : Option ℕ) (producer : Producer)
    (s' : Store J) (ptr : ℕ) : Type 0 where
  pub id : ℕ
  pub consumer : Consumer J
  pub numbered : next_counted last ≡ some id
  pub fresh : ptr ≡ length s.consumers
  pub grown : s'.consumers ≡ s.consumers ++ (consumer ∷ [])
  pub entered : Entered s.router id producer.id ptr s'.router

abbrev ConsumedBy : {J : Type 0} → Store J → (last : Option ℕ) → Producer → Made J → Type 0
ConsumedBy s last producer none = Unit {0}
ConsumedBy s last producer (some (state, none)) = Unit {0}
ConsumedBy s last producer (some ((s', t'), some ptr)) = Consumed s last producer s' ptr

module _ {J : Type 0} (s : Store J) (last : Option ℕ) (producer : Producer) where
  keep_consumer-ConsumedBy :
      (t : Transport) (r : Router) (c : Consumer J) (id : ℕ) (success : Bool) (o : Option (Map ℕ))
      → next_counted last ≡ some id
      → EnteredBy s.router id producer.id (length s.consumers) (some (r, success))
      → ConsumedBy s last producer (keep_consumer s t r c id success o)
  keep_consumer-ConsumedBy t r c id success none n e = tt
  keep_consumer-ConsumedBy t r c id false (some m) n e = tt
  keep_consumer-ConsumedBy t r c id true (some m) n e = record {
    id = id;
    consumer = c;
    numbered = n;
    fresh = refl;
    grown = refl;
    entered = e;
  }

  added_consumer-ConsumedBy :
      (t : Transport) (c : Consumer J) (id : ℕ) (o : Option (Router × Bool))
      → next_counted last ≡ some id
      → EnteredBy s.router id producer.id (length s.consumers) o
      → ConsumedBy s last producer (added_consumer s t c id o)
  added_consumer-ConsumedBy t c id none n e = tt
  added_consumer-ConsumedBy t c id (some (r, success)) n e =
      keep_consumer-ConsumedBy t r c id success _ n e

  finish_consume-ConsumedBy :
      (t : Transport) (id : ℕ) (paused : Bool) (o : Outcome J)
      → next_counted last ≡ some id
      → ConsumedBy s last producer (finish_consume s t producer id paused o)
  unfolding add_consumer
  finish_consume-ConsumedBy t id paused o n =
      if_both (ConsumedBy s last producer) o.success
        (λ _.
          added_consumer-ConsumedBy t _ id _ n
            (add_to-EnteredBy s.router id producer.id (length s.consumers) s.router.consumers refl))
        (λ _. tt)

module _ {J : Type 0} ⦃f : Float64 J⦄ (answers : ConsumeAnswers) (now : ℕ) (s : Store J)
    (last : Option ℕ) (producer : Producer) (paused : Bool) where
  send-ConsumedBy :
      (t : Transport) (id : ℕ) (d : DownTrack J) (o : Option TrackLocalContext)
      → next_counted last ≡ some id
      → ConsumedBy s last producer (send answers now s t producer id paused d o)
  send-ConsumedBy t id d none n = tt
  send-ConsumedBy t id d (some context) n =
      finish_consume-ConsumedBy s last producer t id paused
        (bind d producer.codec context (now / 1000000)) n

  new_consumer-ConsumedBy :
      (t : Transport) (d : DownTrack J) (o : Option ℕ)
      → next_counted last ≡ o
      → ConsumedBy s last producer
          (new_consumer answers now s producer paused d (with_id t rtp_consumer_id o))
  new_consumer-ConsumedBy t d none n = tt
  new_consumer-ConsumedBy t d (some id) n =
      if_both (ConsumedBy s last producer) (not answers.sender) (λ _. tt)
        (λ _. send-ConsumedBy _ id d answers.context n)

  consume_of-ConsumedBy :
      (t : Transport)
      → find t.ids_map (id_code rtp_consumer_id) ≡ last
      → ConsumedBy s last producer (consume_of answers now s t paused (some producer))
  consume_of-ConsumedBy t is =
      if_both (ConsumedBy s last producer) (not answers.engine) (λ _. tt)
        (λ _.
          if_both (ConsumedBy s last producer) (not t.has_bwe && not answers.estimator) (λ _. tt)
            (λ _.
              new_consumer-ConsumedBy
                (record t {
                  has_bwe = true;
                  ids_map = insert t.ids_map 5 (next_mid (find t.ids_map 5));
                })
                (track_for answers now producer (next_mid (find t.ids_map 5))) _
                (ap next_counted (
                  sym is
                  ∙ sym (
                      find-insert_ne t.ids_map 5 3 (next_mid (find t.ids_map 5))
                        (λ e. omega arith))))))

abbrev MadeBy : {J : Type 0} → Store J → Option Producer → (last : Option ℕ) → Made J → Type 0
MadeBy s o last none = Unit {0}
MadeBy s o last (some (state, none)) = Unit {0}
MadeBy s o last (some ((s', t'), some ptr)) =
    (producer : Producer) × (o ≡ some producer) × Consumed s last producer s' ptr

with_producer :
    {J : Type 0}
    → (s : Store J) (last : Option ℕ) (producer : Producer) (m : Made J)
    → ConsumedBy s last producer m
    → MadeBy s (some producer) last m
with_producer s last producer none c = tt
with_producer s last producer (some (state, none)) c = tt
with_producer s last producer (some ((s', t'), some ptr)) c = (producer, refl, c)

consume_of-MadeBy :
    {J : Type 0} ⦃f : Float64 J⦄ (answers : ConsumeAnswers) (now : ℕ) (s : Store J) (t : Transport)
    (paused : Bool) (o : Option Producer)
    → MadeBy s o (find t.ids_map (id_code rtp_consumer_id)) (consume_of answers now s t paused o)
consume_of-MadeBy answers now s t paused none = tt
consume_of-MadeBy answers now s t paused (some producer) =
    with_producer s _ producer _ (consume_of-ConsumedBy answers now s _ producer paused t refl)

-- What a successful `Consume` makes.
pub consume-Consumed :
    {J : Type 0} ⦃f : Float64 J⦄ (answers : ConsumeAnswers) (now : ℕ) (s : Store J) (t : Transport)
    (producer_id : ℕ) (paused : Bool) (s' : Store J) (t' : Transport) (ptr : ℕ)
    → consume answers now s t producer_id paused ≡ some ((s', t'), some ptr)
    → (producer : Producer) × (at_pointer s.producers (find_in s.router.producers producer_id)
        ≡ some producer)
      × Consumed s (find t.ids_map (id_code rtp_consumer_id)) producer s' ptr
unfolding consume
consume-Consumed answers now s t producer_id paused s' t' ptr made =
    subst (MadeBy s (at_pointer s.producers (find_in s.router.producers producer_id)) _) made (
      consume_of-MadeBy answers now s t paused
        (at_pointer s.producers (find_in s.router.producers producer_id)))
