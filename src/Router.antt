-- ===== src/Router.antt =====
-- pkg/rtc/router.go: a router forwards the packets of its producers to the consumers of each.
pub mod Forward
use go_ortc.Base.{
  ℕ, ◌+◌, Bool, true, false, Option, none, some, List, [], ◌∷◌, ◌++◌, ◌==◌, zero, suc,
  if◌then◌else◌, find_in, insert,
}
use go_ortc.Rtp.{RtpHeader, Pion}
use go_ortc.RtpStats.Types.{Float64}
use go_ortc.DownTrack.Types.{ExtPacket, Effect}
use go_ortc.Consumer.{Consumer, write}
use go_ortc.Producer.{Producer}

-- A map of ids; `none` is the nil map that `Close` leaves. A pointer is an index into the lists of the
-- store.
abbrev pub Map : Type 0 → Type 0
Map A = Option (List (ℕ × A))

pub record Router : Type 0 where
  pub closed : Bool
  pub transports : Map ℕ
  pub producers : Map ℕ
  pub consumers : Map ℕ
  pub producer_id_to_consumer_ids_map : Map (List ℕ)
  pub current_transport_id : ℕ

abbrev pub new_router : Router
new_router = record {
  closed = false;
  transports = some [];
  producers = some [];
  consumers = some [];
  producer_id_to_consumer_ids_map = some [];
  current_transport_id = 0;
}

-- A write to a map: a nil map panics, which is `none`.
abbrev pub insert_in {ℓ} :
    {A : Type ℓ} → Option (List (ℕ × A)) → ℕ → A → Option (Option (List (ℕ × A)))
insert_in none k v = none
insert_in (some m) k v = some (some (insert m k v))

-- `generateNewWebrtcTransportID`: `none` is the panic.
abbrev pub max_uint16 : ℕ
max_uint16 = 65535

abbrev pub generate_new_webrtc_transport_id : Router → Option (Router × ℕ)
generate_new_webrtc_transport_id r =
    if r.current_transport_id == max_uint16
    then none
    else some
        (record r { current_transport_id = r.current_transport_id + 1 }, r.current_transport_id + 1)

-- `AddProducer`, for the pointer `ptr` of a producer with this id, behind the guard on the buffers:
-- the two entries that the router makes.
abbrev pub register_producer :
    Router → (id ptr : ℕ) → Option (Map ℕ) → Option (Map (List ℕ)) → Option Router
register_producer r id ptr none lists = none
register_producer r id ptr (some producers) none = none
register_producer r id ptr (some producers) (some lists) =
    some (record r { producers = producers; producer_id_to_consumer_ids_map = lists })

unfoldable pub add_producer : Router → (id ptr : ℕ) → Option Router
add_producer r id ptr =
    register_producer r id ptr (insert_in r.producers id ptr)
      (insert_in r.producer_id_to_consumer_ids_map id [])

-- The half of `AddConsumer` behind the look-up of the producer's list, given the map and what is found.
-- The second result is whether no error is returned.
abbrev pub append_consumer :
    Router → (id producer_id : ℕ) → Map (List ℕ) → Option (List ℕ) → Option (Router × Bool)
append_consumer r id producer_id lists none = some (r, false)
append_consumer r id producer_id none (some consumer_ids) = none
append_consumer r id producer_id (some lists) (some consumer_ids) = some (
  record r {
    producer_id_to_consumer_ids_map = some (insert lists producer_id (consumer_ids ++ (id ∷ [])));
  },
  true,
)

abbrev pub add_to : Router → (id producer_id ptr : ℕ) → Map ℕ → Option (Router × Bool)
add_to r id producer_id ptr none = none
add_to r id producer_id ptr (some consumers) =
    append_consumer (record r { consumers = some (insert consumers id ptr) }) id producer_id
      r.producer_id_to_consumer_ids_map (find_in r.producer_id_to_consumer_ids_map producer_id)

unfoldable pub add_consumer : Router → (id producer_id ptr : ℕ) → Option (Router × Bool)
add_consumer r id producer_id ptr = add_to r id producer_id ptr r.consumers

module _ {J : Type 0} ⦃f : Float64 J⦄ (p : Pion) (writes : ℕ → RtpHeader → List ℕ → Bool)
    (now : ℕ) where
  -- `consumer.Write` at a pointer. `writes` is what the stream of each consumer takes.
  abbrev pub write_to :
      (ext : ExtPacket) (ptr k : ℕ) → List (Consumer J) → List (Consumer J) × List Effect
  write_to ext ptr k [] = ([], [])
  write_to ext ptr zero (c ∷ cs) =
      ((write p (writes ptr) now c ext).consumer ∷ cs, (write p (writes ptr) now c ext).effects)
  write_to ext ptr (suc k) (c ∷ cs) =
      let (rest, effects) = write_to ext ptr k cs in (c ∷ rest, effects)

  -- The loop of `OnRTPPacket`, which ends at the first id that is not in the map. Errors of `Write`
  -- are logged. The second result has the calls of each consumer that was reached.
  unfoldable pub forward_to :
      Map ℕ
      → (consumer_ids : List ℕ) → ExtPacket
      → List (Consumer J)
      → List (Consumer J) × List (ℕ × List Effect)
  forward_to consumers [] ext heap = (heap, [])
  forward_to consumers (c_id ∷ c_ids) ext heap = elim (find_in consumers c_id) [
    | none ↦ (heap, [])
    | some ptr ↦
        let (heap', effects) = write_to ext ptr ptr heap in
        let (heap'', rest) = forward_to consumers c_ids ext heap' in (heap'', (ptr, effects) ∷ rest)
  ]

  -- The handler that `OnRTPPacket` returns.
  unfoldable pub on_rtp_packet :
      Router
      → (producer_id : ℕ) → ExtPacket
      → List (Consumer J)
      → List (Consumer J) × List (ℕ × List Effect)
  on_rtp_packet r producer_id ext heap =
      elim (find_in r.producer_id_to_consumer_ids_map producer_id) [
        | none ↦ (heap, [])
        | some consumer_ids ↦ forward_to r.consumers consumer_ids ext heap
      ]
