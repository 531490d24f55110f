-- ===== src/Transport/Types.antt =====
-- The state of pkg/rtc/webrtc_transport.go, and `getNextId`.
use go_ortc.Base.{
  ℕ, ◌+◌, ◌%◌, Bool, false, Option, none, some, List, [], ◌==◌, if◌then◌else◌, find, insert,
}
use go_ortc.Router.{Map, Router}
use go_ortc.Consumer.{Consumer}
use go_ortc.Producer.{Producer}

-- `IDType` of pkg/rtc/sfu.go, and its value, which is the key in the map.
pub data IdType : Type 0 where
  rtp_producer_id data_producer_id rtp_consumer_id data_consumer_id mid_id : IdType

abbrev pub id_code : IdType → ℕ
id_code rtp_producer_id = 1
id_code data_producer_id = 2
id_code rtp_consumer_id = 3
id_code data_consumer_id = 4
id_code mid_id = 5

-- pion's connections of a transport.
pub data Connection : Type 0 where
  ice_conn dtls_conn sctp_conn : Connection

-- The state. Pion's objects are left out, but for whether there is a responder and an estimator, and
-- for the calls of `Stop` on the connections, in order.
pub record Transport : Type 0 where
  pub id : ℕ
  pub closed : Bool
  pub ids_map : List (ℕ × ℕ)
  pub producers : Map ℕ
  pub consumers : Map ℕ
  pub has_twcc : Bool
  pub has_bwe : Bool
  pub stop_calls : List Connection

abbrev pub new_webrtc_transport : (id : ℕ) → Transport
new_webrtc_transport id = record {
  id = id;
  closed = false;
  ids_map = [];
  producers = some [];
  consumers = some [];
  has_twcc = false;
  has_bwe = false;
  stop_calls = [];
}

-- A router and the objects that the pointers of its maps, and of the maps of its transports, lead to.
pub record Store (J : Type 0) : Type 0 where
  pub router : Router
  pub producers : List Producer
  pub consumers : List (Consumer J)

-- `math.MaxUint`
abbrev pub max_uint : ℕ
max_uint = 18446744073709551615

-- `none` is the panic at the largest number.
abbrev pub next_counted : Option ℕ → Option ℕ
next_counted none = some 1
next_counted (some last_id) = if last_id == max_uint then none else some (last_id + 1)

abbrev pub next_mid : Option ℕ → ℕ
next_mid none = 0
next_mid (some last_id) = (last_id + 1) % 18446744073709551616

abbrev pub next_of : IdType → Option ℕ → Option ℕ
next_of rtp_producer_id last = next_counted last
next_of data_producer_id last = next_counted last
next_of rtp_consumer_id last = next_counted last
next_of data_consumer_id last = next_counted last
next_of mid_id last = some (next_mid last)

abbrev pub with_id : Transport → IdType → Option ℕ → Option (Transport × ℕ)
with_id t idtype none = none
with_id t idtype (some id) = some (record t { ids_map = insert t.ids_map (id_code idtype) id }, id)

abbrev pub get_next_id : Transport → IdType → Option (Transport × ℕ)
get_next_id t idtype = with_id t idtype (next_of idtype (find t.ids_map (id_code idtype)))

-- What an operation returns: `none` for a panic, and else the state, with the pointer to the new object
-- if no error is returned.
abbrev pub Made : Type 0 → Type 0
Made J = Option ((Store J × Transport) × Option ℕ)

abbrev pub failed : {J : Type 0} → Store J → Transport → Made J
failed s t = some ((s, t), none)
