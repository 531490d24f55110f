-- ===== src/Transport/Close.antt =====
-- `Close` of pkg/rtc/webrtc_transport.go and of pkg/rtc/router.go.
use go_ortc.Base.{ℕ, zero, suc, true, none, some, List, [], ◌∷◌, ◌++◌, if◌then◌else◌}
use go_ortc.Router.{Map, Router}
use go_ortc.Producer.{Producer, close_producer}
use go_ortc.Consumer.{Consumer, close_consumer}
use go_ortc.Transport.Types.{Store, Transport, ice_conn, dtls_conn, sctp_conn}

-- A change at a pointer.
abbrev pub modify : {A : Type 0} → (A → A) → ℕ → List A → List A
modify f k [] = []
modify f zero (x ∷ xs) = f x ∷ xs
modify f (suc k) (x ∷ xs) = x ∷ modify f k xs

-- The loop over a map, in some order: each change is made once and does not depend on the others.
abbrev pub modify_all : {A : Type 0} → (A → A) → List (ℕ × ℕ) → List A → List A
modify_all f [] heap = heap
modify_all f ((id, ptr) ∷ m) heap = modify_all f m (modify f ptr heap)

abbrev pub modify_map : {A : Type 0} → (A → A) → Map ℕ → List A → List A
modify_map f none heap = heap
modify_map f (some m) heap = modify_all f m heap

abbrev pub emptied : Router → Router
emptied r = record r {
  closed = true;
  transports = none;
  producer_id_to_consumer_ids_map = none;
  consumers = none;
  producers = none;
}

-- `Stop`: all three connections are stopped, whatever the errors. What this does to pion's objects is
-- left out.
abbrev pub stop_conns : Transport → Transport
stop_conns t = record t { stop_calls = t.stop_calls ++ (ice_conn ∷ dtls_conn ∷ sctp_conn ∷ []) }

module _ {J : Type 0} where
  unfoldable pub close_transport : Store J → Transport → Store J × Transport
  close_transport s t = if t.closed then (s, t) else (
    record s {
      producers = modify_map (λ (q : Producer). (close_producer q).0) t.producers s.producers;
      consumers = modify_map (λ (c : Consumer J). (close_consumer c).0) t.consumers s.consumers;
    },
    stop_conns (record t { closed = true; producers = none; consumers = none }),
  )

  -- The loop over the transports of the router.
  abbrev pub close_transports : Store J → List Transport → Store J × List Transport
  close_transports s [] = (s, [])
  close_transports s (t ∷ ts) =
      let (s', t') = close_transport s t in
      let (s'', ts') = close_transports s' ts in (s'', t' ∷ ts')

  unfoldable pub close_router : Store J → (transports : List Transport) → Store J × List Transport
  close_router s ts =
      if s.router.closed
      then (s, ts)
      else let (s', ts') = close_transports s ts in (record s' { router = emptied s'.router }, ts')
