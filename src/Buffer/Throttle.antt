-- ===== src/Buffer/Throttle.antt =====
-- How often `SendPLI` of pkg/buffer/buffer.go asks for a key frame.
use go_ortc.Base.{
  ℕ, ◌+◌, ◌<◌, ◌≡◌, refl, ap, ◌∙◌, Bool, true, false, ◌&&◌, not, Option, none, some, [],
  if◌then◌else◌, arith,
}
use go_ortc.RtpStats.Types.{RtpStats}
use go_ortc.RtpStats.Counters.{update_pli_and_time}
use go_ortc.Buffer.Types.{Buffer, Made, pli_feedback}
use go_ortc.Buffer.Steps.{when}
use go_ortc.Buffer.Reads.{time_since_last_pli, throttled, send_pli_of, send_pli}

module _ {J : Type 0} where
  update_pli_and_time-last :
      (r : RtpStats J) (now : ℕ)
      → r.end_time ≡ none
      → (update_pli_and_time r 1 now).last_pli ≡ some now
  unfolding update_pli_and_time
  update_pli_and_time-last r now live = rw (live, update_pli_and_time) refl

module _ {J A F B N : Type 0} where
  abbrev asked : Buffer J A F B N → RtpStats J → (now : ℕ) → Made J A F B N
  asked b r now = (
    record b { rtp_stats = some (update_pli_and_time r 1 now) },
    when b.on_rtcp_feedback pli_feedback,
  )

  send_pli-running :
      (b : Buffer J A F B N) (r : RtpStats J) (force : Bool) (now : ℕ)
      → b.rtp_stats ≡ some r
      → send_pli b force now
        ≡ (if throttled b r now && not force then some (b, []) else some (asked b r now))
  unfolding send_pli
  send_pli-running b r force now running = ap (send_pli_of b force now) running

  -- While the statistics run, a request for a key frame that is sent, forced or not, keeps every
  -- unforced one back until the throttle has passed: such a call changes nothing and sends nothing. A
  -- forced one is always sent.
  pub send_pli-Throttled :
      (b : Buffer J A F B N) (r : RtpStats J) (force : Bool) (now later : ℕ)
      → b.rtp_stats ≡ some r
      → r.end_time ≡ none
      → (throttled b r now && not force) ≡ false
      → later < now + b.pli_throttle
      → (send_pli b force now ≡ some (asked b r now))
        × ((send_pli (asked b r now).0 false later ≡ some ((asked b r now).0, []))
            × (send_pli (asked b r now).0 true later
                ≡ some (asked (asked b r now).0 (update_pli_and_time r 1 now) later)))
  send_pli-Throttled b r force now later running live free soon =
      let last = update_pli_and_time-last r now live in
      let m = (asked b r now).0 in
      let r' = update_pli_and_time r 1 now in
      let held : throttled m r' later ≡ true =
        ap (λ (t : Option ℕ). time_since_last_pli t later b.pli_throttle) last ∙ ground arith in
      let pick : Buffer J A F B N → RtpStats J → ℕ → Bool → Option (Made J A F B N) =
        λ c q t x. if x then some (c, []) else some (asked c q t) in
      (
        send_pli-running b r force now running ∙ ap (pick b r now) free,
        (
          send_pli-running m r' false later refl ∙ ap (λ x. pick m r' later (x && true)) held,
          send_pli-running m r' true later refl ∙ ap (λ x. pick m r' later (x && false)) held,
        ),
      )
