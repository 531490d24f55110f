-- ===== src/DownTrack/Requests.antt =====
-- What `handleRTCP` of pkg/rtc/downtrack.go asks of the producer's side: key frames and retransmissions.
use go_ortc.Base.{
  ℕ, ◌+◌, ◌≡◌, refl, sym, ap, ◌∙◌, subst, Bool, true, false, ◌&&◌, ◌||◌, not, List, [], ◌∷◌, ◌++◌,
  ◌==◌, if◌then◌else◌, if_both, some, arith, Bool-cases, inl, inr,
}
use mathlib.Core.List.{append_assoc, append-nil}
use go_ortc.Base.Words.{add32}
use go_ortc.RtpStats.Types.{Float64, ReceptionReport}
use go_ortc.DownTrack.Types.{
  DownTrack, Effect, written, pli_call, remb_feedback, transport_cc_feedback, retransmit,
  close_reader, called_on_close, called_on_bind,
}
use go_ortc.DownTrack.Feedback.{
  Rtcp, picture_loss, full_intra_request, remb, receiver_report, transport_nack, transport_cc,
  other_rtcp, Handling, concat, send_pli_once, take_reception, take_reports, handle_packet,
  handle_packets, begin_handling, handle_rtcp,
}

-- A PLI or a FIR.
abbrev asks : Rtcp → Bool
asks picture_loss = true
asks full_intra_request = true
asks (remb bitrate) = false
asks (receiver_report reports) = false
asks (transport_nack pairs) = false
asks (transport_cc media_ssrc) = false
asks other_rtcp = false

abbrev pub any_asks : List Rtcp → Bool
any_asks [] = false
any_asks (pkt ∷ pkts) = asks pkt || any_asks pkts

-- The numbers that a packet NACKs, for each NACK.
abbrev pub nacked : List Rtcp → List (List ℕ)
nacked [] = []
nacked (transport_nack pairs ∷ pkts) = concat pairs ∷ nacked pkts
nacked (picture_loss ∷ pkts) = nacked pkts
nacked (full_intra_request ∷ pkts) = nacked pkts
nacked (remb bitrate ∷ pkts) = nacked pkts
nacked (receiver_report reports ∷ pkts) = nacked pkts
nacked (transport_cc media_ssrc ∷ pkts) = nacked pkts
nacked (other_rtcp ∷ pkts) = nacked pkts

-- The key frame requests among the calls.
abbrev pub pli_calls : List Effect → ℕ
pli_calls [] = 0
pli_calls (pli_call force ∷ es) = pli_calls es + 1
pli_calls (written h payload ∷ es) = pli_calls es
pli_calls (remb_feedback bitrate ∷ es) = pli_calls es
pli_calls (transport_cc_feedback ∷ es) = pli_calls es
pli_calls (retransmit sns ∷ es) = pli_calls es
pli_calls (close_reader ∷ es) = pli_calls es
pli_calls (called_on_close ∷ es) = pli_calls es
pli_calls (called_on_bind ∷ es) = pli_calls es

-- The retransmissions among the calls.
abbrev pub retransmit_calls : List Effect → List (List ℕ)
retransmit_calls [] = []
retransmit_calls (retransmit sns ∷ es) = sns ∷ retransmit_calls es
retransmit_calls (pli_call force ∷ es) = retransmit_calls es
retransmit_calls (written h payload ∷ es) = retransmit_calls es
retransmit_calls (remb_feedback bitrate ∷ es) = retransmit_calls es
retransmit_calls (transport_cc_feedback ∷ es) = retransmit_calls es
retransmit_calls (close_reader ∷ es) = retransmit_calls es
retransmit_calls (called_on_close ∷ es) = retransmit_calls es
retransmit_calls (called_on_bind ∷ es) = retransmit_calls es

pli_calls-append :
    (es : List Effect) (e : Effect) → pli_calls (es ++ (e ∷ [])) ≡ pli_calls es + pli_calls (e ∷ [])
pli_calls-append [] e = omega arith
pli_calls-append (pli_call force ∷ es) e = let rest = pli_calls-append es e in omega arith
pli_calls-append (written h payload ∷ es) e = pli_calls-append es e
pli_calls-append (remb_feedback bitrate ∷ es) e = pli_calls-append es e
pli_calls-append (transport_cc_feedback ∷ es) e = pli_calls-append es e
pli_calls-append (retransmit sns ∷ es) e = pli_calls-append es e
pli_calls-append (close_reader ∷ es) e = pli_calls-append es e
pli_calls-append (called_on_close ∷ es) e = pli_calls-append es e
pli_calls-append (called_on_bind ∷ es) e = pli_calls-append es e

retransmit_calls-append :
    (es : List Effect) (e : Effect)
    → retransmit_calls (es ++ (e ∷ [])) ≡ retransmit_calls es ++ retransmit_calls (e ∷ [])
retransmit_calls-append [] e = refl
retransmit_calls-append (retransmit sns ∷ es) e = ap (λ r. sns ∷ r) (retransmit_calls-append es e)
retransmit_calls-append (pli_call force ∷ es) e = retransmit_calls-append es e
retransmit_calls-append (written h payload ∷ es) e = retransmit_calls-append es e
retransmit_calls-append (remb_feedback bitrate ∷ es) e = retransmit_calls-append es e
retransmit_calls-append (transport_cc_feedback ∷ es) e = retransmit_calls-append es e
retransmit_calls-append (close_reader ∷ es) e = retransmit_calls-append es e
retransmit_calls-append (called_on_close ∷ es) e = retransmit_calls-append es e
retransmit_calls-append (called_on_bind ∷ es) e = retransmit_calls-append es e

abbrev one_if : Bool → ℕ
one_if b = if b then 1 else 0

-- How the locals move where key frames are asked for exactly if `asked`, and the retransmissions
-- `sns` are begun.
record Moves {J : Type 0} (asked : Bool) (sns : List (List ℕ)) (l t : Handling J) : Type 0 where
  pub plis :
      pli_calls t.effects ≡ pli_calls l.effects + one_if (l.pli_once && (l.track.enabled && asked))
  pub once : t.pli_once ≡ l.pli_once && not (l.track.enabled && asked)
  pub enabled : t.track.enabled ≡ l.track.enabled
  pub requests : retransmit_calls t.effects ≡ retransmit_calls l.effects ++ sns

Moves-refl : {J : Type 0} → (l : Handling J) → Moves false [] l l
Moves-refl l = record {
  plis = ground arith;
  once = ground arith;
  enabled = refl;
  requests = sym (append-nil _);
}

Moves-trans :
    {J : Type 0}
    → (a b : Bool) (xs ys : List (List ℕ)) (l t u : Handling J) → Moves a xs l t
    → Moves b ys t u
    → Moves (a || b) (xs ++ ys) l u
Moves-trans a b xs ys l t u f g = record {
  plis = ground (arith, f.plis, f.once, f.enabled, g.plis);
  once = ground (arith, f.once, f.enabled, g.once);
  enabled = g.enabled ∙ f.enabled;
  requests =
      g.requests ∙ ap (λ r. r ++ ys) f.requests ∙ append_assoc (retransmit_calls l.effects) xs ys;
}

-- A call that is neither of the two.
Moves-other :
    {J : Type 0}
    → (l : Handling J) (e : Effect) → pli_calls (e ∷ []) ≡ 0
    → retransmit_calls (e ∷ []) ≡ []
    → Moves false [] l (record l { effects = l.effects ++ (e ∷ []) })
Moves-other l e no_pli no_request = record {
  plis = let counted = pli_calls-append l.effects e in ground (arith, counted, no_pli);
  once = ground arith;
  enabled = refl;
  requests =
      retransmit_calls-append l.effects e ∙ ap (λ r. retransmit_calls l.effects ++ r) no_request;
}

nacked-cons :
    (pkt : Rtcp) (pkts : List Rtcp) → nacked (pkt ∷ []) ++ nacked pkts ≡ nacked (pkt ∷ pkts)
nacked-cons picture_loss pkts = refl
nacked-cons full_intra_request pkts = refl
nacked-cons (remb bitrate) pkts = refl
nacked-cons (receiver_report reports) pkts = refl
nacked-cons (transport_nack pairs) pkts = refl
nacked-cons (transport_cc media_ssrc) pkts = refl
nacked-cons other_rtcp pkts = refl

zero_add : (n : ℕ) → 0 + n ≡ n
zero_add n = omega arith

module _ {J : Type 0} ⦃f : Float64 J⦄ (measured : ReceptionReport → ℕ × Bool) (now : ℕ) where
  send_pli_once-Moves : (l : Handling J) → Moves true [] l (send_pli_once measured now l)
  unfolding send_pli_once
  send_pli_once-Moves l = elim (Bool-cases (l.pli_once && l.track.enabled)) [
    | inl e ↦
        rw (e, send_pli_once)
          (record {
            plis =
                let counted = pli_calls-append l.effects (pli_call false) in
                ground (arith, counted, e);
            once = ground (arith, e);
            enabled = refl;
            requests = retransmit_calls-append l.effects (pli_call false);
          })
    | inr e ↦
        rw (e, send_pli_once)
          (record {
            plis = ground (arith, e);
            once = ground (arith, e);
            enabled = refl;
            requests = sym (append-nil _);
          })
  ]

  take_reception-Moves :
      (l : Handling J) (r : ReceptionReport) → Moves false [] l (take_reception measured now l r)
  take_reception-Moves l r =
      if_both (λ (t : Handling J). Moves false [] l t) (r.ssrc == l.track.ssrc)
        (λ _. record {
          plis = ground arith;
          once = ground arith;
          enabled = refl;
          requests = sym (append-nil _);
        })
        (λ _. Moves-refl l)

  take_reports-Moves :
      (l : Handling J) (rs : List ReceptionReport)
      → Moves false [] l (take_reports measured now l rs)
  unfolding take_reports
  take_reports-Moves l [] = Moves-refl l
  take_reports-Moves l (r ∷ rs) =
      let t = take_reception measured now l r in
      Moves-trans false false [] [] l t (take_reports measured now t rs) (take_reception-Moves l r)
        (take_reports-Moves t rs)

  -- What a packet asks for.
  abbrev MovesBy : Rtcp → Handling J → Handling J → Type 0
  MovesBy pkt = Moves (asks pkt) (nacked (pkt ∷ []))

  with_or_without :
      (l : Handling J) (e : Effect) (test : Bool)
      → pli_calls (e ∷ []) ≡ 0
      → retransmit_calls (e ∷ []) ≡ []
      → Moves false [] l (if test then record l { effects = l.effects ++ (e ∷ []) } else l)
  with_or_without l e true no_pli no_request = Moves-other l e no_pli no_request
  with_or_without l e false no_pli no_request = Moves-refl l

  handle_packet-MovesBy :
      (l : Handling J) (pkt : Rtcp) → MovesBy pkt l (handle_packet measured now l pkt)
  unfolding handle_packet
  handle_packet-MovesBy l picture_loss =
      let m = send_pli_once-Moves (record l { num_plis = add32 l.num_plis 1 }) in
      record { plis = m.plis; once = m.once; enabled = m.enabled; requests = m.requests }
  handle_packet-MovesBy l full_intra_request =
      let m = send_pli_once-Moves (record l { num_firs = add32 l.num_firs 1 }) in
      record { plis = m.plis; once = m.once; enabled = m.enabled; requests = m.requests }
  handle_packet-MovesBy l (remb bitrate) =
      with_or_without l (remb_feedback bitrate) l.track.on_remb_feedback refl refl
  handle_packet-MovesBy l (receiver_report reports) = take_reports-Moves l reports
  handle_packet-MovesBy l (transport_nack pairs) = record {
    plis =
        let counted = pli_calls-append l.effects (retransmit (concat pairs)) in
        ground (arith, counted);
    once = ground arith;
    enabled = refl;
    requests = retransmit_calls-append l.effects (retransmit (concat pairs));
  }
  handle_packet-MovesBy l (transport_cc media_ssrc) =
      with_or_without l transport_cc_feedback
        (media_ssrc == l.track.ssrc && l.track.on_transport_cc_feedback) refl refl
  handle_packet-MovesBy l other_rtcp = Moves-refl l

  handle_packets-Moves :
      (l : Handling J) (pkts : List Rtcp)
      → Moves (any_asks pkts) (nacked pkts) l (handle_packets measured now l pkts)
  unfolding handle_packets
  handle_packets-Moves l [] = Moves-refl l
  handle_packets-Moves l (pkt ∷ pkts) =
      let t = handle_packet measured now l pkt in
      subst
        (λ (sns : List (List ℕ)).
          Moves (any_asks (pkt ∷ pkts)) sns l (handle_packets measured now t pkts))
        (nacked-cons pkt pkts)
        (Moves-trans (asks pkt) (any_asks pkts) (nacked (pkt ∷ [])) (nacked pkts) l t
          (handle_packets measured now t pkts) (handle_packet-MovesBy l pkt)
          (handle_packets-Moves t pkts))

  -- However many PLIs and FIRs a compound of RTCP packets holds, the producer is asked for a key frame
  -- exactly once if there is one of them and the track is enabled, and not at all otherwise. One
  -- retransmission is begun for each NACK packet, in their order, for all the numbers of the packet.
  pub handle_rtcp-asks_once :
      (d : DownTrack J) (pkts : List Rtcp)
      → let effects = (handle_rtcp measured now d (some pkts)).effects in
        (pli_calls effects ≡ (if d.enabled && any_asks pkts then 1 else 0))
        × (retransmit_calls effects ≡ nacked pkts)
  unfolding handle_rtcp
  handle_rtcp-asks_once d pkts =
      let moved = handle_packets-Moves (begin_handling measured now d) pkts in
      (moved.plis ∙ zero_add _, moved.requests)
