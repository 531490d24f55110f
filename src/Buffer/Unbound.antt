-- ===== src/Buffer/Unbound.antt =====
-- `Bind` of pkg/buffer/buffer.go for the codec audio/red.
use go_ortc.Base.{
  ℕ, ◌≡◌, refl, sym, ap, subst, Bool, true, false, Option, some, List, [], ◌∷◌, ◌++◌, if_both,
}
use mathlib.Core.List.{append_assoc, append-nil}
use go_ortc.Rtp.{Pion, ExtensionParameter}
use go_ortc.RtpStats.Types.{Float64}
use go_ortc.RtpStats.Reports.{ReportFloats}
use go_ortc.FrameRate.{Float32}
use go_ortc.AudioLevel.{Float}
use go_ortc.DownTrack.Types.{CodecType, audio, video, unknown}
use go_ortc.Buffer.Types.{red, Library, Buffer, Call, Made, StreamPacket}
use go_ortc.Buffer.Steps.{and_then}
use go_ortc.Buffer.Methods.{
  Feedback, goog_remb, transport_wide_cc, nack, other_feedback, BindParams, is_red, set_up,
  twcc_for, set_feedback, flush, bind_buffer, write_packet,
}

abbrev pub has_nack : List Feedback → Bool
has_nack [] = false
has_nack (nack ∷ fbs) = true
has_nack (goog_remb ∷ fbs) = has_nack fbs
has_nack (transport_wide_cc ∷ fbs) = has_nack fbs
has_nack (other_feedback ∷ fbs) = has_nack fbs

module _ {J A F B N : Type 0} where
  -- A buffer that still waits, with its packets.
  pub record Waits (ext_packets : List StreamPacket) (p_packets : List (List ℕ × ℕ))
      (b : Buffer J A F B N) : Type 0 where
    pub bound : b.bound ≡ false
    pub closed : b.closed ≡ false
    pub nothing_read : b.ext_packets ≡ ext_packets
    pub pending : b.p_packets ≡ p_packets

  abbrev Stops : List StreamPacket → List (List ℕ × ℕ) → Buffer J A F B N × Bool → Type 0
  Stops es ps r = (r.1 ≡ false) × Waits es ps r.0

  twcc_for-keeps :
      (es : List StreamPacket) (ps : List (List ℕ × ℕ)) (k : CodecType) (b : Buffer J A F B N)
      (exts : List ExtensionParameter)
      → b.mime ≡ red
      → Waits es ps b
      → ((twcc_for k b exts).mime ≡ red) × Waits es ps (twcc_for k b exts)
  twcc_for-keeps es ps audio b exts e w = (e, w)
  twcc_for-keeps es ps unknown b exts e w = (e, w)
  twcc_for-keeps es ps video b exts e w = (
    e,
    record {
      bound = w.bound;
      closed = w.closed;
      nothing_read = w.nothing_read;
      pending = w.pending;
    },
  )

module _ {J A F B N : Type 0} (lib : Library B N) where
  set_feedback-Stops :
      (fbs : List Feedback) (es : List StreamPacket) (ps : List (List ℕ × ℕ))
      (exts : List ExtensionParameter) (b : Buffer J A F B N)
      → has_nack fbs ≡ true
      → b.mime ≡ red
      → Waits es ps b
      → Stops es ps (set_feedback lib fbs exts b)
  unfolding set_feedback
  set_feedback-Stops [] es ps exts b h e w = absurd (cc)
  set_feedback-Stops (goog_remb ∷ fbs) es ps exts b h e w =
      set_feedback-Stops fbs es ps exts b h e w
  set_feedback-Stops (other_feedback ∷ fbs) es ps exts b h e w =
      set_feedback-Stops fbs es ps exts b h e w
  set_feedback-Stops (transport_wide_cc ∷ fbs) es ps exts b h e w =
      let (e', w') = twcc_for-keeps es ps b.codec_type b exts e w in
      set_feedback-Stops fbs es ps exts (twcc_for b.codec_type b exts) h e' w'
  set_feedback-Stops (nack ∷ fbs) es ps exts b h e w =
      if_both (Stops es ps) (is_red b.mime) (λ _. (refl, w)) (λ q. absurd (cc (ap is_red e, q)))

-- The run of `Bind` and of the writes that follow it, each with its time.
module _ {J A F B N : Type 0} ⦃f : Float64 J⦄ ⦃a : Float A⦄ ⦃g : Float32 F⦄ (p : Pion)
    (lib : Library B N) (floats : ReportFloats J F) where
  unfoldable pub write_each : List (List ℕ × ℕ) → Made J A F B N → Option (Made J A F B N)
  write_each [] m = some m
  write_each ((pkt, now) ∷ ws) (b, calls) =
      and_then (write_packet p lib floats now b pkt) (λ m. write_each ws (m.0, calls ++ m.1))

  -- A run that ends with a buffer that waits, and has made no call.
  pub record Silent (es : List StreamPacket) (ps : List (List ℕ × ℕ)) (o : Option (Made J A F B N))
      : Type 0 where
    pub last : Made J A F B N
    pub ends : o ≡ some last
    pub waits : Waits es ps last.0
    pub calls : last.1 ≡ []

  write_each-Silent :
      (ws : List (List ℕ × ℕ)) (es : List StreamPacket) (ps : List (List ℕ × ℕ))
      (b : Buffer J A F B N)
      → Waits es ps b
      → Silent es (ps ++ ws) (write_each ws (b, []))
  unfolding write_each write_packet
  write_each-Silent [] es ps b w = record {
    last = (b, []);
    ends = refl;
    waits = subst (λ (l : List (List ℕ × ℕ)). Waits es l b) (sym (append-nil ps)) w;
    calls = refl;
  }
  write_each-Silent ((pkt, now) ∷ ws) es ps b w =
      let b' = record b { p_packets = b.p_packets ++ ((pkt, now) ∷ []) } in
      let w' : Waits es (ps ++ ((pkt, now) ∷ [])) b' = record {
        bound = w.bound;
        closed = w.closed;
        nothing_read = w.nothing_read;
        pending = ap (λ (l : List (List ℕ × ℕ)). l ++ ((pkt, now) ∷ [])) w.pending;
      } in
      let step : write_packet p lib floats now b pkt ≡ some (b', []) = simp (w.closed, w.bound) in
      subst
        (λ (o : Option (Made J A F B N)).
          Silent es (ps ++ ((pkt, now) ∷ ws)) (and_then o (λ m. write_each ws (m.0, [] ++ m.1))))
        (sym step)
        (subst (λ (l : List (List ℕ × ℕ)). Silent es l (write_each ws (b', [])))
          (append_assoc ps ((pkt, now) ∷ []) ws)
          (write_each-Silent ws es (ps ++ ((pkt, now) ∷ [])) b' w'))

  flush-Stops :
      (es : List StreamPacket) (ps : List (List ℕ × ℕ)) (now : ℕ) (r : Buffer J A F B N × Bool)
      → Stops es ps r
      → Silent es ps (flush p lib floats now r)
  flush-Stops es ps now (b, false) (e, w) = record {
    last = (b, []);
    ends = refl;
    waits = w;
    calls = refl;
  }
  flush-Stops es ps now (b, true) (e, w) = absurd (cc)

  then_write :
      (ws : List (List ℕ × ℕ)) (es : List StreamPacket) (ps : List (List ℕ × ℕ))
      (o : Option (Made J A F B N))
      → Silent es ps o
      → Silent es (ps ++ ws) (and_then o (λ m. write_each ws m))
  then_write ws es ps o s =
      subst
        (λ (q : Option (Made J A F B N)). Silent es (ps ++ ws) (and_then q (λ m. write_each ws m)))
        (sym s.ends)
        (subst (λ (l : List Call). Silent es (ps ++ ws) (write_each ws (s.last.0, l))) (sym s.calls)
          (write_each-Silent ws es ps s.last.0 s.waits))

  -- For the codec audio/red with NACK among its feedback, `Bind` ends early and the buffer stays
  -- unbound: every packet that is written from then on is kept as pending, whatever their number, none
  -- is handed on and no call is made, though `Bind` and the writes return without a panic.
  pub bind_buffer-Silent :
      (b : Buffer J A F B N) (params : BindParams) (now : ℕ) (ws : List (List ℕ × ℕ))
      → b.bound ≡ false
      → b.closed ≡ false
      → params.mime ≡ red
      → has_nack params.feedback ≡ true
      → Silent b.ext_packets
          (b.p_packets ++ ws)
          (and_then (bind_buffer p lib floats now b params) (λ m. write_each ws m))
  unfolding bind_buffer
  bind_buffer-Silent b params now ws unbound unclosed is_audio_red nacks =
      let start = set_up lib now b params in
      let w : Waits b.ext_packets b.p_packets start = record {
        bound = unbound;
        closed = unclosed;
        nothing_read = refl;
        pending = refl;
      } in
      let stops =
        set_feedback-Stops lib params.feedback b.ext_packets b.p_packets params.header_extensions
          start nacks is_audio_red w in
      then_write ws b.ext_packets b.p_packets _ (
        if_both (Silent b.ext_packets b.p_packets) b.bound (λ e. absurd (cc))
          (λ _. flush-Stops b.ext_packets b.p_packets now _ stops))
