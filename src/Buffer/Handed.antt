-- ===== src/Buffer/Handed.antt =====
-- Which packets `calc` of pkg/buffer/buffer.go hands on.
use go_ortc.Base.{
  ℕ, ◌≡◌, refl, sym, ap, ◌∙◌, subst, Bool, Option, Option-cases, inl, inr, none, some, List, [],
  ◌∷◌, ◌++◌, ◌==◌, length, if_both,
}
use go_ortc.Base.Int.{pos}
use go_ortc.Rtp.{RtpPacket, Pion}
use go_ortc.RtpStats.Types.{Float64}
use go_ortc.RtpStats.Reports.{ReportFloats}
use go_ortc.Vp8.{Vp8, Parse, ok, err, unmarshal, zero_vp8}
use go_ortc.KeyFrame.{Run, ret, stuck, is_h264_keyframe, is_av1_keyframe}
use go_ortc.FrameRate.{Float32}
use go_ortc.AudioLevel.{Float}
use go_ortc.Buffer.Types.{
  Mime, vp8, h264, av1, other_video, red, other_audio, other_mime, Library, StreamPacket, Buffer,
  Call, Made,
}
use go_ortc.Buffer.Steps.{
  and_then, bare, of_run, of_vp8, by_mime, get_ext_packet, process_header_extensions, do_nacks,
  do_reports, count_key_frame,
}
use go_ortc.Buffer.Kept.{
  Keeps, update_stream_state-Keeps, do_nacks-packets, do_reports-packets,
  process_header_extensions-Keeps, do_fps_calc-Keeps,
}
use go_ortc.Buffer.Calc.{do_fps_calc, push_back, calc_refused, calc_packet, calc_added, calc_bytes}

abbrev IsPacket : RtpPacket → Option (Option StreamPacket) → Type 0
IsPacket pkt none = Unit {0}
IsPacket pkt (some none) = Unit {0}
IsPacket pkt (some (some ep)) = ep.packet ≡ pkt

of_run-IsPacket :
    (pkt : RtpPacket) (ep : StreamPacket) (r : Run Bool)
    → ep.packet ≡ pkt
    → IsPacket pkt (of_run ep r)
of_run-IsPacket pkt ep (ret k) e = e
of_run-IsPacket pkt ep Run.panic e = tt
of_run-IsPacket pkt ep stuck e = tt

of_vp8-IsPacket :
    (pkt : RtpPacket) (ep : StreamPacket) (r : Parse Vp8)
    → ep.packet ≡ pkt
    → IsPacket pkt (of_vp8 ep r)
of_vp8-IsPacket pkt ep (ok v) e = e
of_vp8-IsPacket pkt ep (err q v) e = tt
of_vp8-IsPacket pkt ep Parse.panic e = tt

by_mime-IsPacket :
    (mime : Mime) (pkt : RtpPacket) (ep : StreamPacket) (payload : List ℕ)
    → ep.packet ≡ pkt
    → IsPacket pkt (by_mime mime ep payload)
unfolding by_mime
by_mime-IsPacket vp8 pkt ep payload e = of_vp8-IsPacket pkt ep (unmarshal zero_vp8 (some payload)) e
by_mime-IsPacket h264 pkt ep payload e = of_run-IsPacket pkt ep (is_h264_keyframe payload) e
by_mime-IsPacket av1 pkt ep payload e = of_run-IsPacket pkt ep (is_av1_keyframe payload) e
by_mime-IsPacket other_video pkt ep payload e = e
by_mime-IsPacket red pkt ep payload e = e
by_mime-IsPacket other_audio pkt ep payload e = e
by_mime-IsPacket other_mime pkt ep payload e = e

get_ext_packet-IsPacket :
    (mime : Mime) (pkt : RtpPacket) (arrival : ℕ) → IsPacket pkt (get_ext_packet mime pkt arrival)
get_ext_packet-IsPacket mime pkt arrival =
    if_both (IsPacket pkt) (length pkt.payload == 0) (λ _. refl)
      (λ _.
        by_mime-IsPacket mime pkt (record (bare pkt arrival) { temporal = pos 0 }) pkt.payload refl)

-- The packets handed on, after a packet whose bytes the bucket stored, or refused.
pub data Grows (p : Pion) (before : List StreamPacket) (stored : Option (List ℕ))
    : List StreamPacket → Type 0 where
  same : Grows p before stored before
  appended :
      (bytes : List ℕ) (ep : StreamPacket)
      → stored ≡ some bytes
      → p.unmarshal_packet bytes ≡ some ep.packet
      → Grows p before stored (before ++ (ep ∷ []))

module _ {J A F B N : Type 0} where
  abbrev GrowsBy : Pion → List StreamPacket → Option (List ℕ) → Option (Made J A F B N) → Type 0
  GrowsBy p es stored none = Unit {0}
  GrowsBy p es stored (some m) = Grows p es stored m.0.ext_packets

  Keeps-GrowsBy :
      (p : Pion) (es : List StreamPacket) (stored : Option (List ℕ)) (o : Option (Made J A F B N))
      → Keeps es o
      → GrowsBy p es stored o
  Keeps-GrowsBy p es stored none k = tt
  Keeps-GrowsBy p es stored (some m) k = subst (Grows p es stored) (sym k) same

module _ {J A F B N : Type 0} where
  Keeps-appended :
      (p : Pion) (es : List StreamPacket) (bytes : List ℕ) (ep : StreamPacket)
      (o : Option (Made J A F B N))
      → p.unmarshal_packet bytes ≡ some ep.packet
      → Keeps (es ++ (ep ∷ [])) o
      → GrowsBy p es (some bytes) o
  Keeps-appended p es bytes ep none parsed k = tt
  Keeps-appended p es bytes ep (some m) parsed k =
      subst (Grows p es (some bytes)) (sym k) (appended bytes ep refl parsed)

module _ {J A F B N : Type 0} ⦃f : Float64 J⦄ ⦃a : Float A⦄ ⦃g : Float32 F⦄ (p : Pion)
    (lib : Library B N) (floats : ReportFloats J F) (now : ℕ) where
  push_back-GrowsBy :
      (m : Made J A F B N) (es : List StreamPacket) (bytes : List ℕ) (pkt : RtpPacket)
      (o : Option StreamPacket)
      → m.0.ext_packets ≡ es
      → p.unmarshal_packet bytes ≡ some pkt
      → IsPacket pkt (some o)
      → GrowsBy p es (some bytes) (push_back p lib floats now m o)
  push_back-GrowsBy m es bytes pkt none e parsed is = subst (Grows p es (some bytes)) (sym e) same
  push_back-GrowsBy (b, calls) es bytes pkt (some ep) e parsed is =
      let counted = count_key_frame p lib floats now ep b in
      let next : Buffer J A F B N = record counted { ext_packets = b.ext_packets ++ (ep ∷ []) } in
      let run = do_fps_calc p lib floats now ep (next, calls) in
      Keeps-appended p es bytes ep run (parsed ∙ ap some (sym is)) (
        subst (λ (l : List StreamPacket). Keeps (l ++ (ep ∷ [])) run) e
          (do_fps_calc-Keeps p lib floats now ep (next, calls)))

  -- A step that keeps the packets, and one that follows.
  after :
      (P : Option (Made J A F B N) → Type 0) (es : List StreamPacket) (o : Option (Made J A F B N))
      (k : Made J A F B N → Option (Made J A F B N))
      → Keeps es o
      → P none
      → ((t : Made J A F B N) → t.0.ext_packets ≡ es → P (k t))
      → P (and_then o k)
  after P es none k kept n s = n
  after P es (some t) k kept n s = s t kept

  calc_packet-GrowsBy :
      (m : Made J A F B N) (es : List StreamPacket) (bytes : List ℕ) (arrival : ℕ)
      (o : Option RtpPacket)
      → m.0.ext_packets ≡ es
      → p.unmarshal_packet bytes ≡ o
      → GrowsBy p es (some bytes) (calc_packet p lib floats now m arrival o)
  calc_packet-GrowsBy m es bytes arrival none e parsed =
      subst (Grows p es (some bytes)) (sym e) same
  calc_packet-GrowsBy m es bytes arrival (some pkt) e parsed =
      after (GrowsBy p es (some bytes)) m.0.ext_packets _ _
        (update_stream_state-Keeps p lib floats now pkt arrival m) tt
        λ t updated.
          after (GrowsBy p es (some bytes)) t.0.ext_packets _ _
            (process_header_extensions-Keeps p lib floats now pkt arrival t) tt
            λ v kept.
              let w = do_nacks p lib floats now v in
              let u = do_reports p lib floats now arrival w in
              let so_far : u.0.ext_packets ≡ es =
                do_reports-packets p lib floats now arrival w
                ∙ do_nacks-packets p lib floats now v
                ∙ kept
                ∙ updated
                ∙ e in
              elim (Option-cases (get_ext_packet u.0.mime pkt arrival)) [
                | inl q ↦
                    subst
                      (λ (x : Option (Option StreamPacket)).
                        GrowsBy p es (some bytes)
                          (and_then x (λ y. push_back p lib floats now u y)))
                      (sym q) tt
                | inr (y, q) ↦
                    subst
                      (λ (x : Option (Option StreamPacket)).
                        GrowsBy p es (some bytes)
                          (and_then x (λ z. push_back p lib floats now u z)))
                      (sym q)
                      (push_back-GrowsBy u es bytes pkt y so_far parsed
                        (subst (IsPacket pkt) q (get_ext_packet-IsPacket u.0.mime pkt arrival)))
              ]

  calc_refused-Keeps :
      (m : Made J A F B N) (arrival : ℕ) (o : Option RtpPacket)
      → Keeps m.0.ext_packets (calc_refused p lib floats now m arrival o)
  calc_refused-Keeps m arrival none = refl
  calc_refused-Keeps m arrival (some pkt) =
      after (Keeps m.0.ext_packets) m.0.ext_packets _ _
        (update_stream_state-Keeps p lib floats now pkt arrival m) tt
        λ t kept.
          subst
            (λ (es : List StreamPacket).
              Keeps es (process_header_extensions p lib floats now pkt arrival t))
            kept (process_header_extensions-Keeps p lib floats now pkt arrival t)

  calc_added-GrowsBy :
      (b : Buffer J A F B N) (calls : List Call) (bytes : List ℕ) (arrival : ℕ)
      (r : B × Option (List ℕ))
      → GrowsBy p b.ext_packets r.1 (calc_added p lib floats now (b, calls) bytes arrival r)
  calc_added-GrowsBy b calls bytes arrival (q, none) =
      Keeps-GrowsBy p b.ext_packets none _ (
        calc_refused-Keeps (record b { bucket = some q }, calls) arrival (p.unmarshal_packet bytes))
  calc_added-GrowsBy b calls bytes arrival (q, some stored) =
      calc_packet-GrowsBy (record b { bucket = some q }, calls) b.ext_packets stored arrival
        (p.unmarshal_packet stored) refl refl

  -- A packet that the bucket refuses, such as a repeated one, is never handed on. One that it stores is
  -- handed on at most once, behind all the earlier ones, as what pion parses of the stored bytes; and
  -- no packet that was handed on before is lost, repeated or moved.
  pub calc_bytes-Grows :
      (b : Buffer J A F B N) (calls : List Call) (q : B) (bytes : List ℕ) (arrival : ℕ)
      (m : Made J A F B N)
      → b.bucket ≡ some q
      → calc_bytes p lib floats now bytes arrival (b, calls) ≡ some m
      → Grows p b.ext_packets (lib.add_packet q bytes).1 m.0.ext_packets
  unfolding calc_bytes
  calc_bytes-Grows b calls q bytes arrival m has made =
      let step : calc_added p lib floats now (b, calls) bytes arrival (lib.add_packet q bytes)
          ≡ some m =
        ap
          (λ (o : Option B). elim o [
            | none ↦ none
            | some x ↦ calc_added p lib floats now (b, calls) bytes arrival (lib.add_packet x bytes)
          ])
          (sym has)
        ∙ made in
      subst (GrowsBy p b.ext_packets (lib.add_packet q bytes).1) step
        (calc_added-GrowsBy b calls bytes arrival (lib.add_packet q bytes))
