-- ===== src/DownTrack/Numbers.antt =====
-- The numbers of the headers that pkg/rtc/downtrack.go writes.
use go_ortc.Base.{
  ℕ, ◌%◌, ◌<◌, ◌≡◌, ◌⊎◌, false, inl, inr, refl, sym, ◌≢◌, ◌∙◌, Option, none, some, List, [], ◌∷◌,
  ltb, ◌==◌, subst, if_both, length, Option-cases, arith,
}
use go_ortc.Base.Words.{add32, sub32}
use go_ortc.Rtp.{
  RtpHeader, Pion, Uri, ExtensionParameter, sdes_mid, abs_send_time, transport_cc,
  video_orientation, audio_level, other_uri,
}
use go_ortc.DownTrack.Types.{DownTrack}
use go_ortc.DownTrack.Forward.{
  mid_max_length, video_orientation_extension_id, set_marshalled, set_one, set_all,
  prepare_rtp_header_for_forwarding,
}

-- Two headers that differ in their extensions alone.
pub record SameNumbers (a b : RtpHeader) : Type 0 where
  pub payload_type : b.payload_type ≡ a.payload_type
  pub ssrc : b.ssrc ≡ a.ssrc
  pub sequence_number : b.sequence_number ≡ a.sequence_number
  pub timestamp : b.timestamp ≡ a.timestamp
  pub marker : b.marker ≡ a.marker

-- What pion documents of `SetExtension`: it changes the extensions, and nothing else.
pub record SetsExtensions (p : Pion) : Type 0 where
  pub keeps :
      (h : RtpHeader) (id : ℕ) (value : List ℕ) (h' : RtpHeader)
      → p.set_extension h id value ≡ some h'
      → SameNumbers h h'

SameNumbers-refl : (h : RtpHeader) → SameNumbers h h
SameNumbers-refl h = record {
  payload_type = refl;
  ssrc = refl;
  sequence_number = refl;
  timestamp = refl;
  marker = refl;
}

SameNumbers-trans : (a b c : RtpHeader) → SameNumbers a b → SameNumbers b c → SameNumbers a c
SameNumbers-trans a b c f g = record {
  payload_type = g.payload_type ∙ f.payload_type;
  ssrc = g.ssrc ∙ f.ssrc;
  sequence_number = g.sequence_number ∙ f.sequence_number;
  timestamp = g.timestamp ∙ f.timestamp;
  marker = g.marker ∙ f.marker;
}

-- What decides the extensions of a header beside the packet: the mid, and the enabled extensions.
pub record Extras : Type 0 where
  pub mid : List ℕ
  pub enabled_headers : List ExtensionParameter

abbrev pub extras : {J : Type 0} → DownTrack J → Extras
extras d = record { mid = d.mid; enabled_headers = d.enabled_headers }

-- Why an enabled extension cannot be set in the header `h`, for a packet with the video orientation
-- `value`: pion refuses it under its negotiated id and with the bytes of its kind, or it is a mid of
-- more than 8 bytes.
abbrev pub Refuses : Pion → (mid value : List ℕ) → RtpHeader → Uri → (id : ℕ) → Type 0
Refuses p mid value h sdes_mid id = (8 < length mid) ⊎ (p.set_extension h (id % 256) mid ≡ none)
Refuses p mid value h abs_send_time id =
    (now : ℕ) × (b : List ℕ) × (p.marshal_send_time now ≡ some b)
    × (p.set_extension h (id % 256) b ≡ none)
Refuses p mid value h transport_cc id =
    (sn : ℕ) × (b : List ℕ) × (p.marshal_transport_cc sn ≡ some b)
    × (p.set_extension h (id % 256) b ≡ none)
Refuses p mid value h video_orientation id = (length value ≢ 0) × (p.set_extension h 8 value ≡ none)
Refuses p mid value h audio_level id = ⊥
Refuses p mid value h other_uri id = ⊥

-- `g` is `h` with the enabled extension set, or left as it is where there is nothing to set.
abbrev pub Sets : Pion → (mid value : List ℕ) → RtpHeader → Uri → (id : ℕ) → RtpHeader → Type 0
Sets p mid value h sdes_mid id g = p.set_extension h (id % 256) mid ≡ some g
Sets p mid value h abs_send_time id g =
    ((now : ℕ) × (p.marshal_send_time now ≡ none) × (g ≡ h))
    ⊎ ((now : ℕ) × (b : List ℕ) × (p.marshal_send_time now ≡ some b)
        × (p.set_extension h (id % 256) b ≡ some g))
Sets p mid value h transport_cc id g =
    ((sn : ℕ) × (p.marshal_transport_cc sn ≡ none) × (g ≡ h))
    ⊎ ((sn : ℕ) × (b : List ℕ) × (p.marshal_transport_cc sn ≡ some b)
        × (p.set_extension h (id % 256) b ≡ some g))
Sets p mid value h video_orientation id g =
    ((length value ≡ 0) × (g ≡ h)) ⊎ (p.set_extension h 8 value ≡ some g)
Sets p mid value h audio_level id g = g ≡ h
Sets p mid value h other_uri id g = g ≡ h

-- From the header `h` on, the extensions are set one after the other until one of them is refused.
pub data RefusedIn (p : Pion) (mid value : List ℕ)
    : RtpHeader → List ExtensionParameter → Type 0 where
  here :
      {h : RtpHeader} {ext : ExtensionParameter} {exts : List ExtensionParameter}
      → Refuses p mid value h ext.uri ext.id
      → RefusedIn p mid value h (ext ∷ exts)
  behind :
      {h g : RtpHeader} {ext : ExtensionParameter} {exts : List ExtensionParameter}
      → Sets p mid value h ext.uri ext.id g
      → RefusedIn p mid value g exts
      → RefusedIn p mid value h (ext ∷ exts)

-- A header without its extensions.
abbrev pub unextended : RtpHeader → RtpHeader
unextended h = record h { extension = false; extension_profile = 0; extensions = [] }

-- Why the header `base` of a packet, which has the packet's own extensions still, cannot be prepared:
-- without its extensions, one of the enabled ones cannot be set after the ones before it.
abbrev pub Refusal : Pion → Extras → (base : RtpHeader) → Type 0
Refusal p x base =
    RefusedIn p x.mid (p.get_extension base video_orientation_extension_id) (unextended base)
      x.enabled_headers

-- A header that a step returns has the numbers of `h`; if there is none, there is a reason.
abbrev NumberedOr : (reason : Type 0) → RtpHeader → Option RtpHeader → Type 0
NumberedOr reason h none = reason
NumberedOr reason h (some h') = SameNumbers h h'

abbrev pub Numbered : Pion → Extras → RtpHeader → Option RtpHeader → Type 0
Numbered p x h o = NumberedOr (Refusal p x h) h o

NumberedOr-map :
    (reason further : Type 0) (h : RtpHeader) (o : Option RtpHeader)
    → (reason → further)
    → NumberedOr reason h o
    → NumberedOr further h o
NumberedOr-map reason further h none f n = f n
NumberedOr-map reason further h (some h') f n = n

-- What a step does with a header: it sets the extension, or it refuses it.
abbrev Step : Pion → (mid value : List ℕ) → RtpHeader → Uri → (id : ℕ) → Option RtpHeader → Type 0
Step p mid value h u id none = Refuses p mid value h u id
Step p mid value h u id (some g) = Sets p mid value h u id g

module _ (p : Pion) (mid value : List ℕ) where
  set_marshalled-Step :
      (h : RtpHeader) (id n : ℕ) (m : ℕ → Option (List ℕ)) (P : Option RtpHeader → Type 0)
      → (m n ≡ none → P (some h))
      → ((b : List ℕ) → m n ≡ some b → P (p.set_extension h (id % 256) b))
      → P (set_marshalled p h id (m n))
  set_marshalled-Step h id n m P absent present = elim (Option-cases (m n)) [
    | inl e ↦ subst (λ (o : Option (List ℕ)). P (set_marshalled p h id o)) (sym e) (absent e)
    | inr (b, e) ↦
        subst (λ (o : Option (List ℕ)). P (set_marshalled p h id o)) (sym e) (present b e)
  ]

  -- A property of both results of pion.
  by_result :
      (P : Option RtpHeader → Type 0) (o : Option RtpHeader)
      → (o ≡ none → P none)
      → ((g : RtpHeader) → o ≡ some g → P (some g))
      → P o
  by_result P none absent present = absent refl
  by_result P (some g) absent present = present g refl

  set_one-Step :
      (u : Uri) (id now twcc_sn : ℕ) (h : RtpHeader)
      → Step p mid value h u id (set_one p u id mid value now twcc_sn h).1
  unfolding set_one
  set_one-Step sdes_mid id now twcc_sn h =
      let P = Step p mid value h sdes_mid id in
      if_both P (ltb mid_max_length (length mid)) (λ e. inl (ground arith))
        (λ _. by_result P (p.set_extension h (id % 256) mid) (λ e. inr e) (λ g e. e))
  set_one-Step abs_send_time id now twcc_sn h =
      let P = Step p mid value h abs_send_time id in
      set_marshalled-Step h id now p.marshal_send_time P (λ e. inl (now, e, refl))
        (λ b e.
          by_result P (p.set_extension h (id % 256) b) (λ r. (now, b, e, r))
            (λ g r. inr (now, b, e, r)))
  set_one-Step transport_cc id now twcc_sn h =
      let P = Step p mid value h transport_cc id in
      let sn = sub32 (add32 twcc_sn 1) 1 % 65536 in
      set_marshalled-Step h id sn p.marshal_transport_cc P (λ e. inl (sn, e, refl))
        (λ b e.
          by_result P (p.set_extension h (id % 256) b) (λ r. (sn, b, e, r))
            (λ g r. inr (sn, b, e, r)))
  set_one-Step video_orientation id now twcc_sn h =
      let P = Step p mid value h video_orientation id in
      if_both P (length value == 0) (λ e. inl (ground arith, refl))
        (λ e.
          by_result P (p.set_extension h video_orientation_extension_id value)
            (λ r. ((λ zero. ground arith), r)) (λ g r. inr r))
  set_one-Step audio_level id now twcc_sn h = refl
  set_one-Step other_uri id now twcc_sn h = refl

module _ (p : Pion) (law : SetsExtensions p) (mid value : List ℕ) where
  same_header : (h g : RtpHeader) → g ≡ h → SameNumbers h g
  same_header h g e = subst (λ (k : RtpHeader). SameNumbers h k) (sym e) (SameNumbers-refl h)

  Sets-SameNumbers :
      (h g : RtpHeader) (u : Uri) (id : ℕ) → Sets p mid value h u id g → SameNumbers h g
  Sets-SameNumbers h g sdes_mid id e = law.keeps h (id % 256) mid g e
  Sets-SameNumbers h g abs_send_time id (inl (now, e, same)) = same_header h g same
  Sets-SameNumbers h g abs_send_time id (inr (now, b, e, r)) = law.keeps h (id % 256) b g r
  Sets-SameNumbers h g transport_cc id (inl (sn, e, same)) = same_header h g same
  Sets-SameNumbers h g transport_cc id (inr (sn, b, e, r)) = law.keeps h (id % 256) b g r
  Sets-SameNumbers h g video_orientation id (inl (e, same)) = same_header h g same
  Sets-SameNumbers h g video_orientation id (inr r) = law.keeps h 8 value g r
  Sets-SameNumbers h g audio_level id same = same_header h g same
  Sets-SameNumbers h g other_uri id same = same_header h g same

  set_all-NumberedOr :
      (base : RtpHeader) (now twcc_sn : ℕ) (h : RtpHeader) (exts : List ExtensionParameter)
      → SameNumbers base h
      → NumberedOr
          (RefusedIn p mid value h exts)
          base
          (set_all p mid value now twcc_sn (some h) exts).1
  unfolding set_all
  set_all-NumberedOr base now twcc_sn h [] same = same
  set_all-NumberedOr base now twcc_sn h (ext ∷ exts) same =
      let step = set_one p ext.uri ext.id mid value now twcc_sn h in
      let first = set_one-Step p mid value ext.uri ext.id now twcc_sn h in
      elim (Option-cases step.1) [
        | inl e ↦ rw (e, set_all) (here (subst (Step p mid value h ext.uri ext.id) e first))
        | inr (g, e) ↦
            let sets = subst (Step p mid value h ext.uri ext.id) e first in
            rw (e, set_all)
              (NumberedOr-map _ _ base (set_all p mid value now step.0 (some g) exts).1
                (λ r. behind sets r)
                (set_all-NumberedOr base now step.0 g exts
                  (SameNumbers-trans base h g same (Sets-SameNumbers h g ext.uri ext.id sets))))
      ]

module _ {J : Type 0} where
  -- The header of a packet under the track's ssrc and payload type.
  abbrev pub numbered : DownTrack J → RtpHeader → (ts sn : ℕ) → RtpHeader
  numbered d hdr ts sn = record hdr {
    payload_type = d.payload_type;
    timestamp = ts;
    sequence_number = sn;
    ssrc = d.ssrc;
  }

module _ {J : Type 0} (p : Pion) (law : SetsExtensions p) where
  pub prepare-Numbered :
      (d : DownTrack J) (hdr : RtpHeader) (ts sn now : ℕ)
      → Numbered p
          (extras d)
          (numbered d hdr ts sn)
          (prepare_rtp_header_for_forwarding p d hdr ts sn now).1
  unfolding prepare_rtp_header_for_forwarding
  prepare-Numbered d hdr ts sn now =
      let base = numbered d hdr ts sn in
      set_all-NumberedOr p law d.mid (p.get_extension base video_orientation_extension_id) base now
        d.twcc_sn (unextended base) d.enabled_headers
        (record {
          payload_type = refl;
          ssrc = refl;
          sequence_number = refl;
          timestamp = refl;
          marker = refl;
        })
