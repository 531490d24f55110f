-- ===== src/FrameRate/Safe.antt =====
-- The indices of pkg/buffer/fps.go stay inside its arrays.
use go_ortc.Base.{
  ℕ, ◌<◌, ◌⊎◌, Bool, Bool-cases, ◌≡◌, refl, sym, ◌∙◌, subst, ◌&&◌, ◌||◌, not, Option, none, some,
  List, [], ◌∷◌, ltb, leb, ◌==◌, get_or, set, length, All, All-set, All-replicate, length-set,
  arith, if_both, Option-cases, inl, inr,
}
use go_ortc.Base.Words.{sub16}
use go_ortc.Base.Int.{ℤ, pos, negsuc}
use go_ortc.FrameRate.{
  Float32, layers, FrameInfo, Packet, Calculator, layer_of, new_calculator, place_second,
  recv_frame, recv_after, recv_vp8, recv_packet, recv_stored, recv_new, with_first, with_second,
}
use go_ortc.FrameRate.Calc.{
  read_entry-Returns, write_entry-Returns, Near, IsValid, Returns, Safe, reset-IsValid, calc-Safe,
}

Near-any :
    (base : Option FrameInfo) (l : List (Option FrameInfo)) → All (Near none) l → All (Near base) l
Near-any base [] h = tt
Near-any base (none ∷ l) h = (tt, Near-any base l h.1)
Near-any base (some g ∷ l) h = absurd h.0

-- A layer that passes the test of `RecvPacket` is one of the four.
layer_of-lt : (t : ℤ) → Returns (λ n. n < 4) (layer_of t) ⊎ (layer_of t ≡ none)
layer_of-lt (pos n) = elim (Bool-cases (leb layers n)) [
  | inl e ↦ inr (rw e refl)
  | inr e ↦ inl (rw e (ground arith))
]
layer_of-lt (negsuc n) = inl (omega arith)

module _ {F : Type 0} ⦃f : Float32 F⦄ where
  with_first-IsValid :
      (c : Calculator F) (layer : ℕ) (fi : FrameInfo)
      → IsValid c
      → Near c.base_frame (some fi)
      → IsValid (with_first c (set c.first_frames layer (some fi)))
  with_first-IsValid c layer fi v near = record {
    room = v.room;
    rates_room = v.rates_room;
    first_room = length-set c.first_frames layer (some fi) ∙ v.first_room;
    second_room = v.second_room;
    first_near = All-set (Near c.base_frame) c.first_frames layer (some fi) near v.first_near;
    second_near = v.second_near;
  }

  with_second-IsValid :
      (c : Calculator F) (layer : ℕ) (fi : FrameInfo)
      → IsValid c
      → Near c.base_frame (some fi)
      → IsValid (with_second c (set c.second_frames layer (some fi)))
  with_second-IsValid c layer fi v near = record {
    room = v.room;
    rates_room = v.rates_room;
    first_room = v.first_room;
    second_room = length-set c.second_frames layer (some fi) ∙ v.second_room;
    first_near = v.first_near;
    second_near = All-set (Near c.base_frame) c.second_frames layer (some fi) near v.second_near;
  }

  place_second-Returns :
      (c : Calculator F) (layer : ℕ) (fi : FrameInfo) (ff sf : Option FrameInfo)
      → layer < 4
      → IsValid c
      → Near c.base_frame (some fi)
      → Returns (IsValid {F = F}) (place_second c layer fi ff sf)
  unfolding place_second
  place_second-Returns c layer fi none sf lt v near =
      write_entry-Returns (IsValid {F = F}) c.first_frames layer _ _ (omega (arith, v.first_room))
        (with_first-IsValid c layer fi v near)
  place_second-Returns c layer fi (some ff) none lt v near =
      if_both (Returns (IsValid {F = F})) (not (fi.fn == ff.fn) && ltb (sub16 fi.fn ff.fn) 0x4000)
        (λ _.
          write_entry-Returns (IsValid {F = F}) c.second_frames layer _ _
            (omega (arith, v.second_room)) (with_second-IsValid c layer fi v near))
        (λ _. v)
  place_second-Returns c layer fi (some ff) (some sf) lt v near =
      if_both (Returns (IsValid {F = F}))
        (ltb sf.fn fi.fn && not (fi.fn == ff.fn) && ltb (sub16 fi.fn ff.fn) 0x4000)
        (λ _.
          write_entry-Returns (IsValid {F = F}) c.second_frames layer _ _
            (omega (arith, v.second_room)) (with_second-IsValid c layer fi v near))
        (λ _. v)

  recv_stored-Safe :
      (c : Calculator F) (layer : ℕ) (fi : FrameInfo)
      → layer < 4
      → IsValid c
      → Near c.base_frame (some fi)
      → Safe (recv_stored c layer fi)
  unfolding recv_stored
  recv_stored-Safe c layer fi lt v near =
      let P : Calculator F × Bool → Type 0 = λ q. IsValid q.0 in
      let ff = get_or c.first_frames layer none in
      let sf = get_or c.second_frames layer none in
      let placed = place_second-Returns c layer fi ff sf lt v near in
      read_entry-Returns P c.first_frames layer none _ (omega (arith, v.first_room)) (
        read_entry-Returns P c.second_frames layer none _ (omega (arith, v.second_room))
          (elim (Option-cases (place_second c layer fi ff sf)) [
            | inl e ↦ absurd (subst (Returns (IsValid {F = F})) e placed)
            | inr (t, e) ↦ rw e (calc-Safe t (subst (Returns (IsValid {F = F})) e placed))
          ]))

  recv_new-Safe :
      (c : Calculator F) (base_diff layer : ℕ) (fi : FrameInfo) (old : Option FrameInfo)
      → base_diff < 64
      → layer < 4
      → IsValid c
      → Near c.base_frame (some fi)
      → Safe (recv_new c base_diff layer fi old)
  unfolding recv_new
  recv_new-Safe c base_diff layer fi (some old) inside lt v near = v
  recv_new-Safe c base_diff layer fi none inside lt v near =
      write_entry-Returns (λ q. IsValid q.0) c.fn_received base_diff _ _ (omega (arith, v.room))
        (recv_stored-Safe _ layer fi lt
          (record {
            room = length-set c.fn_received base_diff (some fi) ∙ v.room;
            rates_room = v.rates_room;
            first_room = v.first_room;
            second_room = v.second_room;
            first_near = v.first_near;
            second_near = v.second_near;
          })
          near)

  recv_frame-Safe :
      (c : Calculator F) (base : FrameInfo) (layer : ℕ) (fi : FrameInfo)
      → layer < 4
      → c.base_frame ≡ some base
      → IsValid c
      → Safe (recv_frame c base layer fi)
  unfolding recv_frame
  recv_frame-Safe c base layer fi lt is_base v =
      let diff = sub16 fi.fn base.fn in
      if_both Safe (diff == 0 || ltb 0x4000 diff) (λ _. v)
        λ _.
          if_both Safe (leb (length c.fn_received) diff) (λ _. reset-IsValid c v)
            λ inside.
              let small : diff < 64 = ground (arith, v.room) in
              let near : Near c.base_frame (some fi) =
                subst (λ o. Near o (some fi)) (sym is_base) small in
              read_entry-Returns (λ q. IsValid q.0) c.fn_received diff none _
                (omega (arith, v.room)) (recv_new-Safe c diff layer fi _ small lt v near)

  recv_after-Safe :
      (c : Calculator F) (layer : ℕ) (fi : FrameInfo) (base : Option FrameInfo)
      → layer < 4
      → c.base_frame ≡ base
      → IsValid c
      → Safe (recv_after c layer fi base)
  unfolding recv_after
  recv_after-Safe c layer fi none lt e v =
      let base = record fi { temporal = 0 } in
      let anew : (l : List (Option FrameInfo))
          → All (Near c.base_frame) l
          → All (Near (some base)) l =
        λ l h. Near-any (some base) l (subst (λ o. All (Near o) l) e h) in
      write_entry-Returns (λ q. IsValid q.0) c.first_frames layer _ _ (omega (arith, v.first_room))
        (record {
          room = length-set c.fn_received 0 (some base) ∙ v.room;
          rates_room = v.rates_room;
          first_room = length-set c.first_frames layer (some base) ∙ v.first_room;
          second_room = v.second_room;
          first_near =
              All-set (Near (some base)) c.first_frames layer (some base) (omega arith)
                (anew c.first_frames v.first_near);
          second_near = anew c.second_frames v.second_near;
        })
  recv_after-Safe c layer fi (some base) lt e v = recv_frame-Safe c base layer fi lt e v

  recv_vp8-Safe :
      (c : Calculator F) (ep : Packet) (fn : ℕ) (layer : Option ℕ)
      → Returns (λ n. n < 4) layer ⊎ (layer ≡ none)
      → IsValid c
      → Safe (recv_vp8 c ep fn layer)
  recv_vp8-Safe c ep fn none lt v = v
  recv_vp8-Safe c ep fn (some layer) (inl lt) v = recv_after-Safe c layer _ c.base_frame lt refl v
  recv_vp8-Safe c ep fn (some layer) (inr empty) v = absurd (cc)

  -- `RecvPacket` on a calculator that satisfies the invariant never panics, whatever the packet: its
  -- indices into the frames, the first and second frames of the layers and the rates are in range, and
  -- the base frame is there where it is read. The calculator satisfies the invariant again.
  pub recv_packet-Safe :
      (c : Calculator F) (ep : Packet) → IsValid c → Returns (λ q. IsValid q.0) (recv_packet c ep)
  unfolding recv_packet
  recv_packet-Safe c ep v =
      if_both Safe c.completed (λ _. v)
        λ _. elim (Option-cases ep.picture_id) [
          | inl e ↦ rw e v
          | inr (fn, e) ↦
              rw e (recv_vp8-Safe c ep fn (layer_of ep.temporal) (layer_of-lt ep.temporal) v)
        ]

  unfoldable pub recv_all : Calculator F → List Packet → Option (Calculator F)
  recv_all c [] = some c
  recv_all c (ep ∷ more) = elim (recv_packet c ep) [ none ↦ none | some q ↦ recv_all q.0 more ]

module _ (F : Type 0) ⦃f : Float32 F⦄ where
  pub new_calculator-IsValid : (clock_rate : ℕ) → IsValid (new_calculator {F = F} clock_rate)
  unfolding new_calculator
  new_calculator-IsValid clock_rate = record {
    room = refl;
    rates_room = refl;
    first_room = refl;
    second_room = refl;
    first_near = All-replicate (Near none) layers none tt;
    second_near = All-replicate (Near none) layers none tt;
  }
