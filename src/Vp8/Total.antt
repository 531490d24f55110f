-- ===== src/Vp8/Total.antt =====
-- `Unmarshal` of pkg/buffer/helpers.go on any input: it reads inside the payload.
use go_ortc.Base.{
  ℕ, ◌+◌, ◌≤◌, ◌<◌, ◌≡◌, refl, Bool, true, false, ◌&&◌, ◌||◌, not, some, List, ltb, leb, length,
  get_or, get_elem?-eq-get_or, arith, if_both,
}
use go_ortc.Vp8.{
  Vp8, Parse, ok, err, panic, Error, short_packet, fail_if, at, has, next, read_picture_id,
  read_tl0, read_tid_keyidx, read_key_frame, when, read_extended, unmarshal_bytes, unmarshal, ◌>>=◌,
}

-- What a run that does not panic guarantees: its result, if it has one, has the property.
abbrev pub Yields : {A : Type 0} → (A → Type 0) → Parse A → Type 0
Yields P (ok a) = P a
Yields P (err e v) = Unit {0}
Yields P panic = ⊥

Yields-bind :
    {A B : Type 0} (P : A → Type 0) (Q : B → Type 0) (m : Parse A) (f : A → Parse B)
    → Yields P m
    → ((a : A) → P a → Yields Q (f a))
    → Yields Q (m >>= f)
Yields-bind P Q (ok a) f h k = k a h
Yields-bind P Q (err e v) f h k = tt
Yields-bind P Q panic f h k = h

Yields-weaken :
    {A : Type 0} {P : A → Type 0} (Q : A → Type 0) (m : Parse A)
    → ((a : A) → P a → Q a)
    → Yields P m
    → Yields Q m
Yields-weaken Q (ok a) k h = k a h
Yields-weaken Q (err e v) k h = tt
Yields-weaken Q panic k h = h

Yields-fail_if : (b : Bool) (e : Error) (v : Vp8) → Yields (λ _. b ≡ false) (fail_if b e v)
Yields-fail_if true e v = tt
Yields-fail_if false e v = refl

Yields-at :
    (payload : List ℕ) (idx : ℕ)
    → idx < length payload
    → Yields (λ b. b ≡ get_or payload idx 0) (at payload idx)
Yields-at payload idx h = rw (get_elem?-eq-get_or payload idx 0 h) refl

module _ (payload : List ℕ) where
  -- `i` is the next index or the one after it, and it is inside.
  abbrev Steps : (most idx i : ℕ) → Type 0
  Steps most idx i = (idx < i) × (i ≤ idx + most) × (i < length payload)

  next-Steps :
      (v : Vp8) (idx : ℕ) → Yields (λ i. (i ≡ idx + 1) × (i < length payload)) (next v payload idx)
  unfolding next
  next-Steps v idx =
      Yields-bind _ _ (fail_if (ltb (length payload) (idx + 1 + 1)) _ v) _ (Yields-fail_if _ _ v)
        (λ _ inside. (refl, ground arith))

  -- The next byte.
  read_next :
      {B : Type 0} (Q : B → Type 0) (v : Vp8) (idx : ℕ) (f : ℕ → ℕ → Parse B)
      → ((b : ℕ) → idx + 1 < length payload → Yields Q (f (idx + 1) b))
      → Yields Q (next v payload idx >>= λ i. at payload i >>= f i)
  read_next Q v idx f h =
      Yields-bind (λ i. (i ≡ idx + 1) × (i < length payload)) Q (next v payload idx) _
        (next-Steps v idx)
        (λ i p.
          let inside : idx + 1 < length payload = omega arith in
          rw (p.0, get_elem?-eq-get_or payload (idx + 1) 0 inside) (h _ inside))

  read_picture_id-Steps :
      (v : Vp8) (idx : ℕ) → Yields (λ r. Steps 2 idx r.1) (read_picture_id v payload idx)
  unfolding read_picture_id
  read_picture_id-Steps v idx =
      read_next (λ r. Steps 2 idx r.1) v idx _
        λ b inside.
          if_both (Yields (λ r. Steps 2 idx r.1)) (has 0x80 b)
            (λ _.
              read_next (λ r. Steps 2 idx r.1) _ (idx + 1) _
                (λ low inside'. (omega arith, omega arith, inside')))
            (λ _. (omega arith, omega arith, inside))

  read_tl0-Steps : (v : Vp8) (idx : ℕ) → Yields (λ r. Steps 1 idx r.1) (read_tl0 v payload idx)
  unfolding read_tl0
  read_tl0-Steps v idx =
      Yields-bind (λ i. (i ≡ idx + 1) × (i < length payload)) _ (next v payload idx) _
        (next-Steps v idx)
        (λ i p.
          Yields-bind (λ _. leb (length payload) i ≡ false) _ (fail_if (leb (length payload) i) _ _)
            _ (Yields-fail_if _ _ _)
            (λ _ _. rw (get_elem?-eq-get_or payload i 0 p.1) (omega arith, omega arith, p.1)))

  read_tid_keyidx-Steps :
      (t k : Bool) (v : Vp8) (idx : ℕ)
      → Yields (λ r. Steps 1 idx r.1) (read_tid_keyidx t k v payload idx)
  unfolding read_tid_keyidx
  read_tid_keyidx-Steps t k v idx =
      read_next (λ r. Steps 1 idx r.1) v idx _ (λ b inside. (omega arith, omega arith, inside))

  when-Steps :
      (most : ℕ) (b : Bool) (f : Vp8 → ℕ → Parse (Vp8 × ℕ))
      → ((v : Vp8) (idx : ℕ) → Yields (λ r. Steps most idx r.1) (f v idx))
      → (v : Vp8) (idx : ℕ) → idx < length payload
      → Yields (λ r. (idx ≤ r.1) × (r.1 ≤ idx + most) × (r.1 < length payload)) (when b f v idx)
  when-Steps most true f h v idx inside =
      let weaken : (m : Parse (Vp8 × ℕ))
          → Yields (λ r. Steps most idx r.1) m
          → Yields (λ r. (idx ≤ r.1) × (r.1 ≤ idx + most) × (r.1 < length payload)) m =
        elim [ ok r ↦ λ p. omega arith | err e w ↦ λ p. tt | panic ↦ λ p. p ] in
      weaken (f v idx) (h v idx)
  when-Steps most false f h v idx inside = omega arith

  -- A header that lies inside the payload, with a byte behind it.
  abbrev pub HeaderInside : ℕ → Vp8 → Type 0
  HeaderInside most w =
      (1 ≤ w.header_size) × (w.header_size ≤ most) × (w.header_size < length payload)

  read_key_frame-Inside :
      (s : Bool) (v : Vp8) (idx most : ℕ)
      → idx < most
      → Yields (HeaderInside most) (read_key_frame s v payload idx)
  unfolding read_key_frame
  read_key_frame-Inside s v idx most h =
      read_next (HeaderInside most) v idx _ (λ b inside. (omega arith, omega arith, inside))

  -- What stands behind the picture id and the level index.
  read_rest-Inside :
      (t k s : Bool) (v : Vp8) (idx : ℕ)
      → idx ≤ 4
      → idx < length payload
      → Yields (HeaderInside 6) (
          when (t || k) (λ u i. read_tid_keyidx t k u payload i) v idx >>= λ r.
          fail_if (leb (length payload) r.1) short_packet r.0 >>= λ _.
          read_key_frame s r.0 payload r.1)
  read_rest-Inside t k s v idx h inside =
      Yields-bind _ (HeaderInside 6) (when (t || k) (λ u i. read_tid_keyidx t k u payload i) v idx)
        _ (when-Steps 1 (t || k) _ (read_tid_keyidx-Steps t k) v idx inside)
        λ r p.
          Yields-bind _ (HeaderInside 6) (fail_if (leb (length payload) r.1) _ _) _
            (Yields-fail_if _ _ _) λ _ _. read_key_frame-Inside s r.0 r.1 6 (omega arith)

  read_extended-Inside : (s : Bool) (v : Vp8) → Yields (HeaderInside 6) (read_extended s v payload)
  unfolding read_extended
  read_extended-Inside s v = read_next (HeaderInside 6) v 0 _ λ x inside.
      let t = has 0x20 x in
      let k = has 0x10 x in
      Yields-bind (λ _. Unit {0}) (HeaderInside 6) (fail_if (has 0x40 x && not t) _ v) _
        (Yields-weaken (λ _. Unit {0}) _ (λ _ _. tt) (Yields-fail_if _ _ v))
        λ _ _.
          Yields-bind _ (HeaderInside 6)
            (when (has 0x80 x) (λ u i. read_picture_id u payload i) v 1) _
            (when-Steps 2 (has 0x80 x) _ read_picture_id-Steps v 1 inside)
            λ r p.
              Yields-bind _ (HeaderInside 6)
                (when (has 0x40 x) (λ u i. read_tl0 u payload i) r.0 r.1) _
                (when-Steps 1 (has 0x40 x) _ read_tl0-Steps r.0 r.1 p.2)
                λ q p'. read_rest-Inside t k s q.0 q.1 (omega arith) p'.2

  unmarshal_bytes-Inside : (v : Vp8) → Yields (HeaderInside 6) (unmarshal_bytes v payload)
  unfolding unmarshal_bytes
  unmarshal_bytes-Inside v =
      Yields-bind _ (HeaderInside 6) (fail_if (ltb (length payload) 1) _ v) _ (Yields-fail_if _ _ v)
        λ _ some_byte. rw (get_elem?-eq-get_or payload 0 0 (ground arith)) (
          if_both (Yields (HeaderInside 6)) (has 0x80 (get_or payload 0 0))
            (λ _. read_extended-Inside _ _) (λ _. read_key_frame-Inside _ _ 0 6 (omega arith)))

-- `Unmarshal` never reads outside the payload. Where it succeeds, the header takes 1 to 6 bytes and
-- at least one byte of the payload follows it.
pub unmarshal-HeaderInside :
    (v : Vp8) (payload : List ℕ) → Yields (HeaderInside payload 6) (unmarshal v (some payload))
unfolding unmarshal
unmarshal-HeaderInside v payload = unmarshal_bytes-Inside payload v
