-- ===== src/Vp8/Room.antt =====
-- `MarshalTo` of pkg/buffer/helpers.go on a buffer with room for the descriptor.
use go_ortc.Base.{
  ℕ, ◌+◌, ◌%◌, ◌≤◌, ◌≡◌, refl, subst, ◌∙◌, Bool, true, false, ◌||◌, List, ltb, ◌==◌, if◌then◌else◌,
  length, get_or, length-set, get_or-set_ne, arith,
}
use go_ortc.Vp8.{Vp8, Parse, ok, err, panic, ◌>>=◌}
use go_ortc.Vp8.Marshal.{
  put, put_picture_id, put_tl0, tid_byte, put_tid, is_extended, put_extended, put_header,
  marshal_to, picture_id_size, size_of,
}

-- A run that ends with a result, which has the property.
abbrev pub Succeeds : {A : Type 0} → (A → Type 0) → Parse A → Type 0
Succeeds P (ok a) = P a
Succeeds P (err e v) = ⊥
Succeeds P panic = ⊥

Succeeds-bind :
    {A B : Type 0} (P : A → Type 0) (Q : B → Type 0) (m : Parse A) (f : A → Parse B)
    → Succeeds P m
    → ((a : A) → P a → Succeeds Q (f a))
    → Succeeds Q (m >>= f)
Succeeds-bind P Q (ok a) f h k = k a h
Succeeds-bind P Q (err e v) f h k = h
Succeeds-bind P Q panic f h k = h

-- What a buffer and an index have, of those before, after `n` bytes are written.
pub record Wrote (n : ℕ) (q r : List ℕ × ℕ) : Type 0 where
  pub index : r.1 ≡ q.1 + n
  pub same_length : length r.0 ≡ length q.0
  pub kept : (j : ℕ) → q.1 + n ≤ j → get_or r.0 j 0 ≡ get_or q.0 j 0

Wrote-none : (q : List ℕ × ℕ) → Wrote 0 q q
Wrote-none q = record { index = omega arith; same_length = refl; kept = λ j h. refl }

Wrote-trans : (m n : ℕ) (q r s : List ℕ × ℕ) → Wrote m q r → Wrote n r s → Wrote (m + n) q s
Wrote-trans m n q r s a b = record {
  index = omega (arith, a.index, b.index);
  same_length = b.same_length ∙ a.same_length;
  kept = λ j h. b.kept j (omega (arith, a.index)) ∙ a.kept j (omega arith);
}

put-Wrote : (b : ℕ) (q : List ℕ × ℕ) → q.1 + 1 ≤ length q.0 → Succeeds (Wrote 1 q) (put b q)
unfolding put
put-Wrote b (buf, idx) room =
    let inside : ltb idx (length buf) ≡ true = ground arith in
    rw inside (record {
      index = refl;
      same_length = length-set buf idx (b % 256);
      kept = λ j h. get_or-set_ne buf idx j (b % 256) 0 (λ e. absurd (omega (arith, e)));
    })

Succeeds-weaken :
    {A : Type 0} (P Q : A → Type 0) (m : Parse A)
    → ((a : A) → P a → Q a)
    → Succeeds P m
    → Succeeds Q m
Succeeds-weaken P Q (ok a) k h = k a h
Succeeds-weaken P Q (err e v) k h = h
Succeeds-weaken P Q panic k h = h

-- Writes of `m` and then of `n` bytes.
then-Wrote :
    (m n : ℕ) (q : List ℕ × ℕ) (p : Parse (List ℕ × ℕ)) (k : List ℕ × ℕ → Parse (List ℕ × ℕ))
    → q.1 + (m + n) ≤ length q.0
    → Succeeds (Wrote m q) p
    → ((r : List ℕ × ℕ) → r.1 + n ≤ length r.0 → Succeeds (Wrote n r) (k r))
    → Succeeds (Wrote (m + n) q) (p >>= k)
then-Wrote m n q p k room first next = Succeeds-bind (Wrote m q) (Wrote (m + n) q) p k first λ r a.
    Succeeds-weaken (Wrote n r) (Wrote (m + n) q) (k r) (λ s b. Wrote-trans m n q r s a b)
      (next r (omega (arith, a.index, a.same_length)))

-- A part that writes `n` bytes if it is there.
optional-Wrote :
    (b : Bool) (n : ℕ) (q : List ℕ × ℕ) (p : Parse (List ℕ × ℕ))
    → q.1 + (if b then n else 0) ≤ length q.0
    → (q.1 + n ≤ length q.0 → Succeeds (Wrote n q) p)
    → Succeeds (Wrote (if b then n else 0) q) (if b then p else ok q)
optional-Wrote true n q p room h = h room
optional-Wrote false n q p room h = Wrote-none q

put_long-Wrote :
    (b c : ℕ) (q : List ℕ × ℕ) → q.1 + 2 ≤ length q.0 → Succeeds (Wrote 2 q) (put b q >>= put c)
put_long-Wrote b c q room =
    then-Wrote 1 1 q (put b q) (put c) room (put-Wrote b q (omega arith)) (λ r h. put-Wrote c r h)

-- One of two parts.
either-Wrote :
    (b : Bool) (m n : ℕ) (q : List ℕ × ℕ) (p p' : Parse (List ℕ × ℕ))
    → q.1 + (if b then m else n) ≤ length q.0
    → (q.1 + m ≤ length q.0 → Succeeds (Wrote m q) p)
    → (q.1 + n ≤ length q.0 → Succeeds (Wrote n q) p')
    → Succeeds (Wrote (if b then m else n) q) (if b then p else p')
either-Wrote true m n q p p' room g h = g room
either-Wrote false m n q p p' room g h = h room

put_picture_id-Wrote :
    (v : Vp8) (q : List ℕ × ℕ)
    → q.1 + picture_id_size v ≤ length q.0
    → Succeeds (Wrote (picture_id_size v) q) (put_picture_id v q)
unfolding put_picture_id
put_picture_id-Wrote v q room =
    optional-Wrote (v.picture_id_present == 1) (if v.m_bit then 2 else 1) q _ room λ inside.
      either-Wrote v.m_bit 2 1 q _ _ inside (λ h. put_long-Wrote _ _ q h)
        (λ h. put-Wrote v.picture_id q h)

put_tl0-Wrote :
    (v : Vp8) (q : List ℕ × ℕ)
    → q.1 + (if v.tl0_picidx_present == 1 then 1 else 0) ≤ length q.0
    → Succeeds (Wrote (if v.tl0_picidx_present == 1 then 1 else 0) q) (put_tl0 v q)
unfolding put_tl0
put_tl0-Wrote v q room =
    optional-Wrote (v.tl0_picidx_present == 1) 1 q _ room (λ h. put-Wrote v.tl0_picidx q h)

put_tid-Wrote :
    (v : Vp8) (q : List ℕ × ℕ)
    → q.1 + (if v.tid_present == 1 || v.keyidx_present == 1 then 1 else 0) ≤ length q.0
    → Succeeds
        (Wrote (if v.tid_present == 1 || v.keyidx_present == 1 then 1 else 0) q)
        (put_tid v q)
unfolding put_tid
put_tid-Wrote v q room =
    optional-Wrote (v.tid_present == 1 || v.keyidx_present == 1) 1 q _ room
      (λ h. put-Wrote (tid_byte v) q h)

put_extended-Wrote :
    (v : Vp8) (q : List ℕ × ℕ) (pid tl0 tid : ℕ)
    → picture_id_size v ≡ pid
    → (if v.tl0_picidx_present == 1 then 1 else 0) ≡ tl0
    → (if v.tid_present == 1 || v.keyidx_present == 1 then 1 else 0) ≡ tid
    → q.1 + (1 + (1 + (pid + (tl0 + tid)))) ≤ length q.0
    → Succeeds (Wrote (1 + (1 + (pid + (tl0 + tid)))) q) (put_extended v q)
unfolding put_extended
put_extended-Wrote v q pid tl0 tid is_pid is_tl0 is_tid room =
    then-Wrote 1 (1 + (pid + (tl0 + tid))) q _ _ room (put-Wrote _ q (omega arith)) λ q1 h1.
      then-Wrote 1 (pid + (tl0 + tid)) q1 _ _ h1 (put-Wrote _ q1 (omega arith)) λ q2 h2.
        then-Wrote pid (tl0 + tid) q2 _ _ h2
          (subst (λ (n : ℕ). Succeeds (Wrote n q2) (put_picture_id v q2)) is_pid
            (put_picture_id-Wrote v q2 (omega arith)))
          λ q3 h3.
            then-Wrote tl0 tid q3 _ _ h3
              (subst (λ (n : ℕ). Succeeds (Wrote n q3) (put_tl0 v q3)) is_tl0
                (put_tl0-Wrote v q3 (omega arith)))
              λ q4 h4.
                subst (λ (n : ℕ). Succeeds (Wrote n q4) (put_tid v q4)) is_tid
                  (put_tid-Wrote v q4 (omega arith))

put_header-Wrote :
    (v : Vp8) (q : List ℕ × ℕ)
    → q.1 + size_of v ≤ length q.0
    → Succeeds (Wrote (size_of v) q) (put_header v q)
unfolding put_header
put_header-Wrote v q room =
    let pid : ℕ = picture_id_size v in
    let tl0 : ℕ = if v.tl0_picidx_present == 1 then 1 else 0 in
    let tid : ℕ = if v.tid_present == 1 || v.keyidx_present == 1 then 1 else 0 in
    let parts : 1 + (1 + (pid + (tl0 + tid))) ≡ 2 + pid + tl0 + tid = omega arith in
    either-Wrote (is_extended v) (2 + pid + tl0 + tid) 1 q _ _ room
      (λ h.
        subst (λ (n : ℕ). Succeeds (Wrote n q) (put_extended v q)) parts
          (put_extended-Wrote v q pid tl0 tid refl refl refl (omega (arith, h))))
      (λ h. put-Wrote _ q h)

-- `MarshalTo` on a buffer that is as long as the header size of the descriptor and as the bytes of
-- its parts neither fails nor panics; it keeps the length of the buffer and every byte behind those
-- that it writes: the first byte and, if any part is present, the byte of flags and one byte for each
-- part, two for a long picture id.
pub marshal_to-Succeeds :
    (v : Vp8) (buf : List ℕ)
    → v.header_size ≤ length buf
    → size_of v ≤ length buf
    → Succeeds
        (λ out.
          (length out ≡ length buf) × ((j : ℕ) → size_of v ≤ j → get_or out j 0 ≡ get_or buf j 0))
        (marshal_to v buf)
unfolding marshal_to
marshal_to-Succeeds v buf header room =
    let enough : ltb (length buf) v.header_size ≡ false = ground arith in
    rw enough (
      Succeeds-bind (Wrote (size_of v) (buf, 0)) _ (put_header v (buf, 0)) _
        (put_header-Wrote v (buf, 0) (omega arith))
        (λ q w. (w.same_length, λ j h. w.kept j (omega (arith, h)))))
