-- ===== src/KeyFrame/Av1.antt =====
-- `IsAV1Keyframe` of pkg/buffer/helpers.go: its loops end, and a size of ten bytes makes it panic.
use go_ortc.Base.{
  ℕ, zero, suc, ◌+◌, ◌*◌, ◌/◌, ◌≤◌, ◌<◌, ◌≡◌, ◌≢◌, refl, ap, ◌∙◌, Bool, true, false, ◌||◌, Option,
  none, some, List, ◌∷◌, ltb, leb, ◌==◌, length, get_elem?, drop, arith, bit_and, bit_or,
  if◌then◌else◌,
}
use go_ortc.Base.Bits.{bit_and-le}
use go_ortc.Base.Words.{shl}
use go_ortc.KeyFrame.{
  Run, ret, panic, stuck, cut_obu, size_loop, get_obu, Verdict, say, go_on, judge, unless_said,
  obu_loop, is_av1_keyframe, at, ◌>>=◌, or_panic,
}

-- The fuel did not run out.
abbrev pub Ends {ℓ} : {A : Type ℓ} → Run A → Type ℓ
Ends m = m ≢ stuck

Ends-ret {ℓ} : {A : Type ℓ} (a : A) → Ends (ret a)
Ends-ret a e = cc

Ends-panic {ℓ} : {A : Type ℓ} → Ends {A = A} panic
Ends-panic e = cc

Ends-if {ℓ} :
    {A : Type ℓ} (b : Bool) {x y : Run A}
    → (b ≡ true → Ends x)
    → (b ≡ false → Ends y)
    → Ends (if b then x else y)
Ends-if true f g = f refl
Ends-if false f g = g refl

Ends-bind {ℓ κ} :
    {A : Type ℓ} {B : Type κ} {m : Run A} {f : A → Run B}
    → Ends m
    → ((a : A) → Ends (f a))
    → Ends (m >>= f)
Ends-bind {m = ret a} h k e = k a e
Ends-bind {m = panic} h k e = cc
Ends-bind {m = stuck} h k e = absurd (h refl)

Ends-or_panic : (o : Option ℕ) → Ends (or_panic o)
Ends-or_panic none = Ends-panic
Ends-or_panic (some a) = Ends-ret a

Ends-at : (payload : List ℕ) (i : ℕ) → Ends (at payload i)
Ends-at payload i = Ends-or_panic (get_elem? payload i)

cut_obu-Ends : (rest : List ℕ) (offset size : ℕ) → Ends (cut_obu rest offset size)
unfolding cut_obu
cut_obu-Ends rest offset size e = ground arith

size_loop-Ends :
    (fuel : ℕ) (rest : List ℕ) (offset size : ℕ)
    → length rest < offset + fuel
    → offset ≤ length rest
    → Ends (size_loop fuel rest offset size)
unfolding size_loop
size_loop-Ends zero rest offset size h k = absurd (omega arith)
size_loop-Ends (suc fuel) rest offset size h k =
    Ends-if (leb (length rest) offset) (λ _. Ends-ret _)
      λ more. Ends-bind (Ends-at rest offset) λ l.
        Ends-if (bit_and l 0x80 == 0) (λ _. cut_obu-Ends rest (offset + 1) _)
          (λ _. size_loop-Ends fuel rest (offset + 1) _ (omega arith) (ground arith))

get_obu-Ends : (rest : List ℕ) (last : Bool) → Ends (get_obu rest last)
unfolding get_obu
get_obu-Ends rest last =
    Ends-if last (λ _. Ends-ret _) (λ _. size_loop-Ends _ rest 0 0 (omega arith) (omega arith))

judge-Ends : (i tpe : ℕ) (body : List ℕ) → Ends (judge i tpe body)
unfolding judge
judge-Ends zero tpe body e = ground arith
judge-Ends (suc i) tpe body e = ground (arith, Ends-at body 1)

unless_said-Ends : (v : Verdict) (more : Run Bool) → Ends more → Ends (unless_said v more)
unless_said-Ends (say b) more h = Ends-ret b
unless_said-Ends go_on more h = h

obu_loop-Ends :
    (fuel w i : ℕ) (rest : List ℕ) → w < i + fuel → 0 < fuel → Ends (obu_loop fuel w i rest)
unfolding obu_loop
obu_loop-Ends zero w i rest h pos = absurd (omega arith)
obu_loop-Ends (suc fuel) w i rest h pos = Ends-bind (get_obu-Ends rest (w == i + 1)) λ o.
    Ends-if (ltb (length o.body) 1) (λ _. Ends-ret false)
      λ _. Ends-bind (Ends-at o.body 0) λ b. Ends-bind (judge-Ends i _ o.body) λ v.
        unless_said-Ends v _ (
          Ends-if (o.truncated || leb w i) (λ _. Ends-ret false)
            (λ on. obu_loop-Ends fuel w (i + 1) (drop o.size rest) (omega arith) (ground arith)))

-- The count of units is read from two bits.
two_bits : (b : ℕ) → bit_and b 0x30 / 16 ≤ 3
two_bits b = omega (arith, bit_and-le b 0x30)

-- Whatever the payload, the loops of `IsAV1Keyframe` end within the fuel.
pub is_av1_keyframe-Ends : (payload : List ℕ) → Ends (is_av1_keyframe payload)
unfolding is_av1_keyframe
is_av1_keyframe-Ends payload =
    Ends-if (ltb (length payload) 2) (λ _. Ends-ret false)
      λ _. Ends-bind (Ends-at payload 0) λ first.
        Ends-if (bit_and first 0x88 == 0x08)
          (λ _. obu_loop-Ends 4 _ 0 (drop 1 payload) (omega (arith, two_bits first)) (omega arith))
          (λ _. Ends-ret false)

-- One round over a size byte that holds no bits and is not the last.
empty_size_byte :
    (fuel : ℕ) (rest : List ℕ) (i : ℕ)
    → get_elem? rest i ≡ some 0x80
    → i < length rest
    → size_loop (suc fuel) rest i 0 ≡ size_loop fuel rest (i + 1) 0
unfolding size_loop
empty_size_byte fuel rest i e h =
    let more : leb (length rest) i ≡ false = ground arith in
    let none_set : shl 64 0 (i * 7) ≡ 0 = omega arith in
    rw (more, e) (ap (λ (t : ℕ). size_loop fuel rest (i + 1) (bit_or 0 t)) none_set)

-- Nine such bytes, and then 1: the size is -2^63.
negative_size :
    (fuel : ℕ) (rest : List ℕ)
    → get_elem? rest 9 ≡ some 0x01
    → 9 < length rest
    → size_loop (suc fuel) rest 9 0 ≡ panic
unfolding size_loop cut_obu
negative_size fuel rest e h = let more : leb (length rest) 9 ≡ false = ground arith in rw (more, e)

-- Ten bytes of size, and whatever follows.
abbrev pub ten_byte_size : List ℕ → List ℕ
ten_byte_size rest = 0x80 ∷ 0x80 ∷ 0x80 ∷ 0x80 ∷ 0x80 ∷ 0x80 ∷ 0x80 ∷ 0x80 ∷ 0x80 ∷ 0x01 ∷ rest

get_obu-ten_byte_size : (rest : List ℕ) → get_obu (ten_byte_size rest) false ≡ panic
unfolding get_obu
get_obu-ten_byte_size rest =
    let l = ten_byte_size rest in
    empty_size_byte _ l 0 refl (omega arith)
    ∙ empty_size_byte _ l 1 refl (omega arith)
    ∙ empty_size_byte _ l 2 refl (omega arith)
    ∙ empty_size_byte _ l 3 refl (omega arith)
    ∙ empty_size_byte _ l 4 refl (omega arith)
    ∙ empty_size_byte _ l 5 refl (omega arith)
    ∙ empty_size_byte _ l 6 refl (omega arith)
    ∙ empty_size_byte _ l 7 refl (omega arith)
    ∙ empty_size_byte _ l 8 refl (omega arith)
    ∙ negative_size _ l refl (omega arith)

-- A payload of two or three units whose first unit has its size in ten bytes, nine that say "more"
-- with no bits and then 1, makes the function panic, whatever follows: the size is the least
-- integer, and the slice ends before it starts.
pub is_av1_keyframe_panics :
    (first : ℕ) (rest : List ℕ)
    → bit_and first 0x88 ≡ 0x08
    → 2 ≤ bit_and first 0x30 / 16
    → is_av1_keyframe (first ∷ ten_byte_size rest) ≡ panic
unfolding is_av1_keyframe obu_loop
is_av1_keyframe_panics first rest e h =
    let long : ltb (length (first ∷ ten_byte_size rest)) 2 ≡ false = ground arith in
    let several : (bit_and first 0x30 / 16 == 1) ≡ false = ground arith in
    rw (long, e, several, get_obu-ten_byte_size rest)
