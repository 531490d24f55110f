-- ===== src/Sequencer/Wrap.antt =====
-- `wrap` of pkg/rtc/sequencer.go: both loops end, and together they take the Euclidean remainder.
use go_ortc.Base.{
  ℕ, zero, suc, ◌+◌, ◌-◌, ◌*◌, ◌/◌, ◌%◌, ◌≤◌, ◌<◌, ◌≡◌, sym, ap, ◌∙◌, ◌⊎◌, inl, inr, arith,
}
use go_ortc.Base.Int.{ℤ, pos, negsuc, sub_ℕ}
use go_ortc.Sequencer.{wrap_up, wrap_down, wrap}
use native.Mathlib.Nat.{
  mod-eq-sub-mod, mod-eq_of_lt, mod-lt, mod-mod, mod_self, mod-add-mod, mul-mod_left, div-add-mod,
}
use native.Mathlib.Decide.{dec_lt}

wrap_down_lem : (fuel max n : ℕ) → 0 < max → n ≤ fuel → wrap_down fuel max n ≡ n % max
unfolding wrap_down
wrap_down_lem zero max n h hf = omega (arith, mod-eq_of_lt {n = n} {m = max})
wrap_down_lem (suc fuel) max n h hf = elim (dec_lt n max) [
  | yes p ↦ ground (arith, mod-eq_of_lt p)
  | no p ↦ ground (
    arith,
    mod-eq-sub-mod {n = n} {m = max} (omega arith),
    wrap_down_lem fuel max (n - max) h (omega arith),
  )
]

wrap_up_lem :
    (fuel max n : ℕ) → 0 < max → n < fuel → wrap_up fuel max (negsuc n) ≡ max - 1 - n % max
unfolding wrap_up
wrap_up_lem zero max n h hf = absurd (omega arith)
wrap_up_lem (suc fuel) max n h hf = elim (dec_lt n max) [
  | yes p ↦ ground (arith, mod-eq_of_lt p)
  | no p ↦
      ground
        (arith, mod-eq-sub-mod {n = n} {m = max} (omega arith), wrap_up_lem fuel max (n - max) h)
]

pub wrap-pos : (max n : ℕ) → 0 < max → wrap max (pos n) ≡ n % max
unfolding wrap wrap_up
wrap-pos max n h = wrap_down_lem n max n h (omega arith)

pub wrap-negsuc : (max n : ℕ) → 0 < max → wrap max (negsuc n) ≡ max - 1 - n % max
unfolding wrap
wrap-negsuc max n h =
    wrap_down_lem _ max _ h (omega arith)
    ∙ ap (λ (t : ℕ). t % max) (wrap_up_lem (suc n) max n h (omega arith))
    ∙ mod-eq_of_lt (omega arith)

pub wrap-lt : (max : ℕ) (z : ℤ) → 0 < max → wrap max z < max
wrap-lt max (pos n) h = omega (arith, wrap-pos max n h, mod-lt n h)
wrap-lt max (negsuc n) h = omega (arith, wrap-negsuc max n h)

-- `r` is `z` up to a multiple of `max`.
abbrev pub Congruent : (max : ℕ) → ℤ → ℕ → Type 0
Congruent max (pos n) r = r % max ≡ n % max
Congruent max (negsuc n) r = (r + suc n) % max ≡ 0

-- On every integer `wrap` of a ring that is not empty ends inside the ring, at the slot that
-- differs from its argument by a multiple of the size.
pub wrap_remainder : (max : ℕ) (z : ℤ) → 0 < max → (wrap max z < max) × Congruent max z (wrap max z)
wrap_remainder max (pos n) h =
    (wrap-lt max (pos n) h, ap (λ (t : ℕ). t % max) (wrap-pos max n h) ∙ mod-mod n max)
wrap_remainder max (negsuc n) h =
    let whole : max - 1 - n % max + suc n ≡ suc (n / max) * max =
      omega (arith, mod-lt n h, div-add-mod n max) in
    (wrap-lt max (negsuc n) h, rw (wrap-negsuc max n h, whole) (mul-mod_left (suc (n / max)) max))

-- A difference that is not below `-max`, in closed form.
pub wrap-sub_ℕ_le : (max a b : ℕ) → b ≤ a → a < max → wrap max (sub_ℕ a b) ≡ a - b
wrap-sub_ℕ_le max a b h ha =
    ground (arith, wrap-pos max (a - b), mod-eq_of_lt {n = a - b} {m = max})

pub wrap-sub_ℕ_gt : (max a b : ℕ) → a < b → b ≤ max → wrap max (sub_ℕ a b) ≡ a + max - b
wrap-sub_ℕ_gt max a b h hb =
    ground (arith, wrap-negsuc max (b - a - 1), mod-eq_of_lt {n = b - a - 1} {m = max})

-- One step back from a slot is the slot before it.
pub wrap_pred :
    (max n : ℕ) → 0 < max → wrap max (sub_ℕ (wrap max (pos (n + 1))) 1) ≡ wrap max (pos n)
wrap_pred max n h = elim (dec_lt (n % max + 1) max) [
  | yes p ↦
      let next : wrap max (pos (n + 1)) ≡ n % max + 1 =
        wrap-pos max (n + 1) h ∙ sym (mod-add-mod n max 1) ∙ mod-eq_of_lt p in
      rw next (omega (arith, wrap-sub_ℕ_le max (n % max + 1) 1 (omega arith) p, wrap-pos max n h))
  | no p ↦
      let full : n % max + 1 ≡ max = omega (arith, mod-lt n h) in
      let next : wrap max (pos (n + 1)) ≡ 0 =
        wrap-pos max (n + 1) h ∙ sym (mod-add-mod n max 1) ∙ rw full (mod_self max) in
      rw next (omega (arith, wrap-sub_ℕ_gt max 0 1 (omega arith) h, wrap-pos max n h))
]

-- Less than one round ahead, in closed form.
pub wrap-pos_near :
    (max n : ℕ)
    → n < max + max
    → ((n < max) × (wrap max (pos n) ≡ n)) ⊎ ((max ≤ n) × (wrap max (pos n) ≡ n - max))
wrap-pos_near max n h = elim (dec_lt n max) [
  | yes p ↦ inl (p, wrap-pos max n (omega arith) ∙ mod-eq_of_lt p)
  | no p ↦ inr (
    omega arith,
    wrap-pos max n (omega arith)
        ∙ mod-eq-sub-mod {n = n} {m = max} (omega arith)
        ∙ mod-eq_of_lt (omega arith),
  )
]

-- Less than one round back, in closed form.
pub wrap-sub_ℕ_near :
    (max a b : ℕ)
    → a < max
    → b ≤ max
    → ((b ≤ a) × (wrap max (sub_ℕ a b) ≡ a - b)) ⊎ ((a < b) × (wrap max (sub_ℕ a b) ≡ a + max - b))
wrap-sub_ℕ_near max a b h hb = elim (dec_lt a b) [
  | yes p ↦ inr (p, wrap-sub_ℕ_gt max a b p hb)
  | no p ↦ inl (omega arith, wrap-sub_ℕ_le max a b (omega arith) h)
]
