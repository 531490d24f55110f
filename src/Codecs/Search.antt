-- ===== src/Codecs/Search.antt =====
-- Which codec the search of pkg/rtc/utils.go returns.
use go_ortc.Base.{
  ℕ, ◌+◌, ◌≤◌, ◌<◌, ◌≡◌, ◌⊎◌, refl, ap, ap₂, subst, Bool, true, false, ◌&&◌, leb, ◌==◌, if_both,
  Bool-cases, inl, inr, Option, none, some, List, [], ◌∷◌, ◌++◌, All, arith,
}
use go_ortc.Codecs.{
  CodecParameters, to_lower, text_eq, equal_fold, same_mime, is_exact, find_first, or_else,
  codec_parameters_fuzzy_search,
}

-- A text of ASCII bytes, for which `strings.EqualFold` folds the letters from `A` to `Z` alone.
abbrev pub IsAscii : List ℕ → Type 0
IsAscii text = All (λ b. b < 128) text

-- A letter is the other one, or the other one in the other case (`A` is 65, `Z` is 90, `a` is 97).
abbrev pub SameLetter : ℕ → ℕ → Type 0
SameLetter c d =
    (c ≡ d) ⊎ ((65 ≤ c) × (c ≤ 90) × (d ≡ c + 32)) ⊎ ((65 ≤ d) × (d ≤ 90) × (c ≡ d + 32))

-- Two texts with the same letters but for their case.
abbrev pub SameFold : List ℕ → List ℕ → Type 0
SameFold [] [] = Unit {0}
SameFold [] (d ∷ t) = ⊥
SameFold (c ∷ s) [] = ⊥
SameFold (c ∷ s) (d ∷ t) = SameLetter c d × SameFold s t

-- The codec has the mime type of the needle.
abbrev pub HasMime : (needle c : CodecParameters) → Type 0
HasMime needle c = SameFold c.mime_type needle.mime_type

-- The codec has the mime type and the format line of the needle.
abbrev pub HasBoth : (needle c : CodecParameters) → Type 0
HasBoth needle c = HasMime needle c × (c.sdp_fmtp_line ≡ needle.sdp_fmtp_line)

-- The codec has the property, and no codec before it has it.
pub record FirstOf (P : CodecParameters → Type 0) (haystack : List CodecParameters)
    (c : CodecParameters) : Type 0 where
  pub before : List CodecParameters
  pub after : List CodecParameters
  pub place : haystack ≡ before ++ (c ∷ after)
  pub fail : All (λ d. ¬ P d) before
  pub passes : P c

-- The three answers of the search.
pub data Answer (needle : CodecParameters) (haystack : List CodecParameters)
    : Option CodecParameters → Type 0 where
  exact :
      {c : CodecParameters} → FirstOf (HasBoth needle) haystack c → Answer needle haystack (some c)
  by_mime :
      {c : CodecParameters}
      → All (λ d. ¬ HasBoth needle d) haystack
      → FirstOf (HasMime needle) haystack c
      → Answer needle haystack (some c)
  missing : All (λ d. ¬ HasMime needle d) haystack → Answer needle haystack none

-- A Boolean test decides a property.
abbrev Decides : (P : Type 0) → Bool → Type 0
Decides P true = P
Decides P false = ¬ P

Decides-map : (P Q : Type 0) (b : Bool) → (P → Q) → (Q → P) → Decides P b → Decides Q b
Decides-map P Q true to from p = to p
Decides-map P Q false to from p = λ q. p (from q)

Decides-both : (P Q : Type 0) (a b : Bool) → Decides P a → Decides Q b → Decides (P × Q) (a && b)
Decides-both P Q true true p q = (p, q)
Decides-both P Q true false p q = λ r. q r.1
Decides-both P Q false true p q = λ r. p r.0
Decides-both P Q false false p q = λ r. p r.0

eq-Decides : (c d : ℕ) → Decides (c ≡ d) (c == d)
eq-Decides c d = elim (Bool-cases (c == d)) [
  | inl e ↦ rw e (ground arith)
  | inr e ↦ rw e (λ same. ground arith)
]

cons_eq : (c d : ℕ) (s t : List ℕ) → (c ≡ d) × (s ≡ t) → (c ∷ s) ≡ (d ∷ t)
cons_eq c d s t (e, f) = ap₂ (λ (x : ℕ) (l : List ℕ). x ∷ l) e f

abbrev head_of : ℕ → List ℕ → ℕ
head_of d [] = d
head_of d (c ∷ s) = c

abbrev tail_of : List ℕ → List ℕ
tail_of [] = []
tail_of (c ∷ s) = s

text_eq-Decides : (s t : List ℕ) → Decides (s ≡ t) (text_eq s t)
unfolding text_eq
text_eq-Decides [] [] = refl
text_eq-Decides [] (d ∷ t) = λ e. absurd (cc)
text_eq-Decides (c ∷ s) [] = λ e. absurd (cc)
text_eq-Decides (c ∷ s) (d ∷ t) =
    Decides-map _ _ (c == d && text_eq s t) (cons_eq c d s t)
      (λ e. (ap (head_of 0) e, ap tail_of e))
      (Decides-both _ _ (c == d) (text_eq s t) (eq-Decides c d) (text_eq-Decides s t))

to_lower-SameLetter : (c d : ℕ) → to_lower c ≡ to_lower d → SameLetter c d
to_lower-SameLetter c d e =
    if_both (λ (x : ℕ). x ≡ to_lower d → SameLetter c d) (leb 65 c && leb c 90)
      (λ up.
        if_both (λ (y : ℕ). c + 32 ≡ y → SameLetter c d) (leb 65 d && leb d 90)
          (λ _ same. inl (omega (arith, same)))
          (λ _ same. inr (inl (ground arith, ground arith, omega (arith, same)))))
      (λ _.
        if_both (λ (y : ℕ). c ≡ y → SameLetter c d) (leb 65 d && leb d 90)
          (λ up same. inr (inr (ground arith, ground arith, same))) (λ _ same. inl same))
      e

SameLetter-to_lower : (c d : ℕ) → SameLetter c d → to_lower c ≡ to_lower d
SameLetter-to_lower c d (inl e) = ap to_lower e
SameLetter-to_lower c d (inr (inl (lo, hi, e))) = ground arith
SameLetter-to_lower c d (inr (inr (lo, hi, e))) = ground arith

equal_fold-Decides : (s t : List ℕ) → Decides (SameFold s t) (equal_fold s t)
unfolding text_eq
equal_fold-Decides [] [] = tt
equal_fold-Decides [] (d ∷ t) = λ e. e
equal_fold-Decides (c ∷ s) [] = λ e. e
equal_fold-Decides (c ∷ s) (d ∷ t) =
    Decides-both _ _ (to_lower c == to_lower d) (equal_fold s t)
      (Decides-map _ _ (to_lower c == to_lower d) (to_lower-SameLetter c d)
        (SameLetter-to_lower c d) (eq-Decides (to_lower c) (to_lower d)))
      (equal_fold-Decides s t)

same_mime-Decides : (needle c : CodecParameters) → Decides (HasMime needle c) (same_mime needle c)
same_mime-Decides needle c = equal_fold-Decides c.mime_type needle.mime_type

is_exact-Decides : (needle c : CodecParameters) → Decides (HasBoth needle c) (is_exact needle c)
is_exact-Decides needle c =
    Decides-both _ _ (same_mime needle c) (text_eq c.sdp_fmtp_line needle.sdp_fmtp_line)
      (same_mime-Decides needle c) (text_eq-Decides c.sdp_fmtp_line needle.sdp_fmtp_line)

abbrev Finds : (CodecParameters → Type 0) → List CodecParameters → Option CodecParameters → Type 0
Finds P haystack none = All (λ d. ¬ P d) haystack
Finds P haystack (some c) = FirstOf P haystack c

Finds-cons :
    (P : CodecParameters → Type 0) (d : CodecParameters) (haystack : List CodecParameters)
    (o : Option CodecParameters)
    → ¬ P d
    → Finds P haystack o
    → Finds P (d ∷ haystack) o
Finds-cons P d haystack none e all = (e, all)
Finds-cons P d haystack (some c) e f = record {
  before = d ∷ f.before;
  after = f.after;
  place = ap (λ (l : List CodecParameters). d ∷ l) f.place;
  fail = (e, f.fail);
  passes = f.passes;
}

find_first-Finds :
    (P : CodecParameters → Type 0) (test : CodecParameters → Bool)
    → ((c : CodecParameters) → Decides (P c) (test c))
    → (haystack : List CodecParameters) → Finds P haystack (find_first test haystack)
unfolding find_first
find_first-Finds P test decides [] = tt
find_first-Finds P test decides (d ∷ haystack) = elim (Bool-cases (test d)) [
  | inl e ↦
      rw (e, find_first)
        (record {
          before = [];
          after = haystack;
          place = refl;
          fail = tt;
          passes = subst (Decides (P d)) e (decides d);
        })
  | inr e ↦
      rw (e, find_first)
        (Finds-cons P d haystack _ (subst (Decides (P d)) e (decides d))
          (find_first-Finds P test decides haystack))
]

Answer-of :
    (needle : CodecParameters) (haystack : List CodecParameters) (o q : Option CodecParameters)
    → Finds (HasBoth needle) haystack o
    → Finds (HasMime needle) haystack q
    → Answer needle haystack (or_else o q)
Answer-of needle haystack (some c) q f g = exact f
Answer-of needle haystack none (some c) f g = by_mime f g
Answer-of needle haystack none none f g = missing g

-- Where all mime types are ASCII, the search returns the first codec that has the mime type, up to the
-- case of its letters, and exactly the format line of the needle; where no codec has both, the first
-- one that has the mime type; and it fails only where no codec of the list has that mime type.
pub codec_parameters_fuzzy_search-Answer :
    (needle : CodecParameters) (haystack : List CodecParameters)
    → IsAscii needle.mime_type
    → All (λ c. IsAscii c.mime_type) haystack
    → Answer needle haystack (codec_parameters_fuzzy_search needle haystack)
unfolding codec_parameters_fuzzy_search
codec_parameters_fuzzy_search-Answer needle haystack ascii all_ascii =
    Answer-of needle haystack _ _
      (find_first-Finds (HasBoth needle) (is_exact needle) (is_exact-Decides needle) haystack)
      (find_first-Finds (HasMime needle) (same_mime needle) (same_mime-Decides needle) haystack)
