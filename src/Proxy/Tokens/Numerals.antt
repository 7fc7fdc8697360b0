-- ===== src/Proxy/Tokens/Numerals.antt =====
-- Decimal numerals with blanks before them, and what `TrimSpace` and `Atoi` make of them.
use llm_request_balancer.Common.{
  ℕ, zero, suc, ◌+◌, ◌-◌, ◌*◌, ◌≤◌, ◌<◌, ◌≡◌, refl, sym, ap, ◌∙◌, true, false, none, some, List, [],
  ◌∷◌, ◌++◌, map, arith, length, length-append, All, All-append, ◌==◌,
}
use llm_request_balancer.Common.Int.{pos}
use llm_request_balancer.Queue.Item.{Bytes}
use llm_request_balancer.Proxy.Tokens.{
  is_end, strip, spaces, strip_any, trim_front, trim_space, is_digit, digits, atoi,
}
use mathlib.Core.List.{reverse, reverse-append, reverse-reverse}

-- The decimal numerals, leading zeros allowed.
pub data Numeral : Bytes → ℕ → Type 0 where
  digit : (d : ℕ) → d < 10 → Numeral ((b'0' + d) ∷ []) d
  more :
      {s : Bytes} {n : ℕ}
      → Numeral s n
      → (d : ℕ) → d < 10
      → Numeral (s ++ (b'0' + d) ∷ []) (n * 10 + d)

abbrev pub blanks : ℕ → Bytes
blanks zero = []
blanks (suc k) = 0x20 ∷ blanks k

-- A numeral from its front and from its end.
Numeral-front :
    {s : Bytes} {n : ℕ} → Numeral s n → (c : ℕ) × (t : Bytes) × (s ≡ c ∷ t) × (is_digit c ≡ true)
Numeral-front (digit d h) = (b'0' + d, [], refl, ground arith)
Numeral-front (more v d h) =
    let (c, t, e, k) = Numeral-front v in
    (c, t ++ (b'0' + d) ∷ [], ap (λ u. u ++ (b'0' + d) ∷ []) e, k)

Numeral-end :
    {s : Bytes} {n : ℕ}
    → Numeral s n
    → (c : ℕ) × (t : Bytes) × (reverse s ≡ c ∷ t) × (is_digit c ≡ true)
Numeral-end (digit d h) = (b'0' + d, [], refl, ground arith)
Numeral-end (more {s} v d h) =
    (b'0' + d, reverse s, reverse-append s ((b'0' + d) ∷ []), ground arith)

digits-append :
    (m n c : ℕ) (s : Bytes)
    → digits m s ≡ some n
    → is_digit c ≡ true
    → digits m (s ++ c ∷ []) ≡ some (n * 10 + (c - b'0'))
unfolding digits
digits-append m n c [] h k = ground (arith, h, k)
digits-append m n c (a ∷ s) h k = ground (arith, h, k, digits-append (m * 10 + (a - b'0')) n c s)

digits-Numeral : {s : Bytes} {n : ℕ} → Numeral s n → digits 0 s ≡ some n
unfolding digits
digits-Numeral (digit d h) = ground arith
digits-Numeral (more {s} {n} v d h) =
    digits-append 0 n (b'0' + d) s (digits-Numeral v) (ground arith) ∙ ap some (omega arith)

atoi-digits :
    (c n : ℕ) (t : Bytes)
    → is_digit c ≡ true
    → digits 0 (c ∷ t) ≡ some n
    → atoi (c ∷ t) ≡ some (pos n)
unfolding atoi
atoi-digits c n t k h = ground (arith, k, h)

pub atoi-Numeral : {s : Bytes} {n : ℕ} → Numeral s n → atoi s ≡ some (pos n)
atoi-Numeral {s} {n} v =
    let (c, t, e, k) = Numeral-front v in
    rw e (atoi-digits c n t k (ap (digits 0) (sym e) ∙ digits-Numeral v))

-- The first byte of none of the texts is `c`.
abbrev Avoids : ℕ → List Bytes → Type 0
Avoids c [] = Unit {0}
Avoids c ([] ∷ cs) = ⊥
Avoids c ((p ∷ prefix) ∷ cs) = (p == c ≡ false) × Avoids c cs

strip_any-none : (c : ℕ) (s : Bytes) (cs : List Bytes) → Avoids c cs → strip_any cs (c ∷ s) ≡ none
unfolding strip_any strip
strip_any-none c s [] h = refl
strip_any-none c s ([] ∷ cs) h = absurd h
strip_any-none c s ((p ∷ prefix) ∷ cs) (e, h) = ground (arith, e, strip_any-none c s cs h)

trim_front-stops :
    (c n : ℕ) (s : Bytes) (cs : List Bytes) → Avoids c cs → trim_front cs n (c ∷ s) ≡ c ∷ s
unfolding trim_front
trim_front-stops c zero s cs h = refl
trim_front-stops c (suc n) s cs h = rw (strip_any-none c s cs h, trim_front) refl

digit-Avoids : (c : ℕ) → is_digit c ≡ true → Avoids c spaces × Avoids c (map reverse spaces)
digit-Avoids c h = ground (arith, h)

trim_front-blanks :
    (k n c : ℕ) (s : Bytes)
    → k ≤ n
    → is_digit c ≡ true
    → trim_front spaces n (blanks k ++ c ∷ s) ≡ c ∷ s
unfolding trim_front strip_any strip
trim_front-blanks zero n c s le h = trim_front-stops c n s spaces (digit-Avoids c h).0
trim_front-blanks (suc k) zero c s le h = absurd (omega arith)
trim_front-blanks (suc k) (suc n) c s le h = trim_front-blanks k n c s (omega arith) h

pub length-blanks : (k : ℕ) → length (blanks k) ≡ k
length-blanks zero = refl
length-blanks (suc k) = ap suc (length-blanks k)

trim_mirror :
    (s : Bytes) {n : ℕ}
    → Numeral s n
    → reverse (trim_front (map reverse spaces) (length (reverse s)) (reverse s)) ≡ s
trim_mirror s v =
    let (d, u, r, l) = Numeral-end v in
    rw r (
      rw (trim_front-stops d (length (d ∷ u)) u (map reverse spaces) (digit-Avoids d l).1)
        (ap reverse (sym r) ∙ reverse-reverse s))

pub trim_space-Numeral : {s : Bytes} {n : ℕ} (k : ℕ) → Numeral s n → trim_space (blanks k ++ s) ≡ s
unfolding trim_space
trim_space-Numeral {s} k v = rw front (trim_mirror s v)
  where
    front : trim_front spaces (length (blanks k ++ s)) (blanks k ++ s) ≡ s
    front =
        let (c, t, e, h) = Numeral-front v in
        rw e (
          trim_front-blanks k (length (blanks k ++ c ∷ t)) c t
            (omega (arith, length-append (blanks k) (c ∷ t), length-blanks k)) h)

pub blanks-All : (k : ℕ) → All (λ a. is_end a ≡ false) (blanks k)
blanks-All zero = tt
blanks-All (suc k) = (refl, blanks-All k)

pub Numeral-All : {s : Bytes} {n : ℕ} → Numeral s n → All (λ a. is_end a ≡ false) s
Numeral-All (digit d h) = (ground arith, tt)
Numeral-All (more {s} v d h) = All-append _ s ((b'0' + d) ∷ []) (Numeral-All v) (ground arith, tt)

pub Numeral-length : {s : Bytes} {n : ℕ} → Numeral s n → 0 < length s
Numeral-length (digit d h) = omega arith
Numeral-length (more {s} v d h) = omega (arith, length-append s ((b'0' + d) ∷ []))
