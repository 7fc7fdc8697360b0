-- ===== src/Proxy/Tokens/Reading.antt =====
-- That `Forward` reads the number of tokens that a body has, where its buffer is long enough.
use llm_request_balancer.Common.{
  ℕ, zero, suc, ◌+◌, ◌-◌, ◌≤◌, ◌<◌, ◌≡◌, refl, sym, ap, ◌∙◌, ◌≢◌, ◌⊎◌, inl, inr, true, false, some,
  [], ◌∷◌, ◌++◌, arith, length, length-append, All, All-append, take, drop, ltb, ltb→lt, Bool-cases,
}
use llm_request_balancer.Common.Int.{ℤ, pos}
use llm_request_balancer.Queue.Item.{Bytes}
use llm_request_balancer.Proxy.Tokens.{
  marker, is_end, index, index_end, trim_space, atoi, found, out_of_range, read_tokens, scan_tokens,
}
use llm_request_balancer.Proxy.Tokens.Numerals.{
  Numeral, blanks, atoi-Numeral, trim_space-Numeral, length-blanks, blanks-All, Numeral-All,
  Numeral-length,
}
use mathlib.Core.List.{append_assoc}

-- A text without an end in it, up to the end that follows.
index_end-append :
    (s t : Bytes) (c : ℕ)
    → All (λ a. is_end a ≡ false) s
    → is_end c ≡ true
    → index_end (s ++ c ∷ t) ≡ some (length s)
unfolding index_end
index_end-append [] t c h k = ground (arith, k)
index_end-append (a ∷ s) t c h k = ground (arith, h.0, index_end-append s t c h.1 k)

take-append : (n : ℕ) (s t : Bytes) → length s ≤ n → take n (s ++ t) ≡ s ++ take (n - length s) t
take-append n [] t h = ap (λ m. take m t) (omega arith)
take-append zero (a ∷ s) t h = absurd (omega arith)
take-append (suc n) (a ∷ s) t h =
    ap (λ u. a ∷ u) (take-append n s t (omega arith) ∙ ap (λ m. s ++ take m t) (omega arith))

drop-append : (s t : Bytes) → drop (length s) (s ++ t) ≡ t
drop-append [] t = refl
drop-append (a ∷ s) t = drop-append s t

take-length : (s t : Bytes) → take (length s) (s ++ t) ≡ s
take-length [] t = refl
take-length (a ∷ s) t = ap (λ u. a ∷ u) (take-length s t)

read_tokens_found :
    (x : Bytes) (j : ℕ) (m : ℤ)
    → index_end x ≡ some j
    → 0 < j
    → atoi (trim_space (take j x)) ≡ some m
    → read_tokens x ≡ found m
unfolding read_tokens
read_tokens_found x zero m h lt e = absurd (omega arith)
read_tokens_found x (suc i) m h lt e = rw (h, read_tokens) (rw (e, read_tokens) refl)

-- The number in a slice that holds blanks, a numeral, and an end behind it.
read_tokens-Numeral :
    (k : ℕ) {s : Bytes} {n : ℕ}
    → Numeral s n
    → (c : ℕ) (t : Bytes) → is_end c ≡ true
    → read_tokens ((blanks k ++ s) ++ c ∷ t) ≡ found (pos n)
read_tokens-Numeral k {s} {n} v c t h =
    let w = blanks k ++ s in
    read_tokens_found (w ++ c ∷ t) (length w) (pos n)
      (index_end-append w t c (All-append _ (blanks k) s (blanks-All k) (Numeral-All v)) h)
      (omega (arith, length-append (blanks k) s, Numeral-length v))
      (rw (take-length w (c ∷ t)) (rw (trim_space-Numeral k v) (atoi-Numeral v)))

-- What stands behind the marker, up to the end of the buffer.
drop-marker :
    (before x slack : Bytes)
    → drop (length before + 15) (((before ++ marker) ++ x) ++ slack) ≡ x ++ slack
drop-marker before x slack = rw (append_assoc (before ++ marker) x slack) (
    ap (λ n. drop n ((before ++ marker) ++ (x ++ slack))) (sym (length-append before marker))
    ∙ drop-append (before ++ marker) (x ++ slack))

scan_within :
    (body slack : Bytes) (j : ℕ)
    → index marker body ≡ some j
    → 0 < j
    → j + 30 ≤ length (body ++ slack)
    → scan_tokens body slack ≡ read_tokens (take 15 (drop (j + 15) (body ++ slack)))
unfolding scan_tokens
scan_within body slack zero h lt le = absurd (omega arith)
scan_within body slack (suc i) h lt le = rw (h, scan_tokens) (ground arith)

scan_beyond :
    (body slack : Bytes) (j : ℕ)
    → index marker body ≡ some j
    → 0 < j
    → length (body ++ slack) < j + 30
    → scan_tokens body slack ≡ out_of_range
unfolding scan_tokens
scan_beyond body slack zero h lt le = absurd (omega arith)
scan_beyond body slack (suc i) h lt le = rw (h, scan_tokens) (ground arith)

length_pos : (s : Bytes) → s ≢ [] → 0 < length s
length_pos [] h = absurd (h refl)
length_pos (c ∷ s) h = omega arith

module _ (before : Bytes) (k : ℕ) {text : Bytes} {n : ℕ} (v : Numeral text n) (c : ℕ)
    (after slack : Bytes) where
  -- What stands behind the marker of a body that gives its number of tokens as `n`.
  abbrev pub usage : Bytes
  usage = (blanks k ++ text) ++ c ∷ after

  -- A body that gives its number of tokens, behind a first marker that does not stand at its start:
  -- up to 14 bytes of blanks and of a decimal numeral, and a comma or brace. `Forward` reads the
  -- number if 15 bytes or more of the buffer are behind the marker, and otherwise it panics.
  pub scan_tokens-Numeral :
      before ≢ []
      → index marker (before ++ marker ++ usage) ≡ some (length before)
      → is_end c ≡ true
      → k + length text < 15
      → ((15 ≤ length (usage ++ slack))
          × (scan_tokens (before ++ marker ++ usage) slack ≡ found (pos n)))
        ⊎ ((length (usage ++ slack) < 15)
            × (scan_tokens (before ++ marker ++ usage) slack ≡ out_of_range))
  scan_tokens-Numeral ne first ends short = elim (Bool-cases (ltb (length (usage ++ slack)) 15)) [
    | inl beyond ↦ inr (
      ltb→lt _ _ beyond,
      scan_beyond body slack (length before) first (length_pos before ne)
          (omega (arith, sizes, ltb→lt _ _ beyond)),
    )
    | inr within ↦
        let le : 15 ≤ length (usage ++ slack) = ground (arith, within) in
        inl (
          le,
          scan_within body slack (length before) first (length_pos before ne) (omega (arith, sizes))
              ∙ ap (λ x. read_tokens (take 15 x)) (drop-marker before usage slack)
              ∙ ap read_tokens sliced
              ∙ read_tokens-Numeral k v c (take (14 - length w) (after ++ slack)) ends,
        )
  ]
    where
      w : Bytes
      w = blanks k ++ text

      body : Bytes
      body = before ++ marker ++ usage

      sizes : length (body ++ slack) ≡ length before + 15 + length (usage ++ slack)
      sizes = omega (
        arith,
        length-append body slack,
        length-append usage slack,
        length-append (before ++ marker) usage,
        length-append before marker,
      )

      shorter : length w < 15
      shorter = omega (arith, length-append (blanks k) text, length-blanks k)

      sliced : take 15 (usage ++ slack) ≡ w ++ c ∷ take (14 - length w) (after ++ slack)
      sliced =
          ap (take 15) (append_assoc w (c ∷ after) slack)
          ∙ take-append 15 w (c ∷ (after ++ slack)) (omega (arith, shorter))
          ∙ ap (λ m. w ++ take m (c ∷ (after ++ slack)))
              (let e : 15 - length w ≡ suc (14 - length w) = omega (arith, shorter) in e)
