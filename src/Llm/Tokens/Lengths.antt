-- ===== src/Llm/Tokens/Lengths.antt =====
-- The estimates from the lengths of the texts alone.
use llm_request_balancer.Common.{
  ℕ, ◌+◌, ◌/◌, ◌≡◌, refl, inl, inr, Option, none, some, arith, String, concat, ◌==◌, if◌then◌else◌,
  Option-cases,
}
use Prim.Native.String.{len}
use text.Mathlib.TextPositions.{len-append}
use llm_request_balancer.Common.Int.{pos}
use llm_request_balancer.Llm.Types.{Request, ok}
use llm_request_balancer.Llm.Json.{Values, nil, cons, Fields, find, as_text, as_array, entries}
use llm_request_balancer.Llm.Tokens.{
  content_of, spaced_contents, joined_contents, openai_text, anthropic_text, openai_estimate,
  anthropic_estimate,
}

-- The bytes of the contents, each with `extra` bytes behind it.
unfoldable pub content_bytes : {F : Type 0} → ℕ → Values F → ℕ
content_bytes extra nil = 0
content_bytes extra (cons v vs) =
    elim (content_of v) [ none ↦ 0 | some content ↦ len content + extra ] + content_bytes extra vs

abbrev pub text_bytes : Option String → ℕ
text_bytes none = 0
text_bytes (some s) = len s

abbrev pub list_bytes : {F : Type 0} → ℕ → Option (Values F) → ℕ
list_bytes extra none = 0
list_bytes extra (some vs) = content_bytes extra vs

len-concat : (s t : String) → len (concat s t) ≡ len s + len t
unfolding concat
len-concat s t = len-append s t

len_empty : len "" ≡ 0
len_empty = refl

len_space : len " " ≡ 1
len_space = refl

len-text : (o : Option String) → len (elim o [ none ↦ "" | some t ↦ t ]) ≡ text_bytes o
len-text none = refl
len-text (some t) = refl

module _ {F : Type 0} where
  len-spaced_contents :
      (s : String) (vs : Values F) → len (spaced_contents s vs) ≡ len s + content_bytes 1 vs
  unfolding spaced_contents content_bytes
  len-spaced_contents s nil = omega arith
  len-spaced_contents s (cons v vs) = elim (Option-cases (content_of v)) [
    | inl e ↦ rw (e, spaced_contents, content_bytes) (omega (arith, len-spaced_contents s vs))
    | inr (content, e) ↦
        rw (e, spaced_contents, content_bytes)
          (omega (
            arith,
            len_space,
            len-spaced_contents (concat s (concat content " ")) vs,
            len-concat s (concat content " "),
            len-concat content " ",
          ))
  ]

  len-joined_contents :
      (s : String) (vs : Values F) → len (joined_contents s vs) ≡ len s + content_bytes 0 vs
  unfolding joined_contents content_bytes
  len-joined_contents s nil = omega arith
  len-joined_contents s (cons v vs) = elim (Option-cases (content_of v)) [
    | inl e ↦ rw (e, joined_contents, content_bytes) (omega (arith, len-joined_contents s vs))
    | inr (content, e) ↦
        rw (e, joined_contents, content_bytes)
          (omega (arith, len-joined_contents (concat s content) vs, len-concat s content))
  ]

  -- The bytes that each provider counts: OpenAI's come from "messages" if there is such a key, and
  -- from "prompt" otherwise, with a space behind each content; Anthropic's from "prompt" if that is
  -- a text, and from "messages" otherwise.
  unfoldable pub openai_bytes : Fields F → ℕ
  openai_bytes payload = elim (find "messages" payload) [
    | none ↦ text_bytes (as_text (find "prompt" payload))
    | some messages ↦ list_bytes 1 (as_array (some messages))
  ]

  unfoldable pub anthropic_bytes : Fields F → ℕ
  anthropic_bytes payload = elim (as_text (find "prompt" payload)) [
    | none ↦ list_bytes 0 (as_array (find "messages" payload))
    | some prompt ↦ len prompt
  ]

  len-spaced :
      (o : Option (Values F))
      → len (elim o [ none ↦ "" | some vs ↦ spaced_contents "" vs ]) ≡ list_bytes 1 o
  len-spaced none = refl
  len-spaced (some vs) = omega (arith, len-spaced_contents "" vs, len_empty)

  len-joined :
      (o : Option (Values F))
      → len (elim o [ none ↦ "" | some vs ↦ joined_contents "" vs ]) ≡ list_bytes 0 o
  len-joined none = refl
  len-joined (some vs) = omega (arith, len-joined_contents "" vs, len_empty)

  len-openai_text : (payload : Fields F) → len (openai_text payload) ≡ openai_bytes payload
  unfolding openai_text openai_bytes
  len-openai_text payload = elim (Option-cases (find "messages" payload)) [
    | inl e ↦ rw (e, openai_text, openai_bytes) (len-text (as_text (find "prompt" payload)))
    | inr (v, e) ↦ rw (e, openai_text, openai_bytes) (len-spaced (as_array (some v)))
  ]

  len-anthropic_text : (payload : Fields F) → len (anthropic_text payload) ≡ anthropic_bytes payload
  unfolding anthropic_text anthropic_bytes
  len-anthropic_text payload = elim (Option-cases (as_text (find "prompt" payload))) [
    | inl e ↦
        rw (e, anthropic_text, anthropic_bytes) (len-joined (as_array (find "messages" payload)))
    | inr (t, e) ↦ rw (e, anthropic_text, anthropic_bytes) refl
  ]

  -- OpenAI's estimate is a quarter of the bytes of the texts and of a space behind each message,
  -- rounded down, and 1 if there is no text at all; so a text of up to 3 bytes counts as 0.
  -- Anthropic's is a quarter of the bytes of the texts, rounded down. Neither fails.
  pub estimates_by_length :
      (req : Request (Fields F))
      → let n = openai_bytes (entries req.payload) in
        (openai_estimate req ≡ ok (pos (if n == 0 then 1 else n / 4)))
        × (anthropic_estimate req ≡ ok (pos (anthropic_bytes (entries req.payload) / 4)))
  unfolding openai_estimate anthropic_estimate
  estimates_by_length req =
      rw (len-openai_text (entries req.payload), len-anthropic_text (entries req.payload))
        (ground arith, refl)
