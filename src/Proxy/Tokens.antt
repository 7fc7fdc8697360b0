-- ===== src/Proxy/Tokens.antt =====
-- internal/proxy/reverse_proxy.go: how `Forward` looks for a number of tokens in the body of a
-- response, with what it calls of the packages bytes and strconv.
pub mod Numerals
pub mod Reading
use Prim.Native.Char.{code}
use Prim.Native.String.{String, [] as empty, ◌∷◌ as char}
use llm_request_balancer.Common.{
  ℕ, zero, suc, ◌+◌, ◌-◌, ◌*◌, Bool, ◌&&◌, ◌||◌, Option, none, some, List, [], ◌∷◌, ◌++◌, map,
  length, take, drop, ltb, leb, ◌==◌, if◌then◌else◌,
}
use llm_request_balancer.Common.Int.{ℤ, pos, sub_ℕ}
use llm_request_balancer.Queue.Item.{Bytes}
use mathlib.Core.List.{reverse}

-- `[]byte(s)` of an ASCII text.
abbrev pub codes : String → Bytes
codes empty = []
codes (char c s) = code c ∷ codes s

-- `"total_tokens":`, of 15 bytes.
abbrev pub marker : Bytes
marker = codes "\"total_tokens\":"

-- `bytes.HasPrefix(s, prefix)`, and the bytes behind the prefix.
unfoldable pub strip : Bytes → Bytes → Option Bytes
strip [] s = some s
strip (p ∷ prefix) [] = none
strip (p ∷ prefix) (c ∷ s) = let rest = strip prefix s in if p == c then rest else none

-- `bytes.Index(s, sep)`; `none` for -1.
unfoldable pub index : Bytes → Bytes → Option ℕ
unfolding strip
index sep [] = elim (strip sep []) [ none ↦ none | some rest ↦ some 0 ]
index sep (c ∷ s) =
    let later = index sep s in
    elim (strip sep (c ∷ s)) [
      | some rest ↦ some 0
      | none ↦ elim later [ none ↦ none | some i ↦ some (suc i) ]
    ]

-- `bytes.IndexAny(s, ",}")`
abbrev pub is_end : ℕ → Bool
is_end c = c == b',' || c == b'}'

unfoldable pub index_end : Bytes → Option ℕ
index_end [] = none
index_end (c ∷ s) =
    let later = index_end s in
    if is_end c then some 0 else elim later [ none ↦ none | some i ↦ some (suc i) ]

-- The characters of `unicode.IsSpace`, in UTF-8.
abbrev pub spaces : List Bytes
spaces =
    (0x20 ∷ [])
    ∷ (0x09 ∷ [])
    ∷ (0x0a ∷ [])
    ∷ (0x0b ∷ [])
    ∷ (0x0c ∷ [])
    ∷ (0x0d ∷ [])
    ∷ (0xc2 ∷ 0x85 ∷ [])
    ∷ (0xc2 ∷ 0xa0 ∷ [])
    ∷ (0xe1 ∷ 0x9a ∷ 0x80 ∷ [])
    ∷ (0xe2 ∷ 0x80 ∷ 0x80 ∷ [])
    ∷ (0xe2 ∷ 0x80 ∷ 0x81 ∷ [])
    ∷ (0xe2 ∷ 0x80 ∷ 0x82 ∷ [])
    ∷ (0xe2 ∷ 0x80 ∷ 0x83 ∷ [])
    ∷ (0xe2 ∷ 0x80 ∷ 0x84 ∷ [])
    ∷ (0xe2 ∷ 0x80 ∷ 0x85 ∷ [])
    ∷ (0xe2 ∷ 0x80 ∷ 0x86 ∷ [])
    ∷ (0xe2 ∷ 0x80 ∷ 0x87 ∷ [])
    ∷ (0xe2 ∷ 0x80 ∷ 0x88 ∷ [])
    ∷ (0xe2 ∷ 0x80 ∷ 0x89 ∷ [])
    ∷ (0xe2 ∷ 0x80 ∷ 0x8a ∷ [])
    ∷ (0xe2 ∷ 0x80 ∷ 0xa8 ∷ [])
    ∷ (0xe2 ∷ 0x80 ∷ 0xa9 ∷ [])
    ∷ (0xe2 ∷ 0x80 ∷ 0xaf ∷ [])
    ∷ (0xe2 ∷ 0x81 ∷ 0x9f ∷ [])
    ∷ (0xe3 ∷ 0x80 ∷ 0x80 ∷ [])
    ∷ []

-- What is left behind the first of `prefixes` that `s` starts with.
unfoldable pub strip_any : List Bytes → Bytes → Option Bytes
unfolding strip
strip_any [] s = none
strip_any (p ∷ prefixes) s =
    let rest = strip_any prefixes s in elim (strip p s) [ none ↦ rest | some s' ↦ some s' ]

-- The text without its leading characters of `cs`. Each pass takes at least a byte, so that the
-- length is fuel enough.
unfoldable pub trim_front : List Bytes → ℕ → Bytes → Bytes
unfolding strip_any
trim_front cs zero s = s
trim_front cs (suc n) s = elim (strip_any cs s) [ none ↦ s | some s' ↦ trim_front cs n s' ]

-- `bytes.TrimSpace(s)`. From its end a text is trimmed as its mirror image is from its front.
unfoldable pub trim_space : Bytes → Bytes
unfolding trim_front
trim_space s =
    let front = trim_front spaces (length s) s in
    let mirror = reverse front in reverse (trim_front (map reverse spaces) (length mirror) mirror)

abbrev pub is_digit : ℕ → Bool
is_digit c = leb b'0' c && leb c b'9'

-- The digits of a number, behind those that make `n`; `none` where something else stands.
unfoldable pub digits : ℕ → Bytes → Option ℕ
digits n [] = some n
digits n (c ∷ s) = let rest = digits (n * 10 + (c - b'0')) s in if is_digit c then rest else none

-- At least one digit.
unfoldable pub unsigned : Bytes → Option ℕ
unfolding digits
unsigned [] = none
unsigned (c ∷ s) = digits 0 (c ∷ s)

abbrev pub positive : Option ℕ → Option ℤ
positive none = none
positive (some n) = some (pos n)

abbrev pub negative : Option ℕ → Option ℤ
negative none = none
negative (some n) = some (sub_ℕ 0 n)

-- `strconv.Atoi(s)`, on texts so short that nothing overflows.
unfoldable pub atoi : Bytes → Option ℤ
unfolding unsigned
atoi [] = none
atoi (c ∷ s) =
    if c == b'-'
    then negative (unsigned s)
    else if c == b'+'
    then positive (unsigned s)
    else positive (unsigned (c ∷ s))

-- A slice beyond the capacity panics.
pub data Scan : Type 0 where
  found : ℤ → Scan
  nothing : Scan
  out_of_range : Scan

abbrev as_scan : Option ℤ → Scan
as_scan none = nothing
as_scan (some n) = found n

-- The number in `tokenStr`.
unfoldable pub read_tokens : Bytes → Scan
unfolding index_end trim_space atoi
read_tokens token_str = elim (index_end token_str) [
  | none ↦ nothing
  | some zero ↦ nothing
  | some (suc i) ↦ as_scan (atoi (trim_space (take (suc i) token_str)))
]

-- The search for the number. The buffer of the body has `slack` behind the body: a slice may reach
-- into it, up to the capacity.
unfoldable pub scan_tokens : Bytes → Bytes → Scan
unfolding index read_tokens
scan_tokens body slack = elim (index marker body) [
  | none ↦ nothing
  | some zero ↦ nothing
  | some (suc i) ↦
      if ltb (length (body ++ slack)) (suc i + 30)
      then out_of_range
      else read_tokens (take 15 (drop (suc i + 15) (body ++ slack)))
]
