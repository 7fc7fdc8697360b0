-- ===== src/Tests/Proxy.antt =====
-- The proxy: numbers of tokens in bodies, and a response that passes through.
use llm_request_balancer.Common.{
  ◌≡◌, refl, ◌++◌, [], ◌∷◌, ◌≤◌, ◌<◌, ◌⊎◌, Option, some, none, String, concat, str_eq, length,
  arith, if◌then◌else◌,
}
use llm_request_balancer.Common.Int.{pos, negsuc}
use llm_request_balancer.Common.Dict.{lookup, insert, delete}
use llm_request_balancer.Proxy.Message.{
  Urls, Header, readable, Request, Response, values, get, set, ReverseProxy, new_reverse_proxy,
  with_request_modifier, with_response_modifier, add_auth_header, modify_response_header,
}
use llm_request_balancer.Proxy.Tokens.{
  codes, marker, found, out_of_range, scan_tokens, trim_space, index,
}
use llm_request_balancer.Proxy.Tokens.Numerals.{Numeral, digit, more}
use llm_request_balancer.Proxy.Tokens.Reading.{scan_tokens-Numeral}
use llm_request_balancer.Proxy.Forward.{
  Run, modify_request, modify_response, response_tokens, outgoing,
}
use llm_request_balancer.Proxy.Handler.{wrote, crashed, proxy_handler}
use llm_request_balancer.Proxy.Handler.Passing.{proxy_handler_passes}

a_usage :
    scan_tokens (codes "{\"usage\":{\"total_tokens\": 42}}") (codes "                          ")
    ≡ found (pos 42)
unfolding scan_tokens trim_space
a_usage = refl

negative_usage :
    scan_tokens (codes "{\"total_tokens\":-7 ,\"b\":12345678901}") [] ≡ found (negsuc 6)
unfolding scan_tokens trim_space
negative_usage = refl

short_buffer : scan_tokens (codes "{\"total_tokens\":7}") [] ≡ out_of_range
unfolding scan_tokens
short_buffer = refl

wide_space : trim_space (0xe2 ∷ 0x80 ∷ 0xa8 ∷ 0x20 ∷ b'4' ∷ 0xc2 ∷ 0xa0 ∷ []) ≡ b'4' ∷ []
unfolding trim_space
wide_space = refl

forty_two : Numeral (b'4' ∷ b'2' ∷ []) 42
forty_two = more (digit 4 (omega arith)) 2 (omega arith)

scan_tokens-Numeral_example :
    let body = (codes "{" ++ marker) ++ codes " 42,\"cost\":1}" in
    ((15 ≤ length (codes " 42,\"cost\":1}" ++ codes "  "))
      × (scan_tokens body (codes "  ") ≡ found (pos 42)))
    ⊎ ((length (codes " 42,\"cost\":1}" ++ codes "  ") < 15)
        × (scan_tokens body (codes "  ") ≡ out_of_range))
unfolding index
scan_tokens-Numeral_example =
    scan_tokens-Numeral (codes "{") 1 forty_two b',' (codes "\"cost\":1}") (codes "  ") (cc) refl
      refl (omega arith)

abbrev urls : Urls String
urls = record {
  parse = λ s. some s;
  resolve = λ base ref. concat base ref;
  host = λ u. u;
  path = λ u. u;
}

abbrev upstream : Response
upstream = record {
  status_code = pos 200;
  header = ("Content-Type", "application/json" ∷ []) ∷ ("Set-Cookie", "a=1" ∷ "b=2" ∷ []) ∷ [];
  body = readable (codes "{\"usage\":{\"total_tokens\": 42}}");
}

abbrev identity : String → String
identity s = s

-- It answers to those with the key only.
abbrev transport : Request String → Option Response
transport req =
    if str_eq (get identity "Authorization" req.header) "Bearer key" then some upstream else none

abbrev proxy : ReverseProxy String
proxy = new_reverse_proxy transport (
    with_request_modifier (add_auth_header identity "Bearer" "key")
    ∷ with_response_modifier (modify_response_header identity "Via" "proxy")
    ∷ [])

abbrev request : Request String
request = record {
  method = "POST";
  url = "/v1/chat";
  host = "here";
  header = [];
  body = readable (codes "{}");
}

abbrev run : Run
run = record { started_at = 1; ended_at = 5; slack = codes "                    " }

abbrev authorized : Request String
authorized = record {
  method = "POST";
  url = concat "https://there" "/v1/chat";
  host = "https://there";
  header = ("Authorization", "Bearer key" ∷ []) ∷ [];
  body = readable (codes "{}");
}

abbrev upstream_via : Response
upstream_via = record upstream { header = ("Via", "proxy" ∷ []) ∷ upstream.header }

proxy_handler_passes_example :
    ((response_tokens identity run upstream_via (codes "{\"usage\":{\"total_tokens\": 42}}")
        ≡ out_of_range)
      × (proxy_handler urls identity proxy run "https://there" request ≡ crashed))
    ⊎ ((h : Header) × (proxy_handler urls identity proxy run "https://there" request
          ≡ wrote (pos 200) h (codes "{\"usage\":{\"total_tokens\": 42}}"))
        × ((key : String) → values identity key h ≡ values identity key upstream_via.header))
unfolding new_reverse_proxy with_request_modifier with_response_modifier modify_response outgoing
    modify_request modify_response_header add_auth_header set get insert delete lookup str_eq concat
proxy_handler_passes_example =
    proxy_handler_passes urls identity proxy run "https://there" request "https://there" authorized
      upstream upstream_via (codes "{\"usage\":{\"total_tokens\": 42}}") refl refl refl refl refl
      refl (refl, refl, (refl, refl, (refl, refl, tt)))
