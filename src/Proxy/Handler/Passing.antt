-- ===== src/Proxy/Handler/Passing.antt =====
-- What a client gets of a response that passes through the proxy.
use llm_request_balancer.Common.{
  ◌≡◌, refl, sym, ap, ◌∙◌, ◌⊎◌, inl, inr, false, none, some, List, [], ◌∷◌, ◌++◌, arith, String,
  length, if◌then◌else◌, str_eq, str_eq_iff, Bool-cases,
}
use llm_request_balancer.Common.Int.{ℤ}
use llm_request_balancer.Common.Time.{sub_time}
use llm_request_balancer.Common.Dict.{lookup, lookup-insert}
use llm_request_balancer.Queue.Item.{Bytes}
use llm_request_balancer.Proxy.Message.{
  Urls, Header, readable, Request, Response, list_of, values, add, ReverseProxy,
}
use llm_request_balancer.Proxy.Tokens.{Scan, found, nothing, out_of_range}
use llm_request_balancer.Proxy.Forward.{
  Run, RequestMetrics, returned, panicked, is_unreadable, modify_request, modify_response,
  response_tokens, new_metrics, receive, send, outgoing, forward,
}
use llm_request_balancer.Proxy.Handler.{
  wrote, crashed, add_values, copy_header, write_response, proxy_handler,
}
use mathlib.Core.List.{append_assoc, append-nil}

abbrev raw : String → Header → List String
raw key h = list_of (lookup key h)

module _ (canonical : String → String) where
  -- A header as net/http makes it: the names are in their canonical form, and none stands twice.
  abbrev pub IsHeader : Header → Type 0
  IsHeader [] = Unit {0}
  IsHeader ((key, vs) ∷ h) = (canonical key ≡ key) × (lookup key h ≡ none) × IsHeader h

  raw-add :
      (key value j : String) (h : Header)
      → canonical key ≡ key
      → raw j (add canonical key value h)
        ≡ (if str_eq key j then raw j h ++ value ∷ [] else raw j h)
  unfolding add
  raw-add key value j h c =
      rw c (ground (arith, lookup-insert key j (raw key h ++ value ∷ []) h, str_eq_iff key j))

  raw-add_values :
      (key j : String) (vs : List String) (h : Header)
      → canonical key ≡ key
      → raw j (add_values canonical key vs h) ≡ (if str_eq key j then raw j h ++ vs else raw j h)
  unfolding add_values
  raw-add_values key j [] h c = elim (Bool-cases (str_eq key j)) [
    | inl e ↦ rw e (sym (append-nil (raw j h)))
    | inr e ↦ rw e refl
  ]
  raw-add_values key j (value ∷ vs) h c =
      raw-add_values key j vs (add canonical key value h) c ∙ elim (Bool-cases (str_eq key j)) [
        | inl e ↦ rw e (
            ap (λ t. t ++ vs) (raw-add key value j h c ∙ rw e refl)
            ∙ append_assoc (raw j h) (value ∷ []) vs)
        | inr e ↦ rw e (raw-add key value j h c ∙ rw e refl)
      ]

  -- Copying adds the values to those that are there.
  raw-copy_header :
      (j : String) (h w : Header)
      → IsHeader h
      → raw j (copy_header canonical h w) ≡ raw j w ++ raw j h
  unfolding copy_header lookup
  raw-copy_header j [] w v = sym (append-nil (raw j w))
  raw-copy_header j ((key, vs) ∷ h) w (c, new, v) =
      raw-copy_header j h (add_values canonical key vs w) v
      ∙ ap (λ t. t ++ raw j h) (raw-add_values key j vs w c)
      ∙ elim (Bool-cases (str_eq key j)) [
        | inl e ↦ rw e (
            let same : key ≡ j = (str_eq_iff key j).0 e in
            let gone : raw j h ≡ [] = ap list_of (ap (λ k. lookup k h) (sym same) ∙ new) in
            append_assoc (raw j w) vs (raw j h)
            ∙ ap (λ t. raw j w ++ (vs ++ t)) gone
            ∙ ap (λ t. raw j w ++ t) (append-nil vs))
        | inr e ↦ rw e refl
      ]

Scan-cases : (s : Scan) → (s ≡ out_of_range) ⊎ ((s ≡ nothing) ⊎ ((n : ℤ) × (s ≡ found n)))
Scan-cases out_of_range = inl refl
Scan-cases nothing = inr (inl refl)
Scan-cases (found n) = inr (inr (n, refl))

receive_passes :
    (canonical : String → String) (run : Run) (metrics : RequestMetrics) (resp : Response)
    (bytes : Bytes)
    → resp.body ≡ readable bytes
    → ((response_tokens canonical run resp bytes ≡ out_of_range)
        × (receive canonical run metrics resp ≡ panicked))
      ⊎ ((m : RequestMetrics) × (receive canonical run metrics resp ≡ returned resp m))
unfolding receive
receive_passes canonical run metrics resp bytes whole =
    elim (Scan-cases (response_tokens canonical run resp bytes)) [
      | inl e ↦ inl (e, rw (whole, receive) (rw (e, receive) refl))
      | inr (inl e) ↦
          inr (record metrics { response_size = length bytes }, ground (arith, whole, e))
      | inr (inr (n, e)) ↦ inr (
        record metrics { response_size = length bytes; response_tokens = n },
        ground (arith, whole, e),
      )
    ]

module _ {U : Type 0} (urls : Urls U) (canonical : String → String) (p : ReverseProxy U) (run : Run)
    (target : String) (req : Request U) where
  sent_metrics : Response → RequestMetrics
  sent_metrics resp = record (new_metrics urls canonical run req) {
    end_time = run.ended_at;
    duration = sub_time run.ended_at run.started_at;
    status_code = resp.status_code;
  }

  received :
      (base : U) (out : Request U) (resp : Response)
      → urls.parse target ≡ some base
      → is_unreadable req.body ≡ false
      → modify_request p.request_modifiers (outgoing urls base req) ≡ some out
      → p.transport out ≡ some resp
      → (forward urls canonical p run target req).1
        ≡ receive canonical run (sent_metrics resp) (modify_response p.response_modifiers resp)
  unfolding forward send sent_metrics
  received base out resp parsed read modified answered =
      rw (parsed, forward)
        (rw (read, forward) (rw (modified, forward) (rw (answered, forward, send) refl)))

  -- A response with a header as net/http makes it passes through the proxy: where the target parses,
  -- the client's body is read, no request modifier fails and the transport answers, the client gets
  -- the answer as the response modifiers leave it, with the same status and body, and the same
  -- values under every name of the header. But where the search for the tokens slices beyond the
  -- buffer, the handler panics.
  pub proxy_handler_passes :
      (base : U) (out : Request U) (resp last : Response) (bytes : Bytes)
      → modify_response p.response_modifiers resp ≡ last
      → urls.parse target ≡ some base
      → is_unreadable req.body ≡ false
      → modify_request p.request_modifiers (outgoing urls base req) ≡ some out
      → p.transport out ≡ some resp
      → last.body ≡ readable bytes
      → IsHeader canonical last.header
      → ((response_tokens canonical run last bytes ≡ out_of_range)
          × (proxy_handler urls canonical p run target req ≡ crashed))
        ⊎ ((h : Header) × (proxy_handler urls canonical p run target req
              ≡ wrote last.status_code h bytes)
            × ((key : String) → values canonical key h ≡ values canonical key last.header))
  unfolding proxy_handler lookup
  proxy_handler_passes base out resp last bytes modified_last parsed read modified answered whole
        header =
      elim (receive_passes canonical run (sent_metrics resp) last bytes whole) [
        | inl (beyond, e) ↦ inl (beyond, ap (write_response canonical) (reaches ∙ e))
        | inr (m, e) ↦ inr (
          copy_header canonical last.header [],
          ap (write_response canonical) (reaches ∙ e) ∙ rw (whole, write_response) refl,
          λ key. raw-copy_header canonical (canonical key) last.header [] header,
        )
      ]
    where
      reaches :
          (forward urls canonical p run target req).1
          ≡ receive canonical run (sent_metrics resp) last
      reaches =
          received base out resp parsed read modified answered
          ∙ ap (receive canonical run (sent_metrics resp)) modified_last
