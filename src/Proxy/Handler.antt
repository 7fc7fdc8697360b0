-- ===== src/Proxy/Handler.antt =====
-- internal/proxy/reverse_proxy.go: the HTTP handlers around `Forward`.
pub mod Passing
use llm_request_balancer.Common.{Option, none, some, List, [], ◌∷◌, String}
use llm_request_balancer.Common.Int.{ℤ}
use llm_request_balancer.Queue.Item.{Bytes}
use llm_request_balancer.Proxy.Message.{
  Urls, Header, no_body, readable, unreadable, Request, Response, add, ReverseProxy,
  new_reverse_proxy,
}
use llm_request_balancer.Proxy.Forward.{Run, Outcome, returned, failed, panicked, forward}

-- What the client gets: a call of `http.Error`, with status 502 or 400; or a response; or nothing,
-- where the handler panics.
pub data Page : Type 0 where
  bad_gateway : Page
  bad_route : Page
  wrote : ℤ → Header → Bytes → Page
  crashed : Page

module _ (canonical : String → String) where
  unfoldable pub add_values : String → List String → Header → Header
  unfolding add
  add_values key [] w = w
  add_values key (value ∷ vs) w = add_values key vs (add canonical key value w)

  -- The loop that copies a header, in the order in which the map gives its entries.
  unfoldable pub copy_header : Header → Header → Header
  unfolding add_values
  copy_header [] w = w
  copy_header ((key, vs) ∷ h) w = copy_header h (add_values key vs w)

  -- `defer resp.Body.Close()` reads through the body.
  unfoldable pub write_response : Outcome → Page
  unfolding copy_header
  write_response (failed why) = bad_gateway
  write_response panicked = crashed
  write_response (returned resp metrics) = elim resp.body [
    | no_body ↦ crashed
    | readable bytes ↦ wrote resp.status_code (copy_header resp.header []) bytes
    | unreadable ↦ wrote resp.status_code (copy_header resp.header []) []
  ]

module _ {U : Type 0} (urls : Urls U) (canonical : String → String) where
  unfoldable pub proxy_handler : ReverseProxy U → Run → String → Request U → Page
  unfolding write_response
  proxy_handler p run target req =
      write_response canonical (forward urls canonical p run target req).1

  -- The handler of `CreateDynamicProxy`; the resolver fails with `none`.
  unfoldable pub dynamic_proxy :
      (Request U → Option Response) → (Request U → Option String) → Run → Request U → Page
  unfolding write_response new_reverse_proxy
  dynamic_proxy default_transport resolver run req = elim (resolver req) [
    | none ↦ bad_route
    | some target ↦
        write_response canonical
          (forward urls canonical (new_reverse_proxy default_transport []) run target req).1
  ]
