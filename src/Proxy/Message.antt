-- ===== src/Proxy/Message.antt =====
-- internal/proxy/reverse_proxy.go: the messages of net/http as the proxy uses them, its modifiers,
-- and the record `ReverseProxy` with its options. A header's name has a canonical form, which
-- net/textproto gives.
use llm_request_balancer.Common.{Option, none, some, List, [], ◌∷◌, ◌++◌, String, concat}
use llm_request_balancer.Common.Int.{ℤ}
use llm_request_balancer.Common.Dict.{Dict, lookup, insert}
use llm_request_balancer.Queue.Item.{Bytes}

-- net/url: `Parse`, `base.ResolveReference(ref)`, and two fields.
pub record Urls (U : Type 0) : Type 0 where
  pub parse : String → Option U
  pub resolve : U → U → U
  pub host : U → String
  pub path : U → String

abbrev pub Header : Type 0
Header = Dict (List String)

-- A nil body, one that `io.ReadAll` reads to its end, and one with which it fails.
pub data Body : Type 0 where
  no_body : Body
  readable : Bytes → Body
  unreadable : Body

pub record Request (U : Type 0) : Type 0 where
  pub method : String
  pub url : U
  pub host : String
  pub header : Header
  pub body : Body

pub record Response : Type 0 where
  pub status_code : ℤ
  pub header : Header
  pub body : Body

-- The values under a name in its canonical form.
abbrev pub list_of : Option (List String) → List String
list_of none = []
list_of (some vs) = vs

abbrev pub first_of : List String → String
first_of [] = ""
first_of (v ∷ vs) = v

module _ (canonical : String → String) where
  abbrev pub values : String → Header → List String
  values key h = list_of (lookup (canonical key) h)

  unfoldable pub get : String → Header → String
  get key h = first_of (values key h)

  unfoldable pub set : String → String → Header → Header
  set key value h = insert (canonical key) (value ∷ []) h

  unfoldable pub add : String → String → Header → Header
  add key value h = insert (canonical key) (values key h ++ value ∷ []) h

-- A modifier changes the message, and may fail with an error, of this text.
abbrev pub RequestModifier : Type 0 → Type 0
RequestModifier U = Request U → Request U × Option String

abbrev pub ResponseModifier : Type 0
ResponseModifier = Response → Response × Option String

-- `RoundTrip` gives a response, or fails.
pub record ReverseProxy (U : Type 0) : Type 0 where
  pub request_modifiers : List (RequestModifier U)
  pub response_modifiers : List ResponseModifier
  pub transport : Request U → Option Response

-- `Option`
abbrev pub ProxyOption : Type 0 → Type 0
ProxyOption U = ReverseProxy U → ReverseProxy U

module _ {U : Type 0} where
  unfoldable pub with_transport : (Request U → Option Response) → ProxyOption U
  with_transport transport p = record p { transport = transport }

  unfoldable pub with_request_modifier : RequestModifier U → ProxyOption U
  with_request_modifier modifier p = record p {
    request_modifiers = p.request_modifiers ++ modifier ∷ [];
  }

  unfoldable pub with_response_modifier : ResponseModifier → ProxyOption U
  with_response_modifier modifier p = record p {
    response_modifiers = p.response_modifiers ++ modifier ∷ [];
  }

  unfoldable pub apply_options : List (ProxyOption U) → ReverseProxy U → ReverseProxy U
  apply_options [] p = p
  apply_options (option ∷ options) p = apply_options options (option p)

  -- `http.DefaultTransport` is an argument.
  unfoldable pub new_reverse_proxy :
      (Request U → Option Response) → List (ProxyOption U) → ReverseProxy U
  unfolding apply_options
  new_reverse_proxy default_transport options =
      apply_options options
        (record { request_modifiers = []; response_modifiers = []; transport = default_transport })

module _ (canonical : String → String) where
  -- The loop of `AddRequestHeaders`, in the order in which the map gives its entries.
  unfoldable pub set_all : Dict String → Header → Header
  unfolding set
  set_all [] h = h
  set_all ((key, value) ∷ headers) h = set_all headers (set canonical key value h)

module _ (canonical : String → String) {U : Type 0} where
  unfoldable pub add_auth_header : String → String → RequestModifier U
  unfolding set
  add_auth_header auth_type auth_value req = (
    record req {
      header = set canonical "Authorization" (concat auth_type (concat " " auth_value)) req.header;
    },
    none,
  )

  unfoldable pub add_request_headers : Dict String → RequestModifier U
  unfolding set_all
  add_request_headers headers req =
      (record req { header = set_all canonical headers req.header }, none)

module _ (canonical : String → String) where
  unfoldable pub modify_response_header : String → String → ResponseModifier
  unfolding set
  modify_response_header key value resp =
      (record resp { header = set canonical key value resp.header }, none)
