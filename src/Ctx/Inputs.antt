-- ===== src/Ctx/Inputs.antt =====
-- src/ctx.ts: `normalizeIp`, `nodeHeadersToRecord`, `webHeadersToRecord`, the constructors `fromNode`
-- and `fromWeb`, and `query`. (`normalizeIp` and the reading of headers stand in src/request.ts and
-- src/app.ts once more.)
use fearless.Base.{
  Option, none, some, Str, codes, List, [], ◌∷◌, ◌++◌, Dict, put, get_or, starts_with, drop, join,
  after, if◌then◌else◌,
}
use fearless.Path.{normalize_path}
use fearless.Web.Platform.{Platform}
use fearless.Query.{QueryParams, parse_query_string}

unfoldable pub normalize_ip : Option Str → Str
unfolding starts_with
normalize_ip none = []
normalize_ip (some address) =
    if starts_with (codes "::ffff:") address then drop 7 address else address

-- `string | string[] | undefined`
pub data NodeHeader : Type 0 where
  undefined_header : NodeHeader
  one_header : Str → NodeHeader
  list_header : List Str → NodeHeader

abbrev node_header_text : NodeHeader → Option Str
node_header_text undefined_header = none
node_header_text (one_header v) = some v
node_header_text (list_header vs) = some (join (codes ", ") vs)

abbrev put_defined : Str → Option Str → Dict Str → Dict Str
put_defined key none out = out
put_defined key (some v) out = put key v out

unfoldable pub node_headers_to_record : List (Str × NodeHeader) → Dict Str → Dict Str
unfolding put join
node_headers_to_record [] out = out
node_headers_to_record ((key, h) ∷ headers) out =
    node_headers_to_record headers (put_defined key (node_header_text h) out)

-- A request as Node gives it: method, URL, headers and the address of the peer.
pub record NodeRequest : Type 0 where
  pub method : Option Str
  pub url : Option Str
  pub headers : List (Str × NodeHeader)
  pub remote_address : Option Str

-- A web request with its URL taken apart by `new URL`.
pub record WebRequest : Type 0 where
  pub method : Str
  pub pathname : Str
  pub search : Str
  pub headers : List (Str × Str)

pub record CtxInputs : Type 0 where
  pub method : Str
  pub url : Str
  pub path : Str
  pub headers : Dict Str
  pub ip : Str
  pub params : Dict Str

-- `value || fallback`: the empty string is falsy.
abbrev pub or_default : Option Str → Str → Str
or_default none fallback = fallback
or_default (some []) fallback = fallback
or_default (some (c ∷ s)) fallback = c ∷ s

-- `url.slice(url.indexOf("?") + 1)`, and the empty text where there is no `?`
abbrev pub query_text : Str → Str
query_text url = get_or (after b'?' url) []

module _ (p : Platform) where
  unfoldable pub web_headers_to_record : List (Str × Str) → Dict Str → Dict Str
  unfolding put
  web_headers_to_record [] out = out
  web_headers_to_record ((key, v) ∷ headers) out =
      web_headers_to_record headers (put (p.to_lower_case key) v out)

  unfoldable pub from_node : NodeRequest → Dict Str → CtxInputs
  unfolding normalize_path node_headers_to_record normalize_ip
  from_node req params =
      let url = or_default req.url (codes "/") in
      record {
        method = p.to_upper_case (or_default req.method (codes "GET"));
        url = url;
        path = normalize_path url;
        headers = node_headers_to_record req.headers [];
        ip = normalize_ip req.remote_address;
        params = params;
      }

  unfoldable pub from_web : WebRequest → Dict Str → Str → CtxInputs
  unfolding normalize_path web_headers_to_record
  from_web request params ip = record {
    method = p.to_upper_case (or_default (some request.method) (codes "GET"));
    url = request.pathname ++ request.search;
    path = normalize_path request.pathname;
    headers = web_headers_to_record request.headers [];
    ip = ip;
    params = params;
  }

  -- `query`: parsed at the first read, and kept.
  unfoldable read_query : Str → Option QueryParams → QueryParams × Option QueryParams
  unfolding parse_query_string after
  read_query url none = let q = parse_query_string p.search_params (query_text url) in (q, some q)
  read_query url (some q) = (q, some q)
