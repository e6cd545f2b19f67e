-- ===== src/Http/Gate/Tests.antt =====
-- Requests at a server that listens on 127.0.0.1.
use winforge.Prelude.{◌≡◌, refl, true, false, none, some, [], if◌then◌else◌}
use winforge.Text.{
  Text, codes, text_eq, cut_prefix, has_prefix, contains_any, ascii_lower, fold_rune, fold_text,
  equal_fold,
}
use winforge.AppManager.{has_suffix}
use winforge.Http.Gate.{
  Net, Request, answered, limit_mutation, is_mutation, split_authority, is_loopback_authority,
  is_same_origin, serve_http,
}
use winforge.Tweak.Sample.{ascii}

-- the functions of net at the texts that the requests below have
abbrev local : Net
local = record {
  split_host_port = λ a.
      if text_eq a (codes "127.0.0.1:8080") then some (codes "127.0.0.1", codes "8080") else none;
  parse_loopback = λ h. if text_eq h (codes "127.0.0.1") then some true else none;
  parse_url = λ o.
      if text_eq o (codes "http://127.0.0.1:8080")
      then some (record {
        scheme = codes "http";
        host = codes "127.0.0.1:8080";
        has_user = false;
        path = [];
        raw_query = [];
        fragment = [];
      })
      else none;
}

abbrev post : Text → Request
post origin = record {
  method = codes "POST";
  host = codes "127.0.0.1:8080";
  tls = false;
  sec_fetch_site = [];
  origin = origin;
  token = codes "secret";
  remote_addr = codes "127.0.0.1:50000";
}

abbrev from_itself : Request
from_itself = post (codes "http://127.0.0.1:8080")

refused_post :
    serve_http local (limit_mutation 0) (codes "secret") (post (codes "http://evil.example")) none
    ≡ (answered 403, none)
unfolding text_eq cut_prefix has_prefix has_suffix contains_any ascii_lower fold_rune fold_text
    equal_fold is_mutation split_authority is_loopback_authority is_same_origin limit_mutation
    serve_http
refused_post = refl
