-- ===== src/Tests/Http.antt =====
-- Requests to handle_http of src/handler/tau_handler.cpp.
use tau_shell.Prelude.{◌≡◌, refl, true, some, none, [], ◌∷◌, ◌++◌, Bytes, codes, length, zeros}
use tau_shell.Prelude.Int.{ℤ, pos, negsuc}
use tau_shell.Fault.{ok}
use tau_shell.Table.{lookup}
use tau_shell.Text.{parse_number, clamp_int64, to_int32}
use tau_shell.Auth.{
  Auth, init, full_permissions, read_only_permissions, find_user, password_hash, group_permissions,
}
use tau_shell.Auth.Header.{parse_http_auth, credentials}
use tau_shell.Rpc.Dispatch.{show_tag}
use tau_shell.Http.{
  Request, Service, Server, read_body, post_body, header_int, success_header, handle_http,
}
use tau_shell.Http.Laws.{perms_of, handle_http-reply, handle_http-permissions}
use tau_shell.Tests.Auth.{sha1, decode_block, header_example}
use tau_shell.Tests.Rpc.{env}
use tau_shell.Tests.Dispatch.{empty_tokens, missing_method_reply}
use tau_shell.Tests.Db.{empty_sql}

-- One user, with the permissions of the first or of the second group.
abbrev pub one_user : ℤ → Auth
one_user group = record init {
  accounts =
      (codes "t", record { hash = sha1 (zeros 10 ++ codes "t"); salt = zeros 10; group = group })
      ∷ [];
}

abbrev pub service : Service
service = record {
  env = env;
  decode_block = decode_block;
  sha1 = sha1;
  jsmn_parse = λ text. (pos 0, empty_tokens);
  auth = one_user (pos 0);
}

abbrev pub server : Server
server = record { sent = []; calls = []; sql = empty_sql }

abbrev pub request : Request
request = record {
  uri = codes "/rpc";
  authorization = some (codes "Basic dDp0");
  content_length = some (codes "2");
  body = codes "{}";
}

abbrev pub anonymous : Request
anonymous = record request { authorization = none }

pub no_user : perms_of service anonymous ≡ ok none
unfolding parse_http_auth credentials find_user lookup
no_user = refl

pub full_user : find_user sha1 (one_user (pos 0)) (codes "t") (codes "t") ≡ some full_permissions
unfolding find_user lookup password_hash group_permissions
full_user = refl

read_only_user :
    find_user sha1 (one_user (pos 1)) (codes "t") (codes "t") ≡ some read_only_permissions
unfolding find_user lookup password_hash group_permissions
read_only_user = refl

pub full_perms : perms_of service request ≡ ok (some full_permissions)
full_perms = rw (header_example (one_user (pos 0))) (rw full_user)

read_only_perms :
    perms_of (record service { auth = one_user (pos 1) }) request ≡ ok (some read_only_permissions)
read_only_perms = rw (header_example (one_user (pos 1))) (rw read_only_user)

pub body_read : post_body request ≡ ok (codes "{}" ++ 0 ∷ [])
unfolding post_body header_int read_body parse_number clamp_int64 to_int32
body_read = refl

handle_http-permissions_example :
    handle_http service request server
    ≡ handle_http (record service { auth = one_user (pos 1) }) request server
handle_http-permissions_example =
    handle_http-permissions service (one_user (pos 1)) request server refl full_perms
      read_only_perms

abbrev pub missing_method : Bytes
missing_method =
    codes "{ \"result\": \"missing method in request\", \"tag\": "
    ++ (show_tag (negsuc 0) ++ codes "}")

handle_http-reply_example :
    handle_http service request server
    ≡ ok (
      true,
      record server { sent = success_header (length missing_method) ++ (missing_method ++ 0 ∷ []) },
    )
handle_http-reply_example =
    handle_http-reply service request server refl full_perms body_read refl missing_method_reply
