-- ===== src/Tests/Protocol.antt =====
-- Runs of the plugins that query their provider.
use inadyn.Prelude.{
  ℕ, zero, suc, ◌≡◌, ◌≢◌, ◌⊎◌, ◌↔◌, ◌≤◌, refl, true, false, none, [], ◌∷◌, ◌++◌, arith,
  if◌then◌else◌, leb,
}
use inadyn.Prelude.Text.{Str, codes, strcmp_eq, strstr, contains, format}
use inadyn.Prelude.Int.{pos}
use inadyn.Error.{rc_ok}
use inadyn.World.{Env}
use inadyn.Http.{
  Trans, zero_trans, http_init, http_exit, http_transaction, http_response_parse_body,
  http_response_parse_status, c_string,
}
use inadyn.Ddns.State.{Info, ddns_get_tcp_force}
use inadyn.Json.{Jsmn, Token, TokenType, object, string, primitive, parse_json, jsoneq, json_bool}
use inadyn.Plugins.Query.{extract, json_copy_value, value_of}
use inadyn.Plugins.Query.Closes.{still_open, transfer_fails, extract-closes}
use inadyn.Plugins.Protocol.{setup-closes, protocol_needs_200}
use inadyn.Plugins.Cloudflare
use inadyn.Plugins.Cloudflare.Laws.{is_record_id-digits}
use inadyn.Plugins.Cloudflare.Setup.{Prepared, zone_answer, record_of, setup-Prepared}
use inadyn.Plugins.Cloudflare.{is_record_id, hex_number, ullong_max}
use inadyn.Plugins.Cloudxns
use inadyn.Plugins.Cloudxns.{prefix_of, drop_last}
use inadyn.Plugins.Cloudxns.Prefix.{prefix_of-drop_last}
use inadyn.Plugins.Dnsmax
use inadyn.Plugins.Dnspod
use inadyn.Plugins.Dnspod.{split_name, at_dot}
use inadyn.Plugins.Dnspod.Split.{split_name-join, dots}
use inadyn.Plugins.Freedns
use inadyn.Plugins.Porkbun
use inadyn.Plugins.Yandex
use inadyn.Plugins.Yandex.{Progress, find_record_id, absent, scan_tokens, on_token}
use inadyn.Plugins.Yandex.Stale.{scan_tokens-stale, name_member, type_member}
use inadyn.Tests.Scene.{online, info, ctx, quiet, world}

-- An answer with apostrophes for the quotation marks, which only the parser would look at.
abbrev body : Str
body = codes "{'success':true,'id':'z1'}"

abbrev answering : Env
answering = record online {
  ssl_recv = λ h. (0, codes "HTTP/1.0 200 OK" ++ 13 ∷ 10 ∷ 13 ∷ 10 ∷ body);
}

-- The connection breaks in the middle of a transfer.
abbrev breaking : Env
breaking = record online { ssl_recv = λ h. (15, []) }

abbrev token : TokenType → ℕ → ℕ → Token
token type start stop = record { type = type; start = start; stop = stop }

abbrev nth : ℕ → Token
nth zero = token object 0 26
nth (suc zero) = token string 2 9
nth (suc (suc zero)) = token primitive 11 15
nth (suc (suc (suc zero))) = token string 17 19
nth (suc (suc (suc (suc n)))) = token string 22 24

abbrev pub jsmn : Jsmn
jsmn = record { count = λ s. pos 5; fill = λ s n. pos 5; token = λ s n. nth }

abbrev zoned : Info
zoned = record info {
  creds = record {
    username = codes "example.com";
    password = codes "t";
    encoded_password = [];
    encoded = false;
  };
}

abbrev refused : Trans
refused = record zero_trans { status = pos 500; rsp_body = codes "8.8.8.8" }

setup-closes_example :
    (still_open online (Dnspod.setup online ctx info quiet world).world.history
      ≡ still_open online world.history)
    × (still_open online (Freedns.setup (λ s. []) online ctx info quiet world).world.history
        ≡ still_open online world.history)
    × (still_open online (Yandex.setup jsmn online ctx info quiet world).world.history
        ≡ still_open online world.history)
    × (still_open online
          (Cloudxns.setup (λ s. []) (λ t. []) online ctx info quiet world).world.history
        ≡ still_open online world.history)
setup-closes_example = setup-closes online ctx info quiet (λ s. []) (λ s. []) (λ t. []) jsmn world

extract-closes_example :
    still_open breaking
      (extract
        (λ status. 0)
        (λ text. (none, false))
        33
        breaking
        info
        (codes "GET")
        3
        []
        world).world.history
    ≡ (if transfer_fails breaking info (codes "GET") 3 world
        then suc (still_open breaking world.history)
        else still_open breaking world.history)
extract-closes_example =
    extract-closes (λ status. 0) (λ text. (none, false)) 33 breaking info (codes "GET") 3 [] world

breaking_fails : transfer_fails breaking info (codes "GET") 3 world ≡ true
unfolding transfer_fails http_init http_transaction
breaking_fails = refl

protocol_needs_200_example :
    (Cloudxns.response refused info quiet ≢ rc_ok)
    × (Dnsmax.response refused info quiet ≢ rc_ok)
    × (Dnspod.response refused info quiet ≢ rc_ok)
    × (Freedns.response refused info quiet ≢ rc_ok)
    × (Porkbun.response jsmn refused info quiet ≢ rc_ok)
    × (Yandex.response jsmn refused info quiet ≢ rc_ok)
    × ((Cloudflare.response jsmn refused info quiet ≡ rc_ok)
        ↔ ((pos 500 ≡ pos 304) × (Cloudflare.check_success_only jsmn refused.rsp_body ≡ true)))
protocol_needs_200_example = protocol_needs_200 jsmn refused info quiet (λ h. ground arith)

cloudflare_ready : (Cloudflare.setup jsmn answering ctx zoned quiet world).rc ≡ rc_ok
unfolding Cloudflare.setup Cloudflare.find_zone Cloudflare.zone_answered Cloudflare.find_id
    Cloudflare.id_answered Cloudflare.json_extract Cloudflare.is_record_id
    Cloudflare.get_record_type extract json_copy_value value_of http_init http_exit http_transaction
    parse_json jsoneq json_bool http_response_parse_body http_response_parse_status c_string
    contains format strstr ddns_get_tcp_force
cloudflare_ready = refl

setup-Prepared_example :
    let zone = zone_answer jsmn answering ctx zoned quiet world in
    (zone.rc ≡ rc_ok)
    × Prepared zone.dest
        (record_of jsmn answering ctx zoned quiet zone.dest zone.world)
        (Cloudflare.setup jsmn answering ctx zoned quiet world)
setup-Prepared_example = setup-Prepared jsmn answering ctx zoned quiet world cloudflare_ready

abbrev record_id : Str
record_id = codes "0123456789abcdef0123456789abcdef"

is_record_id-digits_example : is_record_id record_id ≡ leb ullong_max (hex_number 0 record_id)
is_record_id-digits_example = is_record_id-digits record_id refl refl

prefix_of-drop_last_example :
    (prefix_of (codes "www.example.com") (codes "example.com") ≡ (drop_last (codes "www"), false))
    × (strcmp_eq (prefix_of (codes "www.example.com") (codes "example.com")).0 (codes "www")
        ≡ false)
prefix_of-drop_last_example = prefix_of-drop_last b'w' (codes "ww") (codes "example.com")

split_name-join_example :
    ((2 ≤ dots (codes "a.b.org"))
      × (codes "a.b.org" ≡ codes "a" ++ b'.' ∷ codes "b.org")
      × (dots (codes "a") ≡ 0))
    ⊎ ((dots (codes "a.b.org") ≡ 1) × (codes "a.b.org" ≡ codes "b.org") × (codes "a" ≡ codes "@"))
unfolding split_name contains
split_name-join_example = split_name-join (codes "a.b.org") (codes "b.org") (codes "a") refl

-- The second of two records, with its identifier last: {'subdomain':'b','type':'A','record_id':'2'}
abbrev listed : Str
listed = codes "{'subdomain':'b','type':'A','record_id':'2'}"

abbrev inside : Progress
inside = record {
  state = find_record_id;
  subdomain_field = absent;
  type_field = absent;
  record_id = pos 1;
  id_keyword_found = false;
}

scan_tokens-stale_example :
    scan_tokens listed
      (codes "b")
      (token object 0 44
        ∷ token string 18 22
        ∷ token string 25 26
        ∷ token string 2 11
        ∷ token string 14 15
        ∷ token string 29 38
        ∷ token string 41 42
        ∷ [])
      inside
    ≡ pos 1
unfolding jsoneq
scan_tokens-stale_example =
    scan_tokens-stale listed (codes "b") (token object 0 44)
      (record { kind = type_member; key = token string 18 22; value = token string 25 26 }
        ∷ record { kind = name_member; key = token string 2 11; value = token string 14 15 }
        ∷ [])
      (token string 29 38 ∷ token string 41 42 ∷ []) inside 0 refl refl refl
      (
        record {
          has_key = (refl, refl, refl, refl);
          plain = record {
            text = refl;
            no_records = refl;
            no_subdomain = refl;
            no_type = refl;
            no_record_id = refl;
          };
          wanted = refl;
        },
        (
          record {
            has_key = (refl, refl, refl);
            plain = record {
              text = refl;
              no_records = refl;
              no_subdomain = refl;
              no_type = refl;
              no_record_id = refl;
            };
            wanted = refl;
          },
          tt,
        ),
      )
      refl refl
