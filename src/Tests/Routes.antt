-- ===== src/Tests/Routes.antt =====
-- A request to a server whose limiter refuses everything, and subscription ids.
use strfry_http.Base.{
  ℕ, ◌≡◌, ◌≤◌, refl, false, [], ◌∷◌, Bytes, ok, none, some, codes, arith, length,
}
use strfry_http.Http.Client.{Request}
use strfry_http.Http.Metrics.{reset}
use strfry_http.Http.Routing.{Settings, Decision, Server, pre_routing}
use strfry_http.Http.Routing.Requests.{Keeps, answers_itself, pre_routing-Keeps}
use strfry_http.Subscription.{SubId, sub_id, sv, bad_char}
use strfry_http.Subscription.Ids.{sub_id-sv}

abbrev settings : Settings
settings = record { enable_cors = false; cors_origin = []; trust_proxy = false }

abbrev request : Request
request = record {
  method = codes "GET";
  body = [];
  remote_addr = codes "10.0.0.1";
  header = λ name. none;
}

abbrev server : Server ℕ
server = record {
  active_requests = 3;
  shutting_down = false;
  notified = false;
  metrics = reset;
  rate_limiter = some 0;
}

abbrev closed : Bytes → Bytes → ℕ → Decision ℕ
closed ip pubkey l = record { allowed = false; reason = codes "no"; limiter = l }

pre_routing-Keeps_example :
    Keeps closed
      (answers_itself closed settings (codes "/api/query") request server)
      server
      (pre_routing closed settings (codes "1") (codes "/api/query") request server).1
pre_routing-Keeps_example =
    pre_routing-Keeps closed settings (codes "1") (codes "/api/query") request server (omega arith)

abbrev sub_one : SubId
sub_one = record { buf = 2 ∷ b's' ∷ b'1' ∷ 7 ∷ [] }

sub_one_built : sub_id (9 ∷ 9 ∷ 9 ∷ 7 ∷ []) (codes "s1") ≡ ok sub_one
unfolding sub_id bad_char
sub_one_built = refl

sub_id-sv_example :
    (sv sub_one ≡ codes "s1") × (1 ≤ length (codes "s1")) × (length (codes "s1") ≤ 71)
sub_id-sv_example = sub_id-sv (9 ∷ 9 ∷ 9 ∷ 7 ∷ []) (codes "s1") sub_one sub_one_built
