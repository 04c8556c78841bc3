-- ===== src/Bindings/Outbound/Tests.antt =====
-- A request with a header and a long time, of which 300 milliseconds are left.
use sipi.Common.{[], ◌∷◌, false, none, some, pos, List, Text, codes, ◌≡◌, refl, Result, ok, err}
use sipi.Limits.{Deadline}
use sipi.Settings.{Value, integer, string, table}
use sipi.Bindings.{Lua, RequestData}
use sipi.Bindings.Outbound.{Request, Response, http_client}
use sipi.Bindings.Outbound.Bounded.{Bounded}

abbrev sample : Lua Text (Unit {0})
sample = record {
  show_number = λ s. s;
  pairs = λ t. ok (string (codes "Accept"), string (codes "text/plain")) ∷ [];
}

abbrev traced : RequestData
traced = record {
  method = codes "GET";
  client_ip = codes "127.0.0.1";
  client_port = pos 50000;
  secure = false;
  host = codes "h";
  uri = codes "/";
  headers = [];
  cookies = [];
  get_params = [];
  post_params = [];
  request_params = [];
  uploads = [];
  content = [];
  content_type = [];
  jwt_secret = [];
  docroot = none;
  traceparent = some (codes "00-1-2-01");
}

-- The world is the list of the requests, and each of them fails.
abbrev refuse : Request → List Request → Result Text Response × List Request
refuse request sent = (err (codes "refused"), request ∷ sent)

abbrev arguments : List (Value Text (Unit {0}))
arguments = string (codes "GET") ∷ string (codes "http://h/") ∷ table tt ∷ integer (pos 5000) ∷ []

abbrev deadline : Deadline
deadline = record { at = 1000; expired = false }

sent_test :
    (http_client sample (ok refuse) 700 deadline traced arguments []).1
    ≡ record {
      url = codes "http://h/";
      headers =
          (codes "Accept", codes "text/plain") ∷ (codes "traceparent", codes "00-1-2-01") ∷ [];
      timeout = 300;
    }
      ∷ []
unfolding http_client
sent_test = refl
