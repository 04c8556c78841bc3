-- ===== src/Serve/Tests.antt =====
-- A server at work on a request for an image.
use sipi.Common.{
  ℕ, List, [], ◌∷◌, ◌++◌, true, Option, none, some, Text, codes, ◌=t=◌, ◌≡◌, ◌↔◌, ◌⊎◌, refl, ok,
  if◌then◌else◌, length, pos,
}
use sipi.Http.{Response}
use sipi.Http.Sample.{Pairs, sample_http}
use sipi.Preflight.{PreflightCache, new, allow}
use sipi.Preflight.History.{Call, after}
use sipi.Iiif.Tests.{decimals, percent_decode, lena_request, parse_request_image_test}
use sipi.Sink.{World, returns, set_status, write, chunk, serve_streaming}
use sipi.Access.{Access, access_from}
use sipi.Iiif.Request.{info_json}
use sipi.Access.Earned.{Honest}
use sipi.Access.Tests.{state, request, table, guarded}
use sipi.Paths.{contains_traversal}
use sipi.Serve.{Action, reply, serve_image, serve_info, act, admitted, dispatch}
use sipi.Serve.Gate.{Acceptable, admitted-Acceptable}
use sipi.Serve.Safety.{Safe, HasAccess, dispatch-Safe}
use sipi.Serve.Seam.{Seam, Host}
use sipi.Serve.Calls.{perform}
use sipi.Serve.Answers.{Leads, dispatch-Earned, Answered, handle-Answered}

abbrev canonicalize : Text → Option Text
canonicalize p = if p =t= codes "/images/x" then some p else none

abbrev seam : Seam ℕ
seam = record {
  sipi_serve_image = λ r. set_status (pos 200) (write (some (codes "jpeg")) (λ c. returns (pos 0)));
  sipi_serve_file = λ p range. returns (pos 404);
  mimetype = λ p. some (codes "image/png");
  image_dims = λ p. none;
  image_dims_and_essentials = λ p. none;
}

abbrev host : Host ℕ
host = record {
  files = record { opened = λ p. none; seek = λ p n. true };
  size = λ p. none;
  read_to_string = λ p. none;
  to_vec = λ v. codes "{}";
  from_str = λ t. none;
  as_f64 = λ v. none;
  non_negative = λ n. true;
}

abbrev world : World
world = record { rounds = []; patience = 3 }

acceptable : Acceptable sample_http state decimals percent_decode request lena_request
unfolding contains_traversal
acceptable = record {
  ready = refl;
  parses = parse_request_image_test;
  identifier_clean = guarded.1;
  prefix_clean = guarded.0;
  identifier_stays = refl;
  prefix_stays = refl;
  served = refl;
}

passes : admitted sample_http state decimals percent_decode request true ≡ ok lena_request
passes =
    (admitted-Acceptable sample_http state decimals percent_decode request true lena_request).1
      (refl, acceptable)

admitted-Acceptable_example :
    (admitted sample_http state decimals percent_decode request true ≡ ok lena_request)
    ↔ ((true ≡ true) × Acceptable sample_http state decimals percent_decode request lena_request)
admitted-Acceptable_example =
    admitted-Acceptable sample_http state decimals percent_decode request true lena_request

-- An info.json goes out whatever the permission, where the hook names a file for a denial.
abbrev denied_access : Access
denied_access = access_from (record {
  permission = sipi.Preflight.deny;
  kv = (codes "infile", codes "/images/x") ∷ (codes "infile", []) ∷ [];
})

denied_info_test :
    act sample_http state canonicalize info_json denied_access
    ≡ serve_info (codes "/images/x") denied_access
unfolding act access_from
denied_info_test = refl

abbrev restricted : Access
restricted = record {
  infile = codes "/images/x";
  permission = sipi.Preflight.restrict;
  kv = (codes "infile", codes "/images/x") ∷ [];
}

dispatched :
    dispatch sample_http state length canonicalize none lena_request request 5 6
    ≡ some (serve_image (codes "/images/x") restricted, none)
unfolding dispatch
dispatched = refl

dispatch-Safe_example :
    ((r : Response Pairs) × (serve_image (codes "/images/x") restricted ≡ reply r))
    ⊎ ((access : Access) × HasAccess sample_http state length canonicalize none lena_request request
          5 6 access
        × Safe {M = Pairs} canonicalize state access (serve_image (codes "/images/x") restricted))
dispatch-Safe_example =
    dispatch-Safe sample_http state length canonicalize none none lena_request request 5 6
      (serve_image (codes "/images/x") restricted) dispatched

dispatch-Earned_example :
    (c' : PreflightCache) × (action : Action Pairs) × (c'' : PreflightCache) × (ys : List Call)
    × (after table [] ≡ some c')
    × (dispatch sample_http state length canonicalize (some c') lena_request request 5 6
        ≡ some (action, some c''))
    × (after table (ys ++ []) ≡ some c'')
    × Honest ℕ sample_http length state (ys ++ [])
    × Leads sample_http decimals percent_decode length canonicalize seam host state 60 []
        lena_request request 5 action
unfolding new
dispatch-Earned_example =
    dispatch-Earned sample_http decimals percent_decode length canonicalize seam host state 16 60
      table [] request true lena_request 5 6 refl refl tt tt passes refl

handle-Answered_example :
    (c' : PreflightCache) × (after table [] ≡ some c')
    × Answered sample_http decimals percent_decode length canonicalize seam host state table []
        world true request 5 6 c'
unfolding new
handle-Answered_example =
    handle-Answered sample_http decimals percent_decode length canonicalize seam host state 16 60
      table [] world true request 5 6 refl tt tt

sent_test :
    (perform sample_http seam host world lena_request request
      (serve_image (codes "/images/x") restricted)).items
    ≡ chunk (codes "jpeg") ∷ []
unfolding perform serve_streaming
sent_test = refl
