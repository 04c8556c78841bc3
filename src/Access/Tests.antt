-- ===== src/Access/Tests.antt =====
-- A server with a hook that sends everyone to one file, which only the owner's cookie sees in full.
use sipi.Common.{
  ℕ, [], ◌∷◌, true, none, some, Text, codes, ◌=t=◌, ◌≡◌, refl, err, if◌then◌else◌, length,
}
use sipi.Http.Sample.{sample_http}
use sipi.Preflight.{PreflightCache, new, empty_table}
use sipi.Preflight.History.{after}
use sipi.Iiif.Tests.{lena_request}
use sipi.Access.{Request, LuaEnv, decision, AppState, file_access}
use sipi.Serve.{has_nul}
use sipi.Serve.Gate.{has_nul-Lacks}
use sipi.Access.Earned.{Guarded, Answers, iiif_access-Earned}

abbrev pub origin : Text
origin = codes "https://a.org"

abbrev pub request : Request
request = record {
  method = codes "GET";
  path = codes "/iiif/2/image.jpg/full/200,/0/default.jpg";
  header_str = λ k. if k =t= codes "origin" then some origin else none;
  contains_key = λ k. k =t= codes "origin";
}

abbrev pub hooks : LuaEnv
hooks = record {
  preflight = λ req prefix identifier.
      some (decision (codes "restrict") ((codes "infile", codes "/images/x") ∷ []));
  file_preflight = λ req path. some (decision (codes "login") []);
}

abbrev pub state : AppState
state = record {
  ready = true;
  imgroot = codes "/images";
  resolved_imgroot = codes "/images";
  prefix_as_path = true;
  has_preflight = true;
  has_file_preflight = true;
  lua = some hooks;
}

abbrev pub table : PreflightCache
table = empty_table 1 60

-- A login is not enough for a download.
file_access_test :
    file_access sample_http length state lena_request request
    ≡ err (record { status = 401; headers = []; body = sipi.Http.no_body })
unfolding file_access
file_access_test = refl

pub guarded : Guarded lena_request request
unfolding has_nul
guarded = (has_nul-Lacks lena_request.prefix refl, has_nul-Lacks lena_request.identifier refl, tt)

iiif_access-Earned_example :
    (c' : PreflightCache) × (after table [] ≡ some c')
    × Answers ℕ sample_http length state 60 table [] lena_request request 5 6 c'
unfolding new
iiif_access-Earned_example =
    iiif_access-Earned ℕ sample_http length state 16 60 table [] lena_request request 5 6 refl refl
      tt guarded
