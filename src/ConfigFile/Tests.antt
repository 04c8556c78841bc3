-- ===== src/ConfigFile/Tests.antt =====
-- A file with a route and the errors of its resolution.
use sipi.Common.{ℕ, pos, List, [], ◌∷◌, none, some, codes, Result, ok, err, ◌≡◌, refl}
use sipi.Config.{ServerOverrides, default_overrides, layered_over}
use sipi.ConfigFile.{
  Config, RouteSpec, RouteEntry, ConfigError, missing_script_dir, jpeg_quality_range,
  unknown_route_method, resolve, base,
}
use sipi.ConfigFile.Checked.{Checked, resolve-Checked}

abbrev upload : RouteSpec
upload = record { method = codes "post"; route = codes "/api/upload"; script = codes "upload.lua" }

abbrev sample : Config ℕ
sample = record {
  network = record { port = some 1024 };
  paths = record {
    img_root = some (codes "/imgroot");
    script_dir = some (codes "/scripts/");
    init_script = none;
    tmp_dir = none;
    max_temp_file_age = none;
    doc_root = none;
    www_route = none;
    prefix_as_path = none;
  };
  cache = record { dir = none; size = none; n_files = some 250 };
  limits = record {
    memory_limit = none;
    admission_mode = none;
    tiles_memory_ratio = none;
    large_decode_threshold_bytes = none;
    max_post_size = none;
    thumb_size = none;
  };
  image = record {
    jpeg_quality = some (pos 90);
    scaling_quality = record { jpeg = none; tiff = none; png = none; j2k = none };
  };
  tls_auth = record { jwt_secret = none; admin_user = none; admin_password = none };
  knora = record { path = none; port = none };
  logging = record { level = none };
  routes = upload ∷ [];
}

abbrev resolved : Config ℕ → Result (ConfigError ℕ ℕ) (ServerOverrides ℕ × List RouteEntry)
resolved c = resolve ℕ ℕ c default_overrides

resolve_sample :
    resolved sample
    ≡ ok (
      layered_over default_overrides (base sample),
      record {
        method = codes "POST";
        route = codes "/api/upload";
        script = codes "/scripts/upload.lua";
      }
          ∷ [],
    )
unfolding resolve
resolve_sample = refl

quality_200 :
    resolved (record sample { image = record sample.image { jpeg_quality = some (pos 200) } })
    ≡ err (jpeg_quality_range (pos 200))
unfolding resolve
quality_200 = refl

no_dir :
    resolved (record sample { paths = record sample.paths { script_dir = none } })
    ≡ err missing_script_dir
unfolding resolve
no_dir = refl

patch :
    resolved (record sample { routes = record upload { method = codes "patch" } ∷ [] })
    ≡ err (unknown_route_method (codes "patch"))
unfolding resolve
patch = refl

resolve-Checked_example :
    Checked ℕ ℕ sample.routes
      (layered_over default_overrides (base sample))
      (resolve ℕ ℕ sample default_overrides)
resolve-Checked_example = resolve-Checked ℕ ℕ sample default_overrides
