-- ===== src/Serve/Calls.antt =====
-- The calls of the engine and the documents that the shell builds: serve_image, serve_file,
-- serve_info_json and serve_knora_json of server-rs/src/routes.rs.
use sipi.Common.{ℕ, [], Option, none, some, Text, codes, ◌=t=◌, unwrap_or, and_then, if◌then◌else◌}
use sipi.Http.{Http, Response}
use sipi.Sink.{World, complete, StreamSink, deliver, fresh, serve_streaming, error_response}
use sipi.Iiif.Request.{ParsedRequest}
use sipi.Access.{Request, Access}
use sipi.Replies.{forwarded, canonical_id, client_ip, json_response}
use sipi.Info.Json.{arr, obj, Members, no_elements, element, insert}
use sipi.Info.Documents.{image_context, file_context, image_info_json, bitstream_info_json}
use sipi.Info.Knora.{
  Sidecar, empty_sidecar, parse, image_knora_json, video_knora_json, generic_knora_json,
}
use sipi.Info.Auth.{is_auth_type, auth_service}
use sipi.Serve.{Action, reply, serve_image, serve_info, serve_file, serve_knora}
use sipi.Serve.Seam.{ImageRequest, Seam, Host, c_string, restricted, sidecar_path, is_image_mime}

module _ {M F R : Type 0} (http : Http M) (seam : Seam F) (host : Host R) where
  unfoldable pub read_sidecar : Text → Sidecar R
  unfolding sidecar_path parse
  read_sidecar infile = elim (host.read_to_string (sidecar_path infile)) [
    | none ↦ empty_sidecar
    | some t ↦ parse host.from_str host.as_f64 t
  ]

  -- The request of `serve_image`; `none` where a name holds a NUL.
  unfoldable pub image_request : Text → ParsedRequest F → Request → Access → Option (ImageRequest F)
  unfolding c_string forwarded client_ip restricted
  image_request p parsed req access =
      let (scheme, h) = forwarded req in
      and_then (c_string p) λ resolved_path. and_then (c_string parsed.prefix) λ prefix.
        and_then (c_string parsed.identifier) λ identifier. some (record {
          resolved_path = resolved_path;
          prefix = prefix;
          identifier = identifier;
          client_ip = unwrap_or (c_string (client_ip req)) [];
          params = parsed.params;
          restricted_size = restricted access (codes "size");
          watermark_path = restricted access (codes "watermark");
          forwarded_proto = unwrap_or (c_string scheme) [];
          forwarded_host = unwrap_or (c_string h) [];
          request_uri = unwrap_or (c_string req.path) [];
          is_head = req.method =t= codes "HEAD";
        })

  -- The document of an info.json, with the context for the `Link`.
  unfoldable pub info_document : Text → Text → Text → Option (Members R × Text)
  unfolding image_info_json bitstream_info_json
  info_document p id mime =
      if is_image_mime mime
      then and_then (seam.image_dims p) (λ d. some (image_info_json id d, image_context))
      else and_then (host.size p) (λ n. some (bitstream_info_json id mime n, file_context))

  abbrev pub canonical : ParsedRequest F → Request → Text
  unfolding forwarded canonical_id
  canonical parsed req =
      let (scheme, h) = forwarded req in canonical_id scheme h parsed.prefix parsed.identifier

  unfoldable pub serve_info_json : Text → ParsedRequest F → Request → Access → Response M
  unfolding info_document is_auth_type auth_service insert error_response json_response canonical
  serve_info_json p parsed req access =
      let send : ℕ → Members R → Text → Response M = λ status value ctx.
        json_response http status (host.to_vec (obj value)) req (some ctx) (codes "*") in
      elim (and_then (seam.mimetype p) (info_document p (canonical parsed req))) [
        | none ↦ error_response http 500
        | some (value, ctx) ↦
            if is_auth_type access.permission
            then elim (auth_service access.permission access.kv) [
              | none ↦ error_response http 500
              | some service ↦
                  send 401
                    (insert value (codes "service") (arr (element (obj service) no_elements))) ctx
            ]
            else send 200 value ctx
      ]

  unfoldable pub knora_document : Text → Text → Text → Option (Members R)
  unfolding read_sidecar image_knora_json video_knora_json generic_knora_json
  knora_document p id mime =
      let sidecar = read_sidecar p in
      if is_image_mime mime
      then and_then (seam.image_dims_and_essentials p)
          (λ (d, e). some (image_knora_json id mime d sidecar e))
      else and_then (host.size p) (λ n. some (
          if mime =t= codes "video/mp4"
          then video_knora_json host.non_negative id mime n sidecar
          else generic_knora_json id mime n sidecar))

  unfoldable pub serve_knora_json : Text → ParsedRequest F → Request → Response M
  unfolding knora_document error_response json_response canonical
  serve_knora_json p parsed req =
      elim (and_then (seam.mimetype p) (knora_document p (canonical parsed req))) [
        | none ↦ error_response http 500
        | some value ↦
            json_response http 200 (host.to_vec (obj value)) req none
              (unwrap_or (req.header_str (codes "origin")) (codes "*"))
      ]

  -- A whole response on the outcome channel.
  abbrev pub completed : World → Response M → StreamSink M
  unfolding deliver
  completed world r = deliver (complete r) (fresh world)

  -- The action of `dispatch_engine`.
  unfoldable pub perform : World → ParsedRequest F → Request → Action M → StreamSink M
  unfolding completed image_request serve_streaming serve_info_json serve_knora_json c_string
      error_response
  perform world parsed req (reply r) = completed world r
  perform world parsed req (serve_image p access) = elim (image_request p parsed req access) [
    | none ↦ completed world (error_response http 400)
    | some q ↦ serve_streaming http host.files world (seam.sipi_serve_image q)
  ]
  perform world parsed req (serve_file p) = elim (c_string p) [
    | none ↦ completed world (error_response http 400)
    | some q ↦
        serve_streaming http host.files world
          (seam.sipi_serve_file q (and_then (req.header_str (codes "range")) c_string))
  ]
  perform world parsed req (serve_info p access) =
      completed world (serve_info_json p parsed req access)
  perform world parsed req (serve_knora p) = completed world (serve_knora_json p parsed req)
