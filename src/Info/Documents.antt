-- ===== src/Info/Documents.antt =====
-- The documents info.json, server-rs/src/info.rs.
use sipi.Common.{ℕ, List, [], ◌∷◌, map, ◌&&◌, Text, codes, ltb, if◌then◌else◌}
use sipi.Info.{pyramid_scale_factors, sizes_for}
use sipi.Info.Json.{
  Json, str, num, arr, obj, no_elements, element, Members, no_members, insert, array,
}

pub record SipiImageDims : Type 0 where
  pub width : ℕ
  pub height : ℕ
  pub numpages : ℕ
  pub tile_width : ℕ
  pub tile_height : ℕ

abbrev pub image_context : Text
image_context = codes "http://iiif.io/api/image/3/context.json"

abbrev pub file_context : Text
file_context = codes "http://sipi.io/api/file/3/context.json"

abbrev pub default_tile_size : ℕ
default_tile_size = 512

abbrev pub extra_features : List Text
extra_features =
    codes "baseUriRedirect"
    ∷ codes "canonicalLinkHeader"
    ∷ codes "cors"
    ∷ codes "jsonldMediaType"
    ∷ codes "mirroring"
    ∷ codes "profileLinkHeader"
    ∷ codes "regionByPct"
    ∷ codes "regionByPx"
    ∷ codes "regionSquare"
    ∷ codes "rotationArbitrary"
    ∷ codes "rotationBy90s"
    ∷ codes "sizeByConfinedWh"
    ∷ codes "sizeByH"
    ∷ codes "sizeByPct"
    ∷ codes "sizeByW"
    ∷ codes "sizeByWh"
    ∷ codes "sizeUpscaling"
    ∷ []

-- The tile grid, or the reference tile of an image without one.
unfoldable pub grid : SipiImageDims → ℕ × ℕ
grid d =
    if ltb 0 d.tile_width && ltb 0 d.tile_height
    then (d.tile_width, d.tile_height)
    else (default_tile_size, default_tile_size)

unfoldable pub scale_factors_of : SipiImageDims → List ℕ
unfolding grid
scale_factors_of d = let (tw, th) = grid d in pyramid_scale_factors d.width d.height tw th

module _ {R : Type 0} where
  unfoldable pub texts : List Text → Json R
  unfolding array
  texts ts = arr (array (map str ts))

  unfoldable pub size_value : ℕ × ℕ → Json R
  unfolding insert
  size_value (w, h) =
      obj (insert (insert no_members (codes "width") (num w)) (codes "height") (num h))

  unfoldable pub head_members : Text → SipiImageDims → Members R
  unfolding insert
  head_members id d =
      let m = insert no_members (codes "@context") (str image_context) in
      let m = insert m (codes "id") (str id) in
      let m = insert m (codes "type") (str (codes "ImageService3")) in
      let m = insert m (codes "protocol") (str (codes "http://iiif.io/api/image")) in
      let m = insert m (codes "profile") (str (codes "level2")) in
      let m = insert m (codes "width") (num d.width) in
      let m = insert m (codes "height") (num d.height) in
      if ltb 0 d.numpages then insert m (codes "numpages") (num d.numpages) else m

  unfoldable pub tiles_value : SipiImageDims → Json R
  unfolding array scale_factors_of insert
  tiles_value d =
      let m = insert no_members (codes "width") (num d.tile_width) in
      let m = insert m (codes "height") (num d.tile_height) in
      let m = insert m (codes "scaleFactors") (arr (array (map num (scale_factors_of d)))) in
      arr (element (obj m) no_elements)

  unfoldable pub image_info_json : Text → SipiImageDims → Members R
  unfolding array scale_factors_of insert head_members tiles_value texts size_value
  image_info_json id d =
      let sizes = sizes_for d.width d.height (scale_factors_of d) in
      let m = insert (head_members id d) (codes "sizes") (arr (array (map size_value sizes))) in
      let m =
        if ltb 0 d.tile_width && ltb 0 d.tile_height
        then insert m (codes "tiles") (tiles_value d)
        else m in
      let m = insert m (codes "extraFormats") (texts (codes "tif" ∷ codes "jp2" ∷ [])) in
      let m =
        insert m (codes "preferredFormats")
          (texts (codes "jpg" ∷ codes "tif" ∷ codes "jp2" ∷ codes "png" ∷ [])) in
      insert m (codes "extraFeatures") (texts extra_features)

  unfoldable pub bitstream_info_json : Text → Text → ℕ → Members R
  unfolding insert
  bitstream_info_json id mime file_size =
      let m = insert no_members (codes "@context") (str file_context) in
      let m = insert m (codes "id") (str id) in
      let m = insert m (codes "internalMimeType") (str mime) in
      insert m (codes "fileSize") (num file_size)
