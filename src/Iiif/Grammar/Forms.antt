-- ===== src/Iiif/Grammar/Forms.antt =====
-- The IIIF 3.0 path segments that the server takes, as abstract syntax with its spelling. This is
-- the description against which the validators and the parsers of parse.rs are proved.
use sipi.Common.{
  ℕ, [], ◌∷◌, ◌++◌, Bool, true, Text, codes, All, ◌≡◌, ◌≢◌, is_ascii_digit, if◌then◌else◌,
}

abbrev pub IsDigit : ℕ → Type 0
IsDigit c = is_ascii_digit c ≡ true

-- `digit+`
abbrev pub IsPosint : Text → Type 0
IsPosint t = (t ≢ []) × All IsDigit t

-- `digit+ ('.' digit+)?`
pub data Posfloat : Type 0 where
  whole : Text → Posfloat
  fraction : Text → Text → Posfloat

abbrev pub posfloat : Posfloat → Text
posfloat (whole a) = a
posfloat (fraction a b) = a ++ b'.' ∷ b

abbrev pub IsPosfloat : Posfloat → Type 0
IsPosfloat (whole a) = IsPosint a
IsPosfloat (fraction a b) = IsPosint a × IsPosint b

pub data Region : Type 0 where
  full square : Region
  coords : Text → Text → Text → Text → Region
  percents : Posfloat → Posfloat → Posfloat → Posfloat → Region

abbrev pub region_text : Region → Text
region_text full = codes "full"
region_text square = codes "square"
region_text (coords a b c d) = a ++ (b',' ∷ (b ++ (b',' ∷ (c ++ (b',' ∷ d)))))
region_text (percents a b c d) =
    codes "pct:"
    ++ (posfloat a ++ (b',' ∷ (posfloat b ++ (b',' ∷ (posfloat c ++ (b',' ∷ posfloat d))))))

abbrev pub IsRegion : Region → Type 0
IsRegion full = Unit
IsRegion square = Unit
IsRegion (coords a b c d) = IsPosint a × IsPosint b × IsPosint c × IsPosint d
IsRegion (percents a b c d) = IsPosfloat a × IsPosfloat b × IsPosfloat c × IsPosfloat d

-- The sizes behind the optional `^`.
pub data SizeForm : Type 0 where
  max : SizeForm
  percent : Posfloat → SizeForm
  width height : Text → SizeForm
  exact confined : Text → Text → SizeForm

abbrev pub size_form_text : SizeForm → Text
size_form_text max = codes "max"
size_form_text (percent p) = codes "pct:" ++ posfloat p
size_form_text (width w) = w ++ b',' ∷ []
size_form_text (height h) = b',' ∷ h
size_form_text (exact w h) = w ++ b',' ∷ h
size_form_text (confined w h) = b'!' ∷ (w ++ b',' ∷ h)

abbrev pub IsSizeForm : SizeForm → Type 0
IsSizeForm max = Unit
IsSizeForm (percent p) = IsPosfloat p
IsSizeForm (width w) = IsPosint w
IsSizeForm (height h) = IsPosint h
IsSizeForm (exact w h) = IsPosint w × IsPosint h
IsSizeForm (confined w h) = IsPosint w × IsPosint h

-- A segment with or without a mark in front, `^` for a size and `!` for a rotation.
pub record Marked (A : Type 0) : Type 0 where
  pub mark : Bool
  pub value : A

abbrev pub size_text : Marked SizeForm → Text
size_text s = if s.mark then b'^' ∷ size_form_text s.value else size_form_text s.value

abbrev pub rotation_text : Marked Posfloat → Text
rotation_text r = if r.mark then b'!' ∷ posfloat r.value else posfloat r.value

pub data Quality : Type 0 where
  color gray bitonal default : Quality

pub data Format : Type 0 where
  jpg tif png jp2 : Format

abbrev pub quality_text : Quality → Text
quality_text color = codes "color"
quality_text gray = codes "gray"
quality_text bitonal = codes "bitonal"
quality_text default = codes "default"

abbrev pub format_text : Format → Text
format_text jpg = codes "jpg"
format_text tif = codes "tif"
format_text png = codes "png"
format_text jp2 = codes "jp2"

abbrev pub qualform_text : Quality → Format → Text
qualform_text q f = quality_text q ++ b'.' ∷ format_text f
