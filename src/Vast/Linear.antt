-- ===== src/Vast/Linear.antt =====
-- Lemmas on vast/builder.go, buildLinear.
use openadsource.Common.{if◌then◌else◌, refl, false, ◌≡◌, [], ◌∷◌, text_eq, ℕ, ◌≤◌, arith}
use openadsource.Common.Int.{pos, negsuc, ◌≤ℤ◌, ℤ, leb_ℤ}
use openadsource.Vast.{build_linear, InlineInput, MediaFile}

-- Every linear ad has one media file with a positive width and height and with the input's URL, and
-- its duration is not empty.
pub build_linear-playable :
    (input : InlineInput)
    → (file : MediaFile) × ((build_linear input).media_files ≡ file ∷ [])
      × (pos 1 ≤ℤ file.width)
      × (pos 1 ≤ℤ file.height)
      × (file.url ≡ input.media_url)
      × (text_eq (build_linear input).duration [] ≡ false)
unfolding build_linear text_eq
build_linear-playable input = (
  _,
  refl,
  positive 1280 input.media_width (omega arith),
  positive 720 input.media_height (omega arith),
  refl,
  ground arith,
)
  where
    positive : (d : ℕ) (n : ℤ) → 1 ≤ d → pos 1 ≤ℤ (if leb_ℤ n (pos 0) then pos d else n)
    positive d (pos n) h = ground arith
    positive d (negsuc n) h = ground arith
