-- ===== src/Cw20Base/Logos.antt =====
-- The checks of an uploaded logo, in contracts/cw20-base/src/contract.rs.
use cw_plus.Base.{
  ℕ, ◌==◌, ◌&&◌, Bool, true, false, List, [], ◌∷◌, Result, ok, err, ◌>>◌, ensure, leb, length,
  if◌then◌else◌,
}
use cw_plus.Host.{Binary}
use cw_plus.Cw20.{Logo, svg, png, embedded}
use cw_plus.Cw20Base.State.{ContractError, invalid_xml_preamble, invalid_png_header, logo_too_big}

-- `LOGO_SIZE_CAP`
abbrev pub logo_size_cap : ℕ
logo_size_cap = 5120

-- `starts_with`
unfoldable pub starts_with : List ℕ → List ℕ → Bool
starts_with [] bytes = true
starts_with (p ∷ ps) [] = false
starts_with (p ∷ ps) (b ∷ bytes) = p == b && starts_with ps bytes

-- The bytes up to the first `>`, and with it: what `split_inclusive(|c| *c == b'>').next()` returns
-- for bytes that are not empty.
unfoldable pub first_piece : List ℕ → List ℕ
first_piece [] = []
first_piece (b ∷ bytes) = if b == b'>' then b ∷ [] else b ∷ first_piece bytes

-- `ends_with(b"?>")`
unfoldable pub ends_with_postfix : List ℕ → Bool
ends_with_postfix [] = false
ends_with_postfix (a ∷ []) = false
ends_with_postfix (a ∷ b ∷ []) = a == b'?' && b == b'>'
ends_with_postfix (a ∷ b ∷ c ∷ bytes) = ends_with_postfix (b ∷ c ∷ bytes)

-- `PREFIX`
abbrev pub xml_prefix : List ℕ
xml_prefix = b'<' ∷ b'?' ∷ b'x' ∷ b'm' ∷ b'l' ∷ 0x20 ∷ []

-- `HEADER`
abbrev pub png_header : List ℕ
png_header = 0x89 ∷ b'P' ∷ b'N' ∷ b'G' ∷ 0x0d ∷ 0x0a ∷ 0x1a ∷ 0x0a ∷ []

unfoldable pub verify_xml_preamble : Binary → Result ContractError (Unit {0})
verify_xml_preamble [] = err invalid_xml_preamble
verify_xml_preamble (b ∷ bytes) =
    let preamble = first_piece (b ∷ bytes) in
    ensure (starts_with xml_prefix preamble && ends_with_postfix preamble) invalid_xml_preamble

unfoldable pub verify_xml_logo : Binary → Result ContractError (Unit {0})
verify_xml_logo logo = do
  verify_xml_preamble logo
  ensure (leb (length logo) logo_size_cap) logo_too_big

unfoldable pub verify_png_logo : Binary → Result ContractError (Unit {0})
verify_png_logo logo = do
  ensure (leb (length logo) logo_size_cap) logo_too_big
  ensure (starts_with png_header logo) invalid_png_header

unfoldable pub verify_logo : Logo → Result ContractError (Unit {0})
verify_logo (embedded (svg logo)) = verify_xml_logo logo
verify_logo (embedded (png logo)) = verify_png_logo logo
verify_logo (Logo.url _) = ok tt
