-- ===== src/Cw20Base/Answers.antt =====
-- What the queries of contracts/cw20-base answer after a handled message.
use cw_plus.Base.{
  Option-cases, ◌≤◌, length, err, ap, ◌∙◌, ◌++◌, [], ◌∷◌, refl, Bool-cases, inl, inr, true, ◌==◌,
  ◌≢◌, ℕ, ◌+◌, ◌≡◌, Option, none, some, List, ok, arith, sym, subst,
}
use cw_plus.Base.Dict.Pairs.{lookup_pair, lookup_pair-insert_pair}
use cw_plus.Host.{Host, StdError, Text, Env, MessageInfo, Expiration, Block}
use cw_plus.Cw20.{
  AllowanceResponse, MarketingInfoResponse, Logo, embedded, svg, png, Cw20ReceiveMsg,
}
use cw_plus.Cw20Base.State.{State}
use cw_plus.Cw20Base.Logos.{
  verify_logo, verify_xml_logo, verify_xml_preamble, verify_png_logo, xml_prefix, png_header,
  first_piece, starts_with, ends_with_postfix,
}
use cw_plus.Cw20Base.Marketing.{execute_upload_logo}
use cw_plus.Cw20Base.Allowances.{
  or_default, execute_increase_allowance, raise_allowance, set_expires, query_allowance,
}
use cw_plus.Cw20Base.Queries.{image_svg_xml, image_png, logo_response, query_download_logo}
use cw_plus.Cw20Base.Steps.{increase_steps}

-- The bytes up to the first `>` and the rest.
first_piece-split : (bytes : List ℕ) → (rest : List ℕ) × (bytes ≡ first_piece bytes ++ rest)
unfolding first_piece
first_piece-split [] = ([], refl)
first_piece-split (b ∷ bytes) = elim (Bool-cases (b == b'>')) [
  | inl close ↦ (bytes, ground arith)
  | inr other ↦ let (rest, e) = first_piece-split bytes in (rest, ground arith)
]

-- No `>` among the bytes.
abbrev pub IsOpen : List ℕ → Type 0
IsOpen [] = Unit
IsOpen (b ∷ bytes) = (b ≢ b'>') × IsOpen bytes

starts_with-split :
    (start bytes : List ℕ)
    → starts_with start bytes ≡ true
    → (rest : List ℕ) × (bytes ≡ start ++ rest)
unfolding starts_with
starts_with-split [] bytes e = (bytes, refl)
starts_with-split (p ∷ ps) [] e = absurd (ground arith)
starts_with-split (p ∷ ps) (b ∷ bytes) e =
    let (rest, same) = starts_with-split ps bytes (ground arith) in (rest, ground arith)

ends_with_postfix-split :
    (bytes : List ℕ)
    → ends_with_postfix bytes ≡ true
    → (inside : List ℕ) × (bytes ≡ inside ++ b'?' ∷ b'>' ∷ [])
unfolding ends_with_postfix
ends_with_postfix-split [] e = absurd (ground arith)
ends_with_postfix-split (a ∷ []) e = absurd (ground arith)
ends_with_postfix-split (a ∷ b ∷ []) e = ([], ground arith)
ends_with_postfix-split (a ∷ b ∷ c ∷ bytes) e =
    let (inside, same) = ends_with_postfix-split (b ∷ c ∷ bytes) e in (a ∷ inside, ground arith)

first_piece-IsOpen :
    (bytes inside rest : List ℕ) → first_piece bytes ≡ inside ++ b'?' ∷ rest → IsOpen inside
unfolding first_piece
first_piece-IsOpen bytes [] rest e = tt
first_piece-IsOpen [] (i ∷ inside) rest e = absurd (ground arith)
first_piece-IsOpen (b ∷ bytes) (i ∷ []) rest e = elim (Bool-cases (b == b'>')) [
  | inl close ↦ absurd (ground arith)
  | inr other ↦ (ground arith, tt)
]
first_piece-IsOpen (b ∷ bytes) (i ∷ j ∷ inside) rest e = elim (Bool-cases (b == b'>')) [
  | inl close ↦ absurd (ground arith)
  | inr other ↦ (ground arith, first_piece-IsOpen bytes (j ∷ inside) rest (ground arith))
]

-- The bytes begin with `<?xml ` and their first `>` closes that with `?>`.
pub record IsXml (bytes : List ℕ) : Type 0 where
  pub inside : List ℕ
  pub more : List ℕ
  pub rest : List ℕ
  pub whole : bytes ≡ (inside ++ b'?' ∷ b'>' ∷ []) ++ rest
  pub is_open : IsOpen inside
  pub begins : inside ++ b'?' ∷ b'>' ∷ [] ≡ b'<' ∷ b'?' ∷ b'x' ∷ b'm' ∷ b'l' ∷ b' ' ∷ more

-- The bytes begin with the header of a PNG.
pub record IsPng (bytes : List ℕ) : Type 0 where
  pub rest : List ℕ
  pub whole : bytes ≡ 0x89 ∷ b'P' ∷ b'N' ∷ b'G' ∷ 0x0d ∷ 0x0a ∷ 0x1a ∷ 0x0a ∷ rest

verify_xml_logo-IsXml :
    (bytes : List ℕ) → verify_xml_logo bytes ≡ ok tt → IsXml bytes × (length bytes ≤ 5120)
unfolding verify_xml_logo verify_xml_preamble
verify_xml_logo-IsXml [] e = absurd (ground arith)
verify_xml_logo-IsXml (b ∷ bytes) e =
    let pre : List ℕ = first_piece (b ∷ bytes) in
    let (rest, whole) = first_piece-split (b ∷ bytes) in
    let (more, begins) = starts_with-split xml_prefix pre (ground arith) in
    let (inside, ends) = ends_with_postfix-split pre (ground arith) in
    (
      record {
        inside = inside;
        more = more;
        rest = rest;
        whole = whole ∙ ap (λ t. t ++ rest) ends;
        is_open = first_piece-IsOpen (b ∷ bytes) inside (b'>' ∷ []) ends;
        begins = sym ends ∙ begins;
      },
      ground arith,
    )

verify_png_logo-IsPng :
    (bytes : List ℕ) → verify_png_logo bytes ≡ ok tt → IsPng bytes × (length bytes ≤ 5120)
unfolding verify_png_logo
verify_png_logo-IsPng bytes e =
    let (rest, whole) = starts_with-split png_header bytes (ground arith) in
    (record { rest = rest; whole = whole }, ground arith)

-- A picture that is kept is a small one of its kind and a download returns its bytes with its type;
-- for a URL there is nothing to download.
abbrev pub IsShown : Logo → State → Type 0
IsShown (Logo.url u) st = query_download_logo st ≡ err StdError.not_found
IsShown (embedded (svg bytes)) st =
    IsXml bytes
    × (length bytes ≤ 5120)
    × (query_download_logo st ≡ ok (record { mime_type = image_svg_xml; data_bytes = bytes }))
IsShown (embedded (png bytes)) st =
    IsPng bytes
    × (length bytes ≤ 5120)
    × (query_download_logo st ≡ ok (record { mime_type = image_png; data_bytes = bytes }))

-- The account that an upload that is handled comes from.
abbrev pub IsMarketer : State → ℕ → Type 0
IsMarketer st a =
    (m : MarketingInfoResponse) × (st.marketing_info ≡ some m) × (m.marketing ≡ some a)

upload-owner :
    (h : Host) (env : Env) (info : MessageInfo) (logo : Logo) (st st' : State)
    (ms : List Cw20ReceiveMsg)
    → execute_upload_logo h env info logo st ≡ ok (st', ms)
    → IsMarketer st info.sender
unfolding execute_upload_logo
upload-owner h env info logo st st' ms e = elim (Option-cases st.marketing_info) [
  | inl missing ↦ absurd (ground arith)
  | inr (m, found) ↦ elim (Option-cases m.marketing) [
    | inl nobody ↦ absurd (ground arith)
    | inr (a, owner) ↦ (m, found, ground arith)
  ]
]

-- An upload that is handled is by the marketing account. A picture then has at most 5120 bytes, and
-- begins with an XML preamble, which its first `>` ends, or with the header of a PNG, and a
-- download returns its bytes with the type of an SVG or of a PNG; for a URL a download finds
-- nothing.
pub execute_upload_logo-query_download_logo :
    (h : Host) (env : Env) (info : MessageInfo) (logo : Logo) (st st' : State)
    (ms : List Cw20ReceiveMsg)
    → execute_upload_logo h env info logo st ≡ ok (st', ms)
    → IsMarketer st info.sender × IsShown logo st'
unfolding execute_upload_logo query_download_logo logo_response verify_logo
execute_upload_logo-query_download_logo h env info (Logo.url u) st st' ms e =
    (upload-owner h env info (Logo.url u) st st' ms e, ground arith)
execute_upload_logo-query_download_logo h env info (embedded (svg bytes)) st st' ms e =
    let (is, small) = verify_xml_logo-IsXml bytes (ground arith) in
    (upload-owner h env info (embedded (svg bytes)) st st' ms e, (is, small, ground arith))
execute_upload_logo-query_download_logo h env info (embedded (png bytes)) st st' ms e =
    let (is, small) = verify_png_logo-IsPng bytes (ground arith) in
    (upload-owner h env info (embedded (png bytes)) st st' ms e, (is, small, ground arith))

-- A raise adds the amount and takes the new expiration, if one is given.
raise_allowance_lem :
    (h : Host) (block : Block) (x : ℕ) (expires : Option Expiration) (o : Option AllowanceResponse)
    (a : AllowanceResponse)
    → raise_allowance h block x expires o ≡ ok a
    → (a.allowance ≡ (or_default h o).allowance + x)
      × (a.expires ≡ elim expires [ none ↦ (or_default h o).expires | some t ↦ t ])
unfolding raise_allowance set_expires
raise_allowance_lem h block x none o a e =
    ground (arith, h.add_128_lem (or_default h o).allowance x)
raise_allowance_lem h block x (some t) o a e =
    ground (arith, h.add_128_lem (or_default h o).allowance x)

-- An increase of an allowance is what a query then shows: the spender has the amount on top of
-- what the same query showed before, and until the new expiration if one is given.
pub execute_increase_allowance-query_allowance :
    (h : Host) (env : Env) (info : MessageInfo) (spender : Text) (x : ℕ)
    (expires : Option Expiration) (st st' : State) (ms : List Cw20ReceiveMsg)
    (before : AllowanceResponse)
    → h.addr_validate info.sender ≡ ok info.sender
    → execute_increase_allowance h env info spender x expires st ≡ ok (st', ms)
    → query_allowance h info.sender spender st ≡ ok before
    → (after : AllowanceResponse) × (query_allowance h info.sender spender st' ≡ ok after)
      × (after.allowance ≡ before.allowance + x)
      × (after.expires ≡ elim expires [ none ↦ before.expires | some t ↦ t ])
unfolding query_allowance
execute_increase_allowance-query_allowance h env info spender x expires st st' ms before v e q =
    let (a, one, two, va, ne, e1, e2, e') =
      increase_steps h env info st st' ms spender x expires e in
    let shown : before ≡ or_default h (lookup_pair info.sender a st.allowances) = ground arith in
    let raised = raise_allowance_lem h env.block x expires _ one e1 in
    (
      one,
      ground (arith, lookup_pair-insert_pair info.sender a info.sender a one st.allowances),
      subst (λ t. one.allowance ≡ t.allowance + x) (sym shown) raised.0,
      subst (λ t. one.expires ≡ elim expires [ none ↦ t.expires | some u ↦ u ]) (sym shown)
          raised.1,
    )
