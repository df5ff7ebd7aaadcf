-- ===== src/Uploads.antt =====
-- utils/uploads.py: the checks of an uploaded file before it is parsed or stored.
use diploma_munka.Prelude.{
  ℕ, zero, suc, ◌+◌, Bool, true, false, ◌&&◌, List, [], ◌∷◌, String, ltb, leb, ◌==◌, length, take,
  any, if◌then◌else◌,
}
use diploma_munka.Prelude.Int.{ℤ, pos, leb_ℤ, nat_abs}
use diploma_munka.Prelude.Results.{Result, ok, raise}
pub mod Bounds
mod Tests

-- The ValueError of a limit that is not positive, and the HTTPExceptions with status 400, 413 and,
-- the last two, 415.
pub data UploadFault : Type 0 where
  max_bytes_not_positive empty_upload upload_too_large : UploadFault
  not_text not_an_image : UploadFault

abbrev pub check_payload : ℕ → List ℕ → Result UploadFault (List ℕ)
check_payload max_bytes [] = raise empty_upload
check_payload max_bytes (b ∷ payload) =
    if ltb max_bytes (length (b ∷ payload)) then raise upload_too_large else ok (b ∷ payload)

-- The file is given by its bytes; `file.read(n)` gives the first `n`.
unfoldable pub read_bounded_upload : ℤ → List ℕ → Result UploadFault (List ℕ)
read_bounded_upload max_bytes file =
    if leb_ℤ max_bytes (pos 0)
    then raise max_bytes_not_positive
    else check_payload (nat_abs max_bytes) (take (nat_abs max_bytes + 1) file)

-- `b"\x00" in payload[:8192]`
unfoldable pub reject_binary_text_payload : List ℕ → Result UploadFault (Unit {0})
reject_binary_text_payload payload =
    if any (λ b. b == 0) (take 8_192 payload) then raise not_text else ok tt

pub record DetectedImage : Type 0 where
  pub content_type : String
  pub suffix : String

-- `payload.startswith(prefix)`
unfoldable pub starts_with : List ℕ → List ℕ → Bool
starts_with payload [] = true
starts_with [] (p ∷ prefix) = false
starts_with (b ∷ payload) (p ∷ prefix) = let rest = starts_with payload prefix in (b == p) && rest

abbrev pub png_bytes : List ℕ
png_bytes = 0x89 ∷ b'P' ∷ b'N' ∷ b'G' ∷ 13 ∷ 10 ∷ 26 ∷ 10 ∷ []

-- The text of the error names the suffix of the file's name too.
unfoldable pub detect_reference_image : List ℕ → Result UploadFault DetectedImage
detect_reference_image payload =
    if starts_with payload png_bytes
    then ok (record { content_type = "image/png"; suffix = ".png" })
    else if starts_with payload (b'B' ∷ b'M' ∷ [])
    then ok (record { content_type = "image/bmp"; suffix = ".bmp" })
    else raise not_an_image
