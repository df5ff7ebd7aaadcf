-- ===== src/Uploads/Tests.antt =====
-- Files of some bytes.
use diploma_munka.Prelude.{ℕ, ◌≡◌, ◌↔◌, refl, List, [], ◌∷◌}
use diploma_munka.Prelude.Int.{pos, ◌<ℤ◌}
use diploma_munka.Prelude.Results.{ok, raise}
use diploma_munka.Uploads.{
  read_bounded_upload, reject_binary_text_payload, detect_reference_image, starts_with,
  upload_too_large, not_text,
}
use diploma_munka.Uploads.Bounds.{IsAllowed, read_bounded_upload_iff}

abbrev file : List ℕ
file = b'B' ∷ b'M' ∷ 0 ∷ []

read_bounded_upload_iff_example :
    (read_bounded_upload (pos 3) file ≡ ok file)
    ↔ ((pos 0 <ℤ pos 3) × (file ≡ file) × IsAllowed (pos 3) file)
read_bounded_upload_iff_example = read_bounded_upload_iff (pos 3) file file

one_byte_too_many : read_bounded_upload (pos 2) file ≡ raise upload_too_large
unfolding read_bounded_upload
one_byte_too_many = refl

binary : reject_binary_text_payload file ≡ raise not_text
unfolding reject_binary_text_payload
binary = refl

bitmap : detect_reference_image file ≡ ok (record { content_type = "image/bmp"; suffix = ".bmp" })
unfolding detect_reference_image starts_with
bitmap = refl
