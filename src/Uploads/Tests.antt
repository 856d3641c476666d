-- ===== src/Uploads/Tests.antt =====
-- Uploads as in backend/tests/test_matching_and_uploads.py.
use race_frame.Prelude.{codes, ℕ, ◌≡◌, refl, [], none, take, keep}
use race_frame.Matching.Token.{Text, upper}
use race_frame.Limits.Headers.{parse_int}
use race_frame.Archive.Names.{split_path, path_name, rpartition}
use race_frame.Uploads.Read.{
  http_error, declared_error, checked, read_declared, read_upload_limited,
}
use race_frame.Uploads.Image.{
  Probe, image, ImageLimits, ValidatedImage, refuse, extension, allowed_format, lower, path_suffix,
  before_semicolon, strip_behind, strip_before, declared_type_of, check_format, check_probe,
  validate_image_bytes,
}

abbrev ascii : ℕ → Text
ascii c = []

abbrev limits : ImageLimits
limits = record { max_image_dimension = 100; max_image_pixels = 5_000 }

abbrev a_jpeg : Text → Probe
a_jpeg content = image (codes "JPEG") 80 60 1

abbrev accepted : ValidatedImage
accepted = record {
  content_type = codes "image/jpeg";
  width = 80;
  height = 60;
  sha256 = codes "abc";
}

program : Unit {0}
unfolding upper parse_int split_path path_name rpartition declared_error checked read_declared
    read_upload_limited allowed_format lower path_suffix before_semicolon strip_behind strip_before
    declared_type_of check_format check_probe validate_image_bytes take keep
program = tt

one_byte_too_many : read_upload_limited 3 none (codes "abcd") ≡ http_error 413
unfolding program
one_byte_too_many = refl

wrong_extension :
    validate_image_bytes ascii ascii (λ c. c) limits a_jpeg (codes "abc") (codes "a.png") none 10
    ≡ refuse extension
unfolding program
wrong_extension = refl
