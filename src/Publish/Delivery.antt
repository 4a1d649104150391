-- ===== src/Publish/Delivery.antt =====
-- `validate_ready_media_delivery` and `validate_normalized_image` (backend/signage/services.py). The
-- stored files, their digest and the decoding of images are parameters, and so is `sniff_image_mime`,
-- which compares the first bytes of a file.
use digital_signage_project.Base.{
  ℕ, ◌≡◌, String, true, false, not, ◌||◌, ◌==◌, ==_iff, eq_iff, if◌then◌else◌, str_eq, Result, ok,
  ◌>>=◌, ◌>>◌, raise_if, raise_if-cases, >>=-cases, arith, Bool, raise_if-eq-ok,
}
use digital_signage_project.Models.{MediaAsset, MediaStatus, media_status_eq, is_image}
use digital_signage_project.Publish.{invalid}

-- An image after its decoding.
pub record Image : Type 0 where
  pub width : ℕ
  pub height : ℕ
  pub mode : String

-- The storage and the tools, with the two settings of the size.
pub record Storage (File : Type 0) : Type 0 where
  pub read : String → Result File
  pub size : File → ℕ
  pub sha256 : File → String
  pub sniff_image_mime : File → Result String
  pub decode : File → Result Image
  pub image_width : ℕ
  pub image_height : ℕ

module _ {File : Type 0} (files : Storage File) where
  unfoldable pub validate_normalized_image : File → String → Result (Unit {0})
  validate_normalized_image file expected_mime = do
    detected ← files.sniff_image_mime file
    raise_if (not (str_eq detected expected_mime))
        (invalid "Normalized image type changed unexpectedly.")
    image ← files.decode file
    raise_if (not (image.width == files.image_width) || not (image.height == files.image_height))
        (invalid "Normalized image dimensions are invalid.")
    raise_if (not (str_eq image.mode "RGB")) (invalid "Normalized image must use RGB pixels.")

  unfoldable pub validate_ready_media_delivery : MediaAsset → Result (Unit {0})
  validate_ready_media_delivery a = do
    raise_if (not (media_status_eq a.status MediaStatus.ready) || str_eq a.normalized_file "")
        (invalid "Media is not ready for delivery.")
    file ← files.read a.normalized_file
    raise_if (not (files.size file == a.file_size) || not (str_eq (files.sha256 file) a.sha256))
        (invalid "Stored media does not match its validated metadata.")
    if is_image a.kind then validate_normalized_image file a.mime_type else ok tt

  -- The stored file of an image is the one that was validated.
  pub record IsDelivered (a : MediaAsset) : Type 0 where
    pub file : File
    pub image : Image
    pub stored : files.read a.normalized_file ≡ ok file
    pub size : files.size file ≡ a.file_size
    pub sha256 : files.sha256 file ≡ a.sha256
    pub mime : files.sniff_image_mime file ≡ ok a.mime_type
    pub decoded : files.decode file ≡ ok image
    pub width : image.width ≡ files.image_width
    pub height : image.height ≡ files.image_height
    pub colours : image.mode ≡ "RGB"

  not_or : (a b : Bool) → (not a || not b) ≡ false → (a ≡ true) × (b ≡ true)
  not_or a b h = ground arith

  not-not : (a : Bool) → not a ≡ false → a ≡ true
  not-not a h = ground arith

  pub validate_ready_media_delivery-IsDelivered :
      (a : MediaAsset) (u : Unit {0})
      → is_image a.kind ≡ true
      → validate_ready_media_delivery a ≡ ok u
      → IsDelivered a
  unfolding validate_ready_media_delivery validate_normalized_image
  validate_ready_media_delivery-IsDelivered a u i h =
      raise_if-cases
        (not (media_status_eq a.status MediaStatus.ready) || str_eq a.normalized_file "") _ _ h
        (λ h1 k1. >>=-cases (files.read a.normalized_file) _ k1 (λ file h2 k2.
          raise_if-cases
            (not (files.size file == a.file_size) || not (str_eq (files.sha256 file) a.sha256)) _ _
            k2
            (λ h3 k3.
              let (s, t) = not_or _ _ h3 in
              >>=-cases (files.sniff_image_mime file) _ (rw i at k3) (λ mime h4 k4.
                raise_if-cases (not (str_eq mime a.mime_type)) _ _ k4 (λ h5 k5.
                  >>=-cases (files.decode file) _ k5 (λ image h6 k6.
                    raise_if-cases
                      (not (image.width == files.image_width)
                        || not (image.height == files.image_height))
                      _ _ k6
                      (λ h7 k7.
                        let (w, v) = not_or _ _ h7 in
                        let m : mime ≡ a.mime_type = (eq_iff mime a.mime_type).0 (not-not _ h5) in
                        record {
                          file = file;
                          image = image;
                          stored = h2;
                          size = (==_iff (files.size file) a.file_size).0 s;
                          sha256 = (eq_iff (files.sha256 file) a.sha256).0 t;
                          mime = rw m at h4;
                          decoded = h6;
                          width = (==_iff image.width files.image_width).0 w;
                          height = (==_iff image.height files.image_height).0 v;
                          colours = (eq_iff image.mode "RGB").0 (not-not _ (raise_if-eq-ok _ _ k7));
                        })))))))
