-- ===== src/Image/Tests.antt =====
-- An image of two pixels in its files.
use lsfg_nx.Base.{ℕ, ◌≡◌, refl, arith, List, [], ◌∷◌}
use lsfg_nx.Error.{ErrorCode}
use lsfg_nx.Outcome.{done, failed, ◌>>=◌}
use lsfg_nx.Graph.Extent.{bytes_per_pixel}
use lsfg_nx.Image.{Description, describe, label_of, label_text}
use lsfg_nx.Image.Codec.{encode, decode}
use lsfg_nx.Image.Dds.{encode_dds, decode_dds}
use lsfg_nx.Image.RoundTrip.{decode-encode-describe}
use lsfg_nx.Image.DdsRoundTrip.{filled, decode_dds-encode_dds}

abbrev pixels : List ℕ
pixels = 255 ∷ 0 ∷ 7 ∷ 255 ∷ 1 ∷ 2 ∷ 3 ∷ 4 ∷ []

abbrev pair : Description
pair = record {
  extent = record { width = 2; height = 1 };
  format = 0;
  role = 1;
  image = 5;
  frame = 9;
  label = 97 ∷ 98 ∷ [];
}

label_of-pair : label_of (describe pair pixels) ≡ 97 ∷ 98 ∷ []
unfolding describe label_text
label_of-pair = refl

decode_short : decode pixels ≡ failed ErrorCode.cache_integrity_failure
unfolding decode
decode_short = refl

decode-encode-describe_example :
    (encode (describe pair pixels) pixels >>= decode)
    ≡ done (record { header = describe pair pixels; pixels = pixels })
unfolding bytes_per_pixel
decode-encode-describe_example = decode-encode-describe pair pixels (record {
  width = omega arith;
  height = omega arith;
  image = omega arith;
  frame = omega arith;
  format = omega arith;
  role = omega arith;
  covered = refl;
  small = omega arith;
})

decode_dds-encode_dds_example :
    (encode_dds (describe pair pixels) pixels >>= λ bytes. decode_dds bytes pair)
    ≡ done
        (record { header = describe (filled pair (describe pair pixels)) pixels; pixels = pixels })
unfolding bytes_per_pixel describe
decode_dds-encode_dds_example = decode_dds-encode_dds (describe pair pixels) pixels pair (record {
  format = refl;
  width = omega arith;
  height = omega arith;
  wide = λ e. omega (arith, e);
  high = λ e. omega (arith, e);
  counted = refl;
  covered = refl;
})
