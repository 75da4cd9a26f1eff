-- ===== src/Image.antt =====
-- goproxy/ext/image/image.go: the response handler that decodes an image, changes it and encodes it
-- again. What is logged is not modelled.
pub mod Reads
pub mod Undecodable
use cffi_proxy.Base.{
  ℕ, Bool, true, false, not, Option, none, some, List, [], ◌∷◌, ◌++◌, ◌||◌, Text, codes, text_eq,
  ◌==◌, if◌then◌else◌,
}
use cffi_proxy.Action.{Outcome, ok, panics, message}
use cffi_proxy.Http.{Err, Response}
use cffi_proxy.Http.Headers.{Header, HeaderLib, header_of}
use cffi_proxy.Dispatcher.Conditions.{content_type_is}
use cffi_proxy.Regretable.{Reader, RegretableReader, new_size, regret, read}

-- A computation that reads from an io.Reader: it asks for so many bytes, and goes on with the bytes
-- and the error that it is given.
pub data Reading (A : Type 0) : Type 0 where
  done : A → Reading A
  ask : ℕ → (Text → Option Err → Reading A) → Reading A

-- It reads from a RegretableReader.
unfoldable pub run :
    {S A : Type 0} → Reader S → Reading A → RegretableReader S → RegretableReader S × A
run io (done a) rb = (rb, a)
run io (ask len next) rb = let (rb', got, err) = read io len rb in run io (next got err) rb'

-- The packages image, image/png and image/jpeg; an error in decoding or encoding is `none`. What is
-- decoded comes with the name of its format.
pub record Codec (I : Type 0) : Type 0 where
  pub decode : Reading (Option (I × Text))
  pub png : I → Option Text
  pub jpeg : I → Option Text

-- resp.Body: as it came, or in a RegretableReaderCloser, or a buffer.
pub data ImageBody (S : Type 0) : Type 0 where
  original : S → ImageBody S
  regretable : RegretableReader S → ImageBody S
  buffer : Text → ImageBody S

-- A response, with the body `body` in place of its own.
pub record ImageResponse (S : Type 0) : Type 0 where
  pub head : Response
  pub body : ImageBody S

abbrev pub image_types : List Text
image_types =
    codes "image/jpeg"
    ∷ codes "image/pjpeg"
    ∷ codes "application/octet-stream"
    ∷ codes "image/png"
    ∷ []

-- RespIsImage
unfoldable pub resp_is_image : HeaderLib → Response → Bool
resp_is_image lib resp = content_type_is lib (codes "image/gif") image_types (some resp)

-- An encoder's result, and whether the content type becomes image/png.
abbrev pub encoded : Bool → Option Text → Outcome (Option (Text × Bool))
encoded to_png none = ok none
encoded to_png (some bytes) = ok (some (bytes, to_png))

module _ {I : Type 0} (codec : Codec I) where
  -- The switch over the content type: what is in the buffer, `none` if an encoder fails.
  unfoldable pub encode : Text → Text → I → Outcome (Option (Text × Bool))
  encode content_type img_type result =
      if text_eq content_type (codes "image/gif") || text_eq content_type (codes "image/png")
      then encoded true (codec.png result)
      else if text_eq content_type (codes "image/jpeg")
          || text_eq content_type (codes "image/pjpeg")
      then encoded false (codec.jpeg result)
      else if text_eq content_type (codes "application/octet-stream")
      then (if text_eq img_type (codes "jpeg")
          then encoded false (codec.jpeg result)
          else if text_eq img_type (codes "png") || text_eq img_type (codes "gif")
          then encoded false (codec.png result)
          else ok (some ([], false)))
      else panics (message (codes "unhandlable type" ++ content_type))

module _ {S : Type 0} (lib : HeaderLib) where
  -- The response with the buffer as its body.
  unfoldable pub replaced : Response → RegretableReader S → Option (Text × Bool) → ImageResponse S
  replaced resp rb none = record { head = resp; body = regretable rb }
  replaced resp rb (some (bytes, to_png)) = record {
    head =
        if to_png
        then record resp {
          header =
              some (lib.set (header_of resp.header) (codes "Content-Type") (codes "image/png"));
        }
        else resp;
    body = buffer bytes;
  }

module _ {S I : Type 0} (lib : HeaderLib) (codec : Codec I) (f : I → Outcome I) where
  -- From the result of image.Decode on.
  unfoldable pub after_decode :
      Response → RegretableReader S × Option (I × Text) → Outcome (ImageResponse S)
  unfolding encode replaced
  after_decode resp (rb, none) = elim (regret rb) [
    | panics p ↦ panics p
    | ok rb' ↦ ok (record { head = resp; body = regretable rb' })
  ]
  after_decode resp (rb, some (img, img_type)) = elim (f img) [
    | panics p ↦ panics p
    | ok result ↦
        elim (encode codec (lib.get (header_of resp.header) (codes "Content-Type")) img_type
          result) [ panics p ↦ panics p | ok out ↦ ok (replaced lib resp rb out) ]
  ]

  -- HandleImage's handler on a response whose body is the reader `s`.
  unfoldable pub handle_image : Reader S → Response → S → Outcome (ImageResponse S)
  unfolding resp_is_image after_decode
  handle_image io resp s =
      if not (resp_is_image lib resp)
      then ok (record { head = resp; body = original s })
      else if not (resp.status_code == 200)
      then ok (record { head = resp; body = original s })
      else after_decode resp (run io codec.decode (new_size s 16384))
