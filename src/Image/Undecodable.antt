-- ===== src/Image/Undecodable.antt =====
-- goproxy/ext/image/image.go, HandleImage on what cannot be decoded: how the reads of the decoder and
-- the 16 KB of the RegretableReader decide what is left of the body.
use cffi_proxy.Base.{
  ℕ, ◌-◌, ◌≤◌, ◌<◌, true, ◌≡◌, refl, sym, ap, ◌∙◌, Option, none, some, Text, codes, [], ◌++◌,
  length, arith, length-replicate,
}
use cffi_proxy.Action.{Outcome, ok, panics, message}
use cffi_proxy.Http.{Response}
use cffi_proxy.Http.Headers.{HeaderLib}
use cffi_proxy.Regretable.{Reader, RegretableReader, new_size, regret}
use cffi_proxy.Regretable.Stream.{consumed, pending, new_size-IsValid, pending-regret}
use cffi_proxy.Image.Reads.{bytes_read, run-Moved, run_too_long, new_size-AtEnd}
use cffi_proxy.Image.{run, Codec, handle_image, after_decode, resp_is_image, regretable}

module _ {S I : Type 0} (lib : HeaderLib) (codec : Codec I) (f : I → Outcome I)
    (io : Reader S) where
  abbrev start : S → RegretableReader S
  start s = new_size s 16384

  length-start : (s : S) → length (start s).buf - (start s).w ≡ 16384
  unfolding new_size
  length-start s = length-replicate {A = ℕ} 16384 0

  pending-start : (s : S) → pending io (start s) ≡ io.unread s
  unfolding new_size pending
  pending-start s = refl

  -- What an undecodable image becomes, by the outcome of Regret.
  after_decode_restored :
      (resp : Response) (x : RegretableReader S × Option (I × Text)) (rb : RegretableReader S)
      → x.1 ≡ none
      → regret x.0 ≡ ok rb
      → after_decode lib codec f resp x ≡ ok (record { head = resp; body = regretable rb })
  unfolding after_decode
  after_decode_restored resp (rb₀, none) rb h e = rw (e, after_decode)
  after_decode_restored resp (rb₀, some d) rb h e = cc

  after_decode_panics :
      (resp : Response) (x : RegretableReader S × Option (I × Text))
      → x.1 ≡ none
      → x.0.overflow ≡ true
      → after_decode lib codec f resp x
        ≡ panics (message (codes "regretting after overflow makes no sense"))
  unfolding after_decode regret
  after_decode_panics resp (rb, none) h e = rw e
  after_decode_panics resp (rb, some d) h e = cc

  handle_image_decodes :
      (resp : Response) (s : S)
      → resp_is_image lib resp ≡ true
      → resp.status_code ≡ 200
      → handle_image lib codec f io resp s
        ≡ after_decode lib codec f resp (run io codec.decode (start s))
  unfolding handle_image
  handle_image_decodes resp s image status = ground (arith, image, status)

  consumed-start : (s : S) → consumed (start s) ≡ []
  unfolding new_size
  consumed-start s = refl

  -- On an image response with the status 200 that cannot be decoded: if the decoder's reads return at
  -- most 16 KB, the response stays as it is, and its body then reads as if nothing had been read.
  pub handle_image-restores :
      (resp : Response) (s : S)
      → resp_is_image lib resp ≡ true
      → resp.status_code ≡ 200
      → (run io codec.decode (start s)).1 ≡ none
      → length (bytes_read io codec.decode (start s)) ≤ 16384
      → (rb : RegretableReader S) × (handle_image lib codec f io resp s
          ≡ ok (record { head = resp; body = regretable rb }))
        × (pending io rb ≡ io.unread s)
  handle_image-restores resp s image status fails few =
      let m =
        run-Moved io codec.decode (start s) (new_size-AtEnd s 16384) (new_size-IsValid s 16384)
          (rw (length-start s) few) in
      let (rb, e, p, v) = pending-regret io (run io codec.decode (start s)).0 m.valid m.buffered in
      (
        rb,
        handle_image_decodes resp s image status
            ∙ after_decode_restored resp (run io codec.decode (start s)) rb fails e,
        p
            ∙ ap (λ (t : Text). t ++ pending io (run io codec.decode (start s)).0)
                (m.behind
                  ∙ ap (λ (t : Text). t ++ bytes_read io codec.decode (start s)) (consumed-start s))
            ∙ sym m.ahead
            ∙ pending-start s,
      )

  -- If they return more, the handler panics.
  pub handle_image-panics :
      (resp : Response) (s : S)
      → resp_is_image lib resp ≡ true
      → resp.status_code ≡ 200
      → (run io codec.decode (start s)).1 ≡ none
      → 16384 < length (bytes_read io codec.decode (start s))
      → handle_image lib codec f io resp s
        ≡ panics (message (codes "regretting after overflow makes no sense"))
  handle_image-panics resp s image status fails many =
      handle_image_decodes resp s image status
      ∙ after_decode_panics resp (run io codec.decode (start s)) fails (
          run_too_long io codec.decode (start s) (new_size-AtEnd s 16384)
            (rw (length-start s) many))
