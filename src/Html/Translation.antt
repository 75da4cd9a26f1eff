-- ===== src/Html/Translation.antt =====
-- goproxy/ext/html/html.go, HandleString: what is read from the new body, and what closing it does.
use cffi_proxy.Base.{
  ℕ, true, false, ◌≡◌, refl, ap, ◌∙◌, Option, none, some, inl, Text, codes, text_eq, arith, ◌||◌,
}
use cffi_proxy.Action.{Action, ok}
use cffi_proxy.Http.{Response}
use cffi_proxy.Http.Headers.{HeaderLib}
use cffi_proxy.Dispatcher.Conditions.{content_type_is}
use cffi_proxy.Html.{
  Reads, Charsets, TextResponse, join_errors, read_first_close_both, charset_or_default,
  with_reader, translate, filter_string, handle_string_reader, handle_string, is_html, is_css,
  is_java_script, is_json, is_xml, is_web_related_text,
}

module _ {S : Type 0} (io : Charsets S) (resp : TextResponse S) where
  -- A response whose body reads as `t` in the state after the handler, and is closed as the body of
  -- `resp` is; the rest is as in `resp`.
  pub record Filtered (resp' : TextResponse S) (s' : S) (t : Text) : Type 0 where
    pub head : resp'.head ≡ resp.head
    pub reads_as : (io.read_all resp'.body.read s').1 ≡ t
    pub closes : (u : S) → resp'.body.close u ≡ resp.body.close u

module _ {S : Type 0} (lib : HeaderLib) (io : Charsets S) (f : Text → Action S Text)
    (resp : TextResponse S) (s s₁ s₂ : S) (text out : Text) where
  -- After a text has been read and filtered without an error, a buffer holds the result.
  filter_string-reads :
      (r : Reads S)
      → io.read_all r s ≡ (s₁, text, none)
      → f text s₁ ≡ (ok out, s₂)
      → filter_string io f r s ≡ (ok (io.new_buffer out s₂).1, (io.new_buffer out s₂).0)
  unfolding filter_string
  filter_string-reads r reads filters = rw reads (rw filters refl)

  -- If the context has no error, the response's charset is utf-8 or not given, its body is read
  -- without an error and the function ends, then HandleString gives the response with a body that reads
  -- as the function's result and that closes the old body when it is closed.
  pub handle_string-filters :
      text_eq (io.to_lower (charset_or_default lib resp.head)) (codes "utf-8") ≡ true
      → io.read_all resp.body.read s ≡ (s₁, text, none)
      → f text s₁ ≡ (ok out, s₂)
      → (resp' : TextResponse S) × (s' : S) × (handle_string lib io f none (some resp) s
          ≡ (ok (some resp'), s'))
        × Filtered io resp resp' s' out
  unfolding handle_string handle_string_reader with_reader read_first_close_both join_errors
  handle_string-filters utf8 reads filters = (
    with_reader resp (io.new_buffer out s₂).1,
    (io.new_buffer out s₂).0,
    rw (utf8, filter_string-reads resp.body.read reads filters) refl,
    record { head = refl; reads_as = io.read_all-new_buffer out s₂; closes = λ u. refl },
  )

  translate_steps :
      (r : Reads S) (k : ℕ) (name : Text)
      → io.new_reader name resp.body.read ≡ inl r
      → io.translator_to name ≡ inl k
      → io.read_all r s ≡ (s₁, text, none)
      → f text s₁ ≡ (ok out, s₂)
      → translate io (filter_string io f) name resp s ≡ (
        ok (some (with_reader resp (io.new_translating_reader (io.new_buffer out s₂).1 k))),
        (io.new_buffer out s₂).0,
      )
  unfolding translate with_reader
  translate_steps r k name reader translator reads filters =
      rw (reader, translate) (rw (translator) (rw (filter_string-reads r reads filters) refl))

  -- If the context has no error, the response's charset is one other than utf-8 that has a reader and a
  -- translator, this reader reads the body without an error and the function ends, then HandleString
  -- gives the response with a body that reads as the translation of what the function makes of the
  -- text that was read, and that closes the old body when it is closed.
  pub handle_string-translates :
      text_eq (io.to_lower (charset_or_default lib resp.head)) (codes "utf-8") ≡ false
      → (r : Reads S) (k : ℕ)
      → io.new_reader (charset_or_default lib resp.head) resp.body.read ≡ inl r
      → io.translator_to (charset_or_default lib resp.head) ≡ inl k
      → io.read_all r s ≡ (s₁, text, none)
      → f text s₁ ≡ (ok out, s₂)
      → (resp' : TextResponse S) × (s' : S) × (handle_string lib io f none (some resp) s
          ≡ (ok (some resp'), s'))
        × Filtered io resp resp' s' (io.translation k out)
  unfolding handle_string handle_string_reader with_reader read_first_close_both join_errors
  handle_string-translates other r k reader translator reads filters = (
    with_reader resp (io.new_translating_reader (io.new_buffer out s₂).1 k),
    (io.new_buffer out s₂).0,
    rw other (translate_steps r k _ reader translator reads filters),
    record {
      head = refl;
      reads_as =
          io.read_all-new_translating_reader (io.new_buffer out s₂).1 k (io.new_buffer out s₂).0
          ∙ ap (io.translation k) (io.read_all-new_buffer out s₂);
      closes = λ u. refl;
    },
  )

-- A response is web-related text exactly if it is one of the five kinds.
is_web_related_text_kinds :
    (lib : HeaderLib) (resp : Option Response)
    → is_web_related_text lib resp ≡ (
        is_html lib resp
        || is_css lib resp
        || is_java_script lib resp
        || is_json lib resp
        || is_xml lib resp)
unfolding is_web_related_text is_html is_css is_java_script is_json is_xml content_type_is
is_web_related_text_kinds lib none = refl
is_web_related_text_kinds lib (some resp) = ground arith
