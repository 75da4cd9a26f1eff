-- ===== src/Html.antt =====
-- goproxy/ext/html/html.go: the response handlers that change a text in any charset; goproxy/ctx.go,
-- Charset. What is logged is not modelled; a response has a body.
pub mod Translation
use cffi_proxy.Base.{
  ℕ, Bool, true, false, not, Option, none, some, List, [], ◌∷◌, ◌++◌, ◌||◌, ◌≡◌, ◌⊎◌, inl, inr,
  Text, codes, text_eq, has_prefix, drop, ◌==◌, if◌then◌else◌,
}
use cffi_proxy.Action.{Action, Outcome, ok, pure, panic, ◌>>=◌, nil_dereference}
use cffi_proxy.Http.{Err, Response}
use cffi_proxy.Http.Headers.{HeaderLib, header_of}
use cffi_proxy.Dispatcher.Conditions.{content_type_is}

-- IsHtml, IsCss, IsJavaScript, IsJson, IsXml and IsWebRelatedText, as tests of a response.
module _ (lib : HeaderLib) (resp : Option Response) where
  unfoldable pub is_html : Bool
  is_html = content_type_is lib (codes "text/html") [] resp

  unfoldable pub is_css : Bool
  is_css = content_type_is lib (codes "text/css") [] resp

  unfoldable pub is_java_script : Bool
  is_java_script =
      content_type_is lib (codes "text/javascript") (codes "application/javascript" ∷ []) resp

  unfoldable pub is_json : Bool
  is_json = content_type_is lib (codes "text/json") [] resp

  unfoldable pub is_xml : Bool
  is_xml = content_type_is lib (codes "text/xml") [] resp

  unfoldable pub is_web_related_text : Bool
  is_web_related_text =
      content_type_is lib (codes "text/html")
        (codes "text/css"
          ∷ codes "text/javascript"
          ∷ codes "application/javascript"
          ∷ codes "text/xml"
          ∷ codes "text/json"
          ∷ [])
        resp

-- Read of an io.Reader, into a slice of a given length, on the state `S` of all readers.
abbrev pub Reads : Type 0 → Type 0
Reads S = ℕ → S → S × Text × Option Err

abbrev pub Closes : Type 0 → Type 0
Closes S = S → S × Option Err

-- An io.ReadCloser, by its methods.
pub record ReadCloser (S : Type 0) : Type 0 where
  pub read : Reads S
  pub close : Closes S

-- io.NopCloser
abbrev pub nop_closer : {S : Type 0} → Reads S → ReadCloser S
nop_closer read = record { read = read; close = λ s. (s, none) }

-- The error of Close, from the errors of the two.
unfoldable pub join_errors : Option Err → Option Err → Option Err
join_errors none err = err
join_errors (some a) none = some a
join_errors (some a) (some b) = some (a ++ (codes ", " ++ b))

-- readFirstCloseBoth
unfoldable pub read_first_close_both : {S : Type 0} → ReadCloser S → Closes S → ReadCloser S
unfolding join_errors
read_first_close_both r c = record {
  read = r.read;
  close = λ s. let (s₁, err₁) = r.close s in let (s₂, err₂) = c s₁ in (s₂, join_errors err₁ err₂);
}

-- The packages io, bytes, strings and go-charset, as the code calls them. A translator is its
-- identity, and `translation` is what it makes of a text.
pub record Charsets (S : Type 0) : Type 0 where
  pub to_lower : Text → Text
  -- io.ReadAll
  pub read_all : Reads S → S → S × Text × Option Err
  -- bytes.NewBufferString
  pub new_buffer : Text → S → S × Reads S
  -- charset.NewReader
  pub new_reader : Text → Reads S → Reads S ⊎ Err
  -- charset.TranslatorTo
  pub translator_to : Text → ℕ ⊎ Err
  pub translation : ℕ → Text → Text
  -- charset.NewTranslatingReader
  pub new_translating_reader : Reads S → ℕ → Reads S
  pub read_all-new_buffer :
      (t : Text) (s : S) → (read_all (new_buffer t s).1 (new_buffer t s).0).1 ≡ t
  pub read_all-new_translating_reader :
      (r : Reads S) (tr : ℕ) (s : S)
      → (read_all (new_translating_reader r tr) s).1 ≡ translation tr (read_all r s).1

-- `[^ ;]*` at the start of a text.
unfoldable pub charset_name : Text → Text
charset_name [] = []
charset_name (c ∷ s) = if c == b' ' || c == b';' then [] else c ∷ charset_name s

-- The group of the first match of `charset=([^ ;]*)`.
unfoldable pub find_charset : Text → Option Text
unfolding charset_name
find_charset [] = none
find_charset (c ∷ s) =
    if has_prefix (c ∷ s) (codes "charset=")
    then some (charset_name (drop 8 (c ∷ s)))
    else find_charset s

-- ProxyCtx.Charset, for the response in the context.
unfoldable pub charset : HeaderLib → Response → Text
unfolding find_charset
charset lib resp = elim (find_charset (lib.get (header_of resp.header) (codes "Content-Type"))) [
  | none ↦ []
  | some name ↦ name
]

-- The charset that HandleStringReader works with.
unfoldable pub charset_or_default : HeaderLib → Response → Text
unfolding charset
charset_or_default lib resp =
    if text_eq (charset lib resp) [] then codes "utf-8" else charset lib resp

-- A response, with the body `body` in place of its own.
pub record TextResponse (S : Type 0) : Type 0 where
  pub head : Response
  pub body : ReadCloser S

-- resp.Body = &readFirstCloseBoth{io.NopCloser(r), resp.Body}
unfoldable pub with_reader : {S : Type 0} → TextResponse S → Reads S → TextResponse S
unfolding read_first_close_both
with_reader resp r = record resp { body = read_first_close_both (nop_closer r) resp.body.close }

module _ {S : Type 0} (io : Charsets S) where
  -- The branch for a charset other than utf-8.
  unfoldable pub translate :
      (Reads S → Action S (Reads S)) → Text → TextResponse S → Action S (Option (TextResponse S))
  unfolding with_reader
  translate f name resp = elim (io.new_reader name resp.body.read) [
    | inr e ↦ pure (some resp)
    | inl r ↦ elim (io.translator_to name) [
      | inr e ↦ pure (some resp)
      | inl tr ↦ do out ← f r; pure (some (with_reader resp (io.new_translating_reader out tr)))
    ]
  ]

  -- From the result of io.ReadAll on.
  filter_read : (Text → Action S Text) → Reads S → S × Text × Option Err → Outcome (Reads S) × S
  filter_read f r (s, text, some e) = (ok r, s)
  filter_read f r (s, text, none) =
      (do out ← f text; λ s'. let (s'', buffer) = io.new_buffer out s' in (ok buffer, s'')) s

  -- The function that HandleString gives to HandleStringReader.
  unfoldable pub filter_string : (Text → Action S Text) → Reads S → Action S (Reads S)
  unfolding filter_read
  filter_string f r s = filter_read f r (io.read_all r s)

module _ {S : Type 0} (lib : HeaderLib) (io : Charsets S) where
  -- HandleStringReader's handler on a response; the error is the context's, and the response in the
  -- context is the one that the handler gets.
  unfoldable pub handle_string_reader :
      (Reads S → Action S (Reads S))
      → Option Err
      → Option (TextResponse S)
      → Action S (Option (TextResponse S))
  unfolding charset_or_default translate
  handle_string_reader f (some e) resp = pure none
  handle_string_reader f none none = panic nil_dereference
  handle_string_reader f none (some resp) =
      if not (text_eq (io.to_lower (charset_or_default lib resp.head)) (codes "utf-8"))
      then translate io f (charset_or_default lib resp.head) resp
      else (do out ← f resp.body.read; pure (some (with_reader resp out)))

  -- HandleString
  unfoldable pub handle_string :
      (Text → Action S Text)
      → Option Err
      → Option (TextResponse S)
      → Action S (Option (TextResponse S))
  unfolding filter_string handle_string_reader
  handle_string f = handle_string_reader (filter_string io f)
