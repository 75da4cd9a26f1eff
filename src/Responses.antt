-- ===== src/Responses.antt =====
-- goproxy/responses.go. The transfer coding and the content length of a response are not modelled.
use cffi_proxy.Base.{ℕ, some, [], Text, codes}
use cffi_proxy.Action.{Action, ◌>>=◌}
use cffi_proxy.Http.{ReqRef, RespRef}
use cffi_proxy.Http.Headers.{HeaderLib}
use cffi_proxy.Http.World.{World, new_body, alloc_response}

module _ {E : Type 0} (lib : HeaderLib) (status_text : ℕ → Text) where
  -- NewResponse; `status_text` is http.StatusText.
  unfoldable pub new_response : ReqRef → Text → ℕ → Text → Action (World E) RespRef
  new_response r content_type status body = do
    b ← new_body body
    alloc_response (record {
      status = status_text status;
      status_code = status;
      header = some (lib.add [] (codes "Content-Type") content_type);
      body = some b;
      request = some r;
    })

  -- TextResponse
  unfoldable pub text_response : ReqRef → Text → Action (World E) RespRef
  unfolding new_response
  text_response r text = new_response r (codes "text/plain") 202 text
