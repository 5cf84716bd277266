-- ===== src/Proxy/ErrorPages/Status.antt =====
-- Which answer an error gives.
use forwarder.Base.{
  ℕ, ◌≡◌, refl, ◌∙◌, Bool, false, none, some, List, [], ◌∷◌, Bytes, codes, ◌==◌, if◌then◌else◌,
  arith, Bool-cases, inl, inr, ◌++◌, length,
}
use forwarder.Http.Message.{Request}
use forwarder.Proxy.ErrorPages.{
  ProxyFailure, Page, handlers, choose_page, error_response, challenge, answer_of,
}
use forwarder.Http.Headers.{values, put, values-put}
use forwarder.Http.Text.{canonical}

module _ (quote : Bytes → Bytes) (hex : Bytes → Bytes) (status_text : ℕ → Bytes)
    (windows : Bool) where
  choose_page-ne-zero :
      (hs : List (Request → ProxyFailure → Page)) (req : Request) (e : ProxyFailure)
      → ((choose_page quote hex status_text windows hs req e).code == 0) ≡ false
  unfolding choose_page
  choose_page-ne-zero [] req e = refl
  choose_page-ne-zero (h ∷ hs) req e = elim (Bool-cases ((h req e).code == 0)) [
    | inl k ↦ rw k (choose_page-ne-zero hs req e)
    | inr k ↦ rw k k
  ]

  values-challenge :
      (name : Bytes) (code : ℕ)
      → values (challenge quote hex status_text windows name code []) (codes "Proxy-Authenticate")
        ≡ (if code == 407 then some ((codes "Basic realm=" ++ quote name) ∷ []) else none)
  unfolding values put canonical
  values-challenge name code = ground arith

  values-answer_of :
      (name : Bytes) (p : Page) (e : ProxyFailure)
      → values
          (answer_of quote hex status_text windows name p e).header
          (codes "Proxy-Authenticate")
        ≡ values
            (challenge quote hex status_text windows name p.code [])
            (codes "Proxy-Authenticate")
  unfolding canonical
  values-answer_of name p e = rw (values-put, values-put)

  -- An error is always answered, with a status that is not zero and a body of the length that is announced; the answer asks for
  -- credentials exactly when its status is 407.
  pub error_response_lem :
      (name : Bytes) (req : Request) (e : ProxyFailure)
      → (((error_response quote hex status_text windows name req e).status == 0) ≡ false)
        × ((error_response quote hex status_text windows name req e).content_length
            ≡ length (error_response quote hex status_text windows name req e).body)
        × (values
              (error_response quote hex status_text windows name req e).header
              (codes "Proxy-Authenticate")
            ≡ (if (error_response quote hex status_text windows name req e).status == 407
                then some ((codes "Basic realm=" ++ quote name) ∷ [])
                else none))
  unfolding error_response
  error_response_lem name req e =
      let p =
        choose_page quote hex status_text windows (handlers quote hex status_text windows) req e in
      (
        choose_page-ne-zero (handlers quote hex status_text windows) req e,
        refl,
        values-answer_of name p e ∙ values-challenge name p.code,
      )
