-- ===== src/Api/Gateway/Sealed.antt =====
-- What the security middleware lets through, and what it leaves behind (app/middleware/runtime.py).
use office_mult_agent.Base.{
  ℕ, String, true, false, Option, some, ◌≡◌, ◌⊎◌, inl, inr, refl, ap, ◌∙◌, string_eq, Error, Result,
  ok, err, Bool-cases, Result-cases,
}
use office_mult_agent.Base.Dict.{Dict, lookup, insert, lookup-insert}
use office_mult_agent.Security.{extract_bearer_token, bind_sso_access_token}
use office_mult_agent.Api.Gateway.{
  Request, Response, TextTools, Handler, is_request_id, is_oversized, choose_request_id, identified,
  secured, after_call, authorized, dispatch, header_or, id_header,
}

module _ (t : TextTools) (max_request_body_bytes : ℕ) (uuid : String) (request : Request) where
  choose_request_id-valid :
      is_request_id uuid ≡ true
      → is_request_id (choose_request_id t max_request_body_bytes uuid request) ≡ true
  unfolding choose_request_id
  choose_request_id-valid valid =
      elim (Bool-cases (is_request_id (header_or "x-request-id" "" request))) [
        | inl own ↦ rw own own
        | inr other ↦ rw other valid
      ]

  secured-id :
      (id : String) (headers : Dict String String)
      → lookup "x-request-id" (secured t max_request_body_bytes id headers) ≡ some id
  unfolding secured
  secured-id id headers =
      let d1 = insert "x-request-id" id headers in
      let d2 = insert "x-content-type-options" "nosniff" d1 in
      let d3 = insert "x-frame-options" "DENY" d2 in
      let d4 = insert "referrer-policy" "no-referrer" d3 in
      lookup-insert "cache-control" "x-request-id" "no-store" d4
      ∙ lookup-insert "referrer-policy" "x-request-id" "no-referrer" d3
      ∙ lookup-insert "x-frame-options" "x-request-id" "DENY" d2
      ∙ lookup-insert "x-content-type-options" "x-request-id" "nosniff" d1
      ∙ lookup-insert "x-request-id" "x-request-id" id headers

single-id : (id : String) → lookup "x-request-id" (id_header id) ≡ some id
unfolding lookup
single-id id = refl

module _ (t : TextTools) (max_request_body_bytes : ℕ) (uuid : String) (request : Request)
    {S : Type 0} (call_next : Handler S) (bound : Option String) (s : S) where
  -- The answer is the refusal of a large body, or names the id of the request; what is raised is what reading
  -- the declared length raises, or the handler with the token of the request.
  abbrev pub IsTraced : Result Response → Type 0
  IsTraced (err e) =
      (is_oversized t max_request_body_bytes (lookup "content-length" request.headers) ≡ err e)
      ⊎ ((token : Option String) × (extract_bearer_token t.lower
              (lookup "authorization" request.headers)
            ≡ ok token)
          × ((call_next (identified t max_request_body_bytes uuid request) (token, s)).0 ≡ err e))
  IsTraced (ok r) =
      (r.status ≡ 413)
      ⊎ (lookup "x-request-id" r.headers
          ≡ some (choose_request_id t max_request_body_bytes uuid request))

  -- The declared length cannot be read or is too large, or the authorization is unusable.
  abbrev pub IsRefused : Type 0
  IsRefused =
      ((e : Error) × (is_oversized t max_request_body_bytes
            (lookup "content-length" request.headers)
          ≡ err e))
      ⊎ (is_oversized t max_request_body_bytes (lookup "content-length" request.headers) ≡ ok true)
      ⊎ ((e : Error) × (extract_bearer_token t.lower (lookup "authorization" request.headers)
            ≡ err e))

  -- What the application is left in: untouched by a request that is refused, or as its handler leaves
  -- it for the request with its id and an accepted token, of a body that is not too large.
  abbrev pub IsSealed : Option String × S → Type 0
  IsSealed (left, after) =
      (left ≡ bound)
      × (((after ≡ s) × IsRefused)
          ⊎ ((token : Option String) × (extract_bearer_token t.lower
                  (lookup "authorization" request.headers)
                ≡ ok token)
              × (is_oversized t max_request_body_bytes (lookup "content-length" request.headers)
                  ≡ ok false)
              × (after
                  ≡ (call_next (identified t max_request_body_bytes uuid request) (token, s)).1.1)))

  after_call-IsTraced :
      (token : Option String)
      → extract_bearer_token t.lower (lookup "authorization" request.headers) ≡ ok token
      → (out : Result Response × (Option String × S))
      → (call_next (identified t max_request_body_bytes uuid request) (token, s)).0 ≡ out.0
      → IsTraced
          (after_call t max_request_body_bytes
            (choose_request_id t max_request_body_bytes uuid request)
            out).0
  after_call-IsTraced token extracted (err e, (left, after)) raised = inr (token, extracted, raised)
  after_call-IsTraced token extracted (ok r, (left, after)) answered = inr (
      secured-id t max_request_body_bytes uuid request
        (choose_request_id t max_request_body_bytes uuid request) r.headers)

  after_call_state :
      (id : String) (out : Result Response × (Option String × S))
      → (after_call t max_request_body_bytes id out).1 ≡ out.1
  after_call_state id (err e, (left, after)) = refl
  after_call_state id (ok r, (left, after)) = refl

  -- Behind the guards
  passed :
      (token : Option String)
      → extract_bearer_token t.lower (lookup "authorization" request.headers) ≡ ok token
      → IsTraced
          (authorized t max_request_body_bytes uuid request call_next (ok token) (bound, s)).0
        × ((authorized t max_request_body_bytes uuid request call_next (ok token) (bound, s)).1 ≡ (
          bound,
          (call_next (identified t max_request_body_bytes uuid request) (token, s)).1.1,
        ))
  unfolding bind_sso_access_token
  passed token extracted =
      let out =
        bind_sso_access_token token (call_next (identified t max_request_body_bytes uuid request))
          (bound, s) in
      (
        after_call-IsTraced token extracted out refl,
        after_call_state (choose_request_id t max_request_body_bytes uuid request) out,
      )

  -- Every request leaves the token bound that was bound before it. Where its declared length cannot be
  -- read or is too large, or its authorization is unusable, the application is untouched; else the
  -- application is as its handler leaves it for the request with its id, with the extracted token
  -- bound. An answer other than 413 names the id of the request; an error that leaves the middleware is
  -- one of reading the declared length, or one of the handler.
  pub dispatch-IsSealed :
      IsTraced (dispatch t max_request_body_bytes uuid request call_next (bound, s)).0
      × IsSealed (dispatch t max_request_body_bytes uuid request call_next (bound, s)).1
  unfolding dispatch bind_sso_access_token
  dispatch-IsSealed =
      elim (Result-cases
        (is_oversized t max_request_body_bytes (lookup "content-length" request.headers))) [
          | inr (e, failed) ↦ rw failed (inl failed, (refl, inl (refl, inl (e, refl))))
          | inl (true, large) ↦ rw large (inl refl, (refl, inl (refl, inr (inl refl))))
          | inl (false, small) ↦
              elim (Result-cases
                (extract_bearer_token t.lower (lookup "authorization" request.headers))) [
                  | inr (e, denied) ↦
                      rw (small, denied)
                        (
                          inr (single-id (choose_request_id t max_request_body_bytes uuid request)),
                          (refl, inl (refl, inr (inr (e, refl)))),
                        )
                  | inl (token, extracted) ↦
                      rw (small, extracted)
                        (
                          (passed token extracted).0,
                          (
                            ap (λ q. q.0) (passed token extracted).1,
                            inr (token, refl, refl, ap (λ q. q.1) (passed token extracted).1),
                          ),
                        )
                ]
        ]
