-- ===== src/Http.antt =====
-- server/internal/httpmw/cors.go and metrics.go, and the routes of server/cmd/adserver/main.go. A
-- handler takes the headers that are set so far, and gives them with the statuses that it writes.
use openadsource.Common.{
  ℕ, true, false, Option, none, some, List, [], ◌∷◌, if◌then◌else◌, Text, text_eq, codes, ◌≡◌, refl,
  Bool-cases, inl, inr, ap, arith, ◌∙◌,
}
use openadsource.Common.Dict.{Dict, lookup, insert, lookup-insert_other, lookup-insert_self}

-- The headers, and the codes of the calls of WriteHeader in their order.
pub record Written : Type 0 where
  pub headers : Dict Text
  pub statuses : List ℕ

-- The headers that CORS sets.
unfoldable pub cors_headers : Text → Dict Text → Dict Text
cors_headers allow h = insert (codes "Access-Control-Max-Age") (codes "3600") (
    insert (codes "Access-Control-Allow-Headers") (codes "Content-Type") (
      insert (codes "Access-Control-Allow-Methods") (codes "GET, OPTIONS")
        (insert (codes "Access-Control-Allow-Origin") allow h)))

-- CORS, around the next handler.
unfoldable pub cors : Text → Text → (Dict Text → Written) → Dict Text → Written
unfolding cors_headers
cors allow_origin method next h =
    let allow = if text_eq allow_origin [] then codes "*" else allow_origin in
    if text_eq method (codes "OPTIONS")
    then record { headers = cors_headers allow h; statuses = 204 ∷ [] }
    else next (cors_headers allow h)

-- statusRecorder: it starts at 200, and each call of WriteHeader replaces it.
unfoldable pub recorded : ℕ → List ℕ → ℕ
recorded status [] = status
recorded status (code ∷ statuses) = recorded code statuses

-- The route of the labels of HTTPMetrics.
unfoldable pub route_label : Option Text → Text
route_label none = codes "_other"
route_label (some route) = if text_eq route [] then codes "_other" else route

-- HTTPMetrics: what the handler wrote, and the labels of the counter of requests.
unfoldable pub http_metrics : Option Text → (Dict Text → Written) → Dict Text → Written × (Text × ℕ)
unfolding recorded route_label
http_metrics route next h = let w = next h in (w, (route_label route, recorded 200 w.statuses))

-- The routes, by method and path.
pub data Route : Type 0 where
  healthz metrics vast track preflight unmatched : Route

unfoldable pub route_of : Text → Text → Route
route_of method path =
    if text_eq method (codes "GET")
    then if text_eq path (codes "/healthz")
      then healthz
      else if text_eq path (codes "/metrics")
      then metrics
      else if text_eq path (codes "/vast")
      then vast
      else if text_eq path (codes "/track")
      then track
      else unmatched
    else if text_eq method (codes "OPTIONS")
    then if text_eq path (codes "/vast")
      then preflight
      else if text_eq path (codes "/track")
      then preflight
      else unmatched
    else unmatched

cors_headers-origin :
    (allow : Text) (h : Dict Text)
    → lookup (codes "Access-Control-Allow-Origin") (cors_headers allow h) ≡ some allow
unfolding cors_headers
cors_headers-origin allow h =
    let origin = codes "Access-Control-Allow-Origin" in
    lookup-insert_other _ origin _ _ (ground arith)
    ∙ lookup-insert_other _ origin _ _ (ground arith)
    ∙ lookup-insert_other _ origin _ _ (ground arith)
    ∙ lookup-insert_self origin allow h

-- Through CORS every answer, the one to a preflight request included, names the origin that is
-- allowed, if the next handler keeps the headers that it is given; and a preflight request is
-- answered with 204 and no call of that handler.
pub cors-origin :
    (allow_origin method : Text) (next : Dict Text → Written) (h : Dict Text)
    → ((k : Dict Text) → (next k).headers ≡ k)
    → text_eq allow_origin [] ≡ false
    → (lookup (codes "Access-Control-Allow-Origin") (cors allow_origin method next h).headers
        ≡ some allow_origin)
      × (text_eq method (codes "OPTIONS") ≡ true
          → (cors allow_origin method next h).statuses ≡ 204 ∷ [])
unfolding cors
cors-origin allow_origin method next h keeps named =
    elim (Bool-cases (text_eq method (codes "OPTIONS"))) [
      | inl e ↦ rw (named, e) (cors_headers-origin allow_origin h, λ p. refl)
      | inr e ↦
          rw (named, e)
            (
              ap (lookup (codes "Access-Control-Allow-Origin")) (keeps _)
                  ∙ cors_headers-origin allow_origin h,
              λ p. ground (arith, p),
            )
    ]
