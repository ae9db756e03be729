-- ===== src/Delivery/Serve/Rendered.antt =====
-- Lemmas on delivery/handler.go, signedTrackingURL: the text of its parameters.
use mathlib.Core.Path.{subst}
use openadsource.Common.{
  ℕ, true, false, some, List, [], ◌∷◌, ◌++◌, Text, text_eq, ◌≡◌, refl, arith, ap, ◌∙◌, ◌==◌, sym,
  codes,
}
use mathlib.Core.List.{append_assoc}
use openadsource.Common.Ascii.{split_on, cut_at}
use openadsource.Common.Dict.{Dict}
use openadsource.Common.Separator.{Lacks}
use openadsource.Delivery.Serve.{render}
use openadsource.Tracking.Query.{has_byte, setting, settings, parse_query, url_query}
use openadsource.Tracking.Query.Plain.{
  IsPlainText, IsPlainText-Lacks, Lacks-append, query_unescape-plain, cut_at-append, cut_at-Lacks,
  has_byte-Lacks, split_on-Lacks, split_on-append, special,
}

-- Names that are not empty, and names and values without a byte that a query gives a meaning.
abbrev pub AllPlainText : Dict Text → Type 0
AllPlainText [] = Unit
AllPlainText ((name, v) ∷ q) =
    (text_eq name [] ≡ false) × IsPlainText name × IsPlainText v × AllPlainText q

-- A byte that a query gives a meaning stands in no setting but for the '='.
setting-Lacks :
    (b : ℕ) (name v : Text)
    → special b ≡ true
    → (b == 61) ≡ false
    → IsPlainText name
    → IsPlainText v
    → Lacks b (name ++ 61 ∷ v)
setting-Lacks b name v t f hn hv =
    Lacks-append b name (61 ∷ v) (IsPlainText-Lacks b name t hn)
      ((λ p. ground (arith, f, p)), IsPlainText-Lacks b v t hv)

setting-plain :
    (name v : Text)
    → text_eq name [] ≡ false
    → IsPlainText name
    → IsPlainText v
    → setting (name ++ 61 ∷ v) ≡ some (name, v)
unfolding setting text_eq
setting-plain [] v e hn hv = ground (arith, e)
setting-plain (c ∷ name) v e hn hv =
    rw
      (
        has_byte-Lacks 59 (c ∷ name ++ 61 ∷ v) (setting-Lacks 59 (c ∷ name) v refl refl hn hv),
        cut_at-append 61 (c ∷ name) v (IsPlainText-Lacks 61 (c ∷ name) refl hn),
        query_unescape-plain (c ∷ name) hn,
        query_unescape-plain v hv,
      )
      refl

settings-cons :
    (name v : Text) (parts : List Text)
    → text_eq name [] ≡ false
    → IsPlainText name
    → IsPlainText v
    → settings ((name ++ 61 ∷ v) ∷ parts) ≡ (name, v) ∷ settings parts
unfolding settings
settings-cons name v parts e hn hv = rw (settings, setting-plain name v e hn hv) refl

render-cons :
    (name v : Text) (p : Text × Text) (q : Dict Text)
    → render ((name, v) ∷ p ∷ q) ≡ (name ++ 61 ∷ v) ++ 38 ∷ render (p ∷ q)
unfolding render
render-cons name v p q = sym (append_assoc name (61 ∷ v) (38 ∷ render (p ∷ q)))

no_settings : settings (split_on 38 (render [])) ≡ []
unfolding settings split_on render setting has_byte text_eq
no_settings = refl

no_more : settings [] ≡ []
unfolding settings
no_more = refl

last_render : (name v : Text) → render ((name, v) ∷ []) ≡ name ++ 61 ∷ v
unfolding render
last_render name v = refl

-- The parameters are read back from their text.
pub parse_query-render : (q : Dict Text) → AllPlainText q → parse_query (render q) ≡ q
unfolding parse_query
parse_query-render [] h = no_settings
parse_query-render ((name, v) ∷ []) (e, hn, hv, h) =
    ap (λ (s : Text). settings (split_on 38 s)) (last_render name v)
    ∙ ap settings (split_on-Lacks 38 (name ++ 61 ∷ v) (setting-Lacks 38 name v refl refl hn hv))
    ∙ settings-cons name v [] e hn hv
    ∙ ap (λ (l : Dict Text). (name, v) ∷ l) no_more
parse_query-render ((name, v) ∷ p ∷ q) (e, hn, hv, h) =
    ap (λ (s : Text). settings (split_on 38 s)) (render-cons name v p q)
    ∙ ap settings (
        split_on-append 38 (name ++ 61 ∷ v) (render (p ∷ q))
          (setting-Lacks 38 name v refl refl hn hv))
    ∙ settings-cons name v (split_on 38 (render (p ∷ q))) e hn hv
    ∙ ap (λ (l : Dict Text). (name, v) ∷ l) (parse_query-render (p ∷ q) h)

render-Lacks :
    (b : ℕ) (q : Dict Text)
    → special b ≡ true
    → (b == 61) ≡ false
    → (b == 38) ≡ false
    → AllPlainText q
    → Lacks b (render q)
unfolding render
render-Lacks b [] t f g h = tt
render-Lacks b ((name, v) ∷ []) t f g (e, hn, hv, h) = setting-Lacks b name v t f hn hv
render-Lacks b ((name, v) ∷ p ∷ q) t f g (e, hn, hv, h) =
    subst (Lacks b) (sym (render-cons name v p q)) (
      Lacks-append b (name ++ 61 ∷ v) (38 ∷ render (p ∷ q)) (setting-Lacks b name v t f hn hv)
        ((λ r. ground (arith, g, r)), render-Lacks b (p ∷ q) t f g h))

-- The parameters are read back from a URL whose base has neither a query nor a fragment.
pub url_query-render :
    (base : Text) (q : Dict Text)
    → Lacks 35 base
    → Lacks 63 base
    → AllPlainText q
    → url_query (base ++ (codes "/track?" ++ render q)) ≡ q
unfolding url_query
url_query-render base q b b' h =
    let path = base ++ codes "/track" in
    let track : Lacks 35 (codes "/track") = ground arith in
    let track' : Lacks 63 (codes "/track") = ground arith in
    let whole : base ++ (codes "/track?" ++ render q) ≡ path ++ 63 ∷ render q =
      sym (append_assoc base (codes "/track") (63 ∷ render q)) in
    let plain : Lacks 35 (path ++ 63 ∷ render q) =
      Lacks-append 35 path (63 ∷ render q) (Lacks-append 35 base (codes "/track") b track)
        ((λ r. ground (arith, r)), render-Lacks 35 q refl refl refl h) in
    ap url_query whole
    ∙ ap (λ (c : Text × Text). parse_query (cut_at 63 c.0).1)
        (cut_at-Lacks 35 (path ++ 63 ∷ render q) plain)
    ∙ ap (λ (c : Text × Text). parse_query c.1)
        (cut_at-append 63 path (render q) (Lacks-append 63 base (codes "/track") b' track'))
    ∙ parse_query-render q h
