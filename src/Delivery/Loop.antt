-- ===== src/Delivery/Loop.antt =====
-- Lemmas on delivery/handler.go: the selection loop of ServeVAST.
use openadsource.Common.{
  suc, ◌∷◌, some, none, true, false, ◌⊎◌, ◌≡◌, ◌≢◌, ℕ, List, ◌<◌, ◌+◌, Text, Option, get_elem?,
}
use openadsource.Capping.Budget.{reserved, exhausted, failed}
use openadsource.Delivery.{Handler, Chance, with_exclude, reserve, Answer, check_freq}
use openadsource.Common.Float.{Float64}
use openadsource.Redis.{Redis}
use openadsource.Registry.Snapshot.{Snapshot, wildcard_key, Ad}
use openadsource.Selection.{Request}
use openadsource.Registry.Loader.Built.{IsIndexed}
use openadsource.Selection.Eligible.{IsBest, AllInt32}
use openadsource.Common.Int.{ℤ}

module _ (fl : Float64) (redis : Redis) (h : Handler) (snap : Snapshot (fl.F)) (req : Request)
    (uid : Text) (chances : ℕ → Chance (fl.F)) where
  open fl use {F}
  open redis use {Db}

  -- The caps refuse an ad at attempt i, from one store to another: its frequency cap, or its
  -- campaign's budget after the frequency cap passed.
  pub data Refused (i : ℕ) (ad : Ad F) (db db' : Db) : Type 0 where
    capped : check_freq fl redis h (chances i) uid ad db ≡ (false, db') → Refused i ad db db'
    spent :
        (db1 : Db)
        → check_freq fl redis h (chances i) uid ad db ≡ (true, db1)
        → reserve fl redis h (chances i) ad db1 ≡ (exhausted, db')
        → Refused i ad db db'

  -- The attempts from number i on, each for a best ad that the caps refuse and that is then excluded,
  -- up to attempt j, what is excluded then, and the store.
  pub data Tried : ℕ → List ℕ → Db → ℕ → List ℕ → Db → Type 0 where
    none_yet : (i : ℕ) (ex : List ℕ) (db : Db) → Tried i ex db i ex db
    next :
        (i j c : ℕ) (ex ex' : List ℕ) (ad : Ad F) (db db1 db' : Db)
        → IsBest snap (with_exclude req ex) (some c)
        → get_elem? snap.ads c ≡ some ad
        → Refused i ad db db1
        → Tried (suc i) (c ∷ ex) db1 j ex' db'
        → Tried i ex db j ex' db'

  -- Why the attempts end at number j with `ex` excluded, before attempt `stop`.
  pub Ends : ℕ → ℕ → List ℕ → Db → Option ℕ × Db → Type 0
  -- With an ad: it is a best one, the frequency cap passes it, and its impression is reserved.
  Ends stop j ex db (some c, db') =
      (ad : Ad F) × (db1 : Db) × (n : ℤ) × IsBest snap (with_exclude req ex) (some c)
      × (get_elem? snap.ads c ≡ some ad)
      × (j < stop)
      × (check_freq fl redis h (chances j) uid ad db ≡ (true, db1))
      × (reserve fl redis h (chances j) ad db1 ≡ (reserved n, db'))
  -- Without one: no ad is left, or no attempt is, or a best one passes the frequency cap and its
  -- reservation fails.
  Ends stop j ex db (none, db') =
      ((db ≡ db') × IsBest snap (with_exclude req ex) none)
      ⊎ (((db ≡ db') × (j ≡ stop))
          ⊎ ((c : ℕ) × (ad : Ad F) × (db1 : Db) × IsBest snap (with_exclude req ex) (some c)
              × (get_elem? snap.ads c ≡ some ad)
              × (check_freq fl redis h (chances j) uid ad db ≡ (true, db1))
              × (reserve fl redis h (chances j) ad db1 ≡ (failed, db'))))

  -- The ad of an answer.
  pub Ends-some :
      (stop j : ℕ) (ex : List ℕ) (db : Db) (c : ℕ) (db' : Db)
      → Ends stop j ex db (some c, db')
      → (ad : Ad F) × (get_elem? snap.ads c ≡ some ad)
  unfolding Ends
  Ends-some stop j ex db c db' (ad, db1, n, best, e, lt, pass, q) = (ad, e)

  -- Why an answer is right: what was tried before, and how it ended.
  abbrev pub IsAnswer : ℕ → ℕ → List ℕ → Db → Option ℕ × Db → Type 0
  IsAnswer left i ex db a =
      (j : ℕ) × (ex' : List ℕ) × (db' : Db) × Tried i ex db j ex' db' × Ends (i + left) j ex' db' a

  module _ (ok : IsIndexed snap) (country : req.country ≢ wildcard_key)
      (device : req.device ≢ wildcard_key) (ints : AllInt32 snap.ads) where
    -- The rest of the loop, from attempt i on, answers rightly.
    abbrev Retries : ℕ → ℕ → (List ℕ → Db → Answer fl redis) → Type 0
    Retries left i retry =
        (ex : List ℕ) (db : Db)
        → (a : Option ℕ × Db) × (retry ex db ≡ some a) × IsAnswer left i ex db a
