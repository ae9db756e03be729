-- ===== src/Delivery.antt =====
-- server/internal/delivery/handler.go: the /vast endpoint. What a request's user gets is the index
-- of the ad to serve, or nothing, which is the empty document.
pub mod Excluded
pub mod Loop
pub mod Live
pub mod Serve
pub mod Handle
use openadsource.Common.{
  ℕ, zero, suc, Bool, true, false, not, text_eq, Option, none, some, List, [], ◌∷◌, ◌>>=◌, ◌==◌,
  ◌||◌, if◌then◌else◌, Text, get_elem?,
}
use openadsource.Common.Int.{ℤ, pos, leb_ℤ}
use openadsource.Common.Float.{Float64}
use openadsource.Redis.{Redis, Transport}
use openadsource.Registry.Snapshot.{Ad, Snapshot}
use openadsource.Selection.{Request, select, select_by_id}
use openadsource.Capping.Budget.{Reserve, reserved, exhausted, failed, try_reserve}
use openadsource.Capping.Frequency.{Consume, consumed, exceeded, failed, try_consume}

abbrev pub max_budget_retries : ℕ
max_budget_retries = 5

-- What is outside the program in one attempt: the random number, and what becomes of its calls.
pub record Chance (F : Type 0) : Type 0 where
  pub roll : F
  pub freq_first : Transport
  pub freq_second : Transport
  pub budget_first : Transport
  pub budget_second : Transport

-- The enforcers that the handler has; uuid.UUID.String is a parameter.
pub record Handler : Type 0 where
  pub has_budget : Bool
  pub has_freq : Bool
  pub uuid_string : Text → Text

-- The scan of the snapshot for a pointer: the index itself, if there is such an ad.
pub index_from {ℓ} : {A : Type ℓ} → ℕ → List A → ℕ → Option ℕ
index_from i [] cand = none
index_from i (ad ∷ ads) cand =
    let later = index_from (suc i) ads cand in if i == cand then some i else later

unfoldable pub index_of {ℓ} : {A : Type ℓ} → List A → ℕ → Option ℕ
unfolding index_from
index_of ads cand = index_from 0 ads cand

unfoldable pub add_excluded {ℓ} : {A : Type ℓ} → List ℕ → List A → ℕ → List ℕ
add_excluded excluded ads cand = elim (index_of ads cand) [
  | none ↦ excluded
  | some i ↦ i ∷ excluded
]

abbrev pub with_exclude : Request → List ℕ → Request
with_exclude req excluded = record {
  position = req.position;
  offset = req.offset;
  country = req.country;
  device = req.device;
  exclude = excluded;
}

module _ (fl : Float64) (redis : Redis) where
  open fl use {F}
  open redis use {Db}

  abbrev allowed : Consume → Bool
  allowed consumed = true
  allowed exceeded = false
  allowed failed = true

  -- checkFreq.
  unfoldable pub check_freq : Handler → Chance F → Text → Ad F → Db → Bool × Db
  check_freq h chance uid ad db =
      if not h.has_freq || leb_ℤ ad.cap_max_impressions (pos 0)
      then (true, db)
      else let (r, db') =
          try_consume redis true chance.freq_first chance.freq_second uid (h.uuid_string ad.id)
            ad.cap_max_impressions ad.cap_time_window_secs db in
        (allowed r, db')

  -- The reservation for an ad's campaign.
  abbrev pub reserve : Handler → Chance F → Ad F → Db → Reserve × Db
  reserve h chance ad db =
      try_reserve redis h.has_budget chance.budget_first chance.budget_second
        (h.uuid_string ad.campaign_id) ad.budget_total db

  abbrev is_reserved : Reserve → Bool
  is_reserved (reserved n) = true
  is_reserved exhausted = false
  is_reserved failed = false

  -- checkBudget.
  unfoldable pub check_budget : Handler → Chance F → Ad F → Db → Bool × Db
  check_budget h chance ad db = let (r, db') = reserve h chance ad db in (is_reserved r, db')

  -- The answer for an ad index; a panic is `none`.
  abbrev pub Answer : Type 0
  Answer = Option (Option ℕ × Db)

  -- What follows a reservation; `retry` is the rest of the loop, with the excluded indices.
  unfoldable pub after_reserve :
      List (Ad F) → List ℕ → ℕ → (List ℕ → Db → Answer) → Reserve → Db → Answer
  after_reserve ads excluded cand retry (reserved n) db = some (some cand, db)
  after_reserve ads excluded cand retry failed db = some (none, db)
  after_reserve ads excluded cand retry exhausted db = elim (index_of ads cand) [
    | none ↦ some (none, db)
    | some i ↦ retry (i ∷ excluded) db
  ]

  -- What follows the frequency cap.
  unfoldable pub after_freq :
      Handler
      → List (Ad F)
      → Chance F
      → List ℕ
      → ℕ
      → Ad F
      → (List ℕ → Db → Answer)
      → Bool
      → Db
      → Answer
  unfolding after_reserve
  after_freq h ads chance excluded cand ad retry false db =
      retry (add_excluded excluded ads cand) db
  after_freq h ads chance excluded cand ad retry true db =
      let (r, db') = reserve h chance ad db in after_reserve ads excluded cand retry r db'

  -- What follows the selection.
  unfoldable pub after_select :
      Handler
      → List (Ad F)
      → Text
      → Chance F
      → List ℕ
      → (List ℕ → Db → Answer)
      → Option ℕ
      → Db
      → Answer
  unfolding check_freq after_freq
  after_select h ads uid chance excluded retry none db = some (none, db)
  after_select h ads uid chance excluded retry (some cand) db = do
    ad ← get_elem? ads cand
    let (pass, db') = check_freq h chance uid ad db
    after_freq h ads chance excluded cand ad retry pass db'

  -- The selection loop with `left` attempts left, of which the next is number `i`.
  unfoldable pub serve_loop :
      Handler → Snapshot F → Request → Text → (ℕ → Chance F) → ℕ → ℕ → List ℕ → Db → Answer
  unfolding after_select
  serve_loop h snap req uid chances zero i excluded db = some (none, db)
  serve_loop h snap req uid chances (suc left) i excluded db = do
    chosen ← select fl (some snap) (with_exclude req excluded) (chances i).roll
    after_select h snap.ads uid (chances i) excluded
        (serve_loop h snap req uid chances left (suc i)) chosen db

  -- The ?ad_id= path, with the parsed identifier or `none` if it is malformed.
  unfoldable pub serve_by_id : Handler → Snapshot F → Option Text → Text → Chance F → Db → Answer
  unfolding check_freq check_budget
  serve_by_id h snap none uid chance db = some (none, db)
  serve_by_id h snap (some id) uid chance db = elim (select_by_id (some snap) id) [
    | none ↦ some (none, db)
    | some cand ↦ elim (get_elem? snap.ads cand) [
      | none ↦ none
      | some ad ↦
          let (pass, db1) = check_freq h chance uid ad db in
          let (fits, db2) = check_budget h chance ad db1 in
          if not pass then some (none, db1) else some (if fits then some cand else none, db2)
    ]
  ]

  -- ServeVAST after the request is read: the snapshot if it is loaded, and the raw ?ad_id= with the
  -- identifier that it parses to.
  unfoldable pub serve_vast :
      Handler
      → Option (Snapshot F)
      → Request
      → Text
      → (ℕ → Chance F)
      → Text
      → Option Text
      → Db
      → Answer
  unfolding serve_loop serve_by_id
  serve_vast h none req uid chances raw_id id db = some (none, db)
  serve_vast h (some snap) req uid chances raw_id id db =
      if not (text_eq raw_id [])
      then serve_by_id h snap id uid (chances 0) db
      else serve_loop h snap req uid chances max_budget_retries 0 [] db
