-- ===== src/Worker/Reconcile.antt =====
-- server/internal/worker/drainer.go, reconcileBudgets: the campaigns whose counter has reached the
-- budget of their ads. A statement that fails has no effect; the commands that read may fail.
pub mod Caps
pub mod Completed
pub mod Published
use openadsource.Common.{
  Bool, true, false, Option, none, some, List, [], ◌∷◌, if◌then◌else◌, Text, codes, text_eq, ℕ, suc,
  ltb, ◌+◌, ◌&&◌,
}
use openadsource.Common.Int.{ℤ, pos, leb_ℤ}
use openadsource.Common.Dict.{Dict, lookup, insert}
use openadsource.Redis.{
  Redis, Got, absent, number, garbled, Transport, answered, no_script, refused, reply_lost,
}
use openadsource.Registry.Snapshot.{Ad}
use openadsource.Capping.Budget.{budget_key}

-- The status of each campaign.
abbrev pub Statuses : Type 0
Statuses = Text → Text

abbrev pub active : Text
active = codes "active"

abbrev pub completed : Text
completed = codes "completed"

-- The loop that fills `seen`: the first positive budget of each campaign.
unfoldable pub note_budget : Text → ℤ → Dict ℤ → Dict ℤ
note_budget campaign budget seen =
    if leb_ℤ budget (pos 0)
    then seen
    else elim (lookup campaign seen) [ some cap ↦ seen | none ↦ insert campaign budget seen ]

unfoldable pub campaign_caps : {F : Type 0} → List (Ad F) → Dict ℤ → Dict ℤ
unfolding note_budget
campaign_caps [] seen = seen
campaign_caps (ad ∷ ads) seen = campaign_caps ads (note_budget ad.campaign_id ad.budget_total seen)

-- The UPDATE: the statuses, and whether a row was affected.
unfoldable pub complete_campaign : Text → Statuses → Statuses × Bool
complete_campaign campaign statuses =
    if text_eq (statuses campaign) active
    then (λ c. if text_eq campaign c then completed else statuses c, true)
    else (statuses, false)

-- Whether the loop gets as far as the UPDATE.
unfoldable pub spent : ℤ → Option Got → Bool
spent cap none = false
spent cap (some absent) = false
spent cap (some garbled) = false
spent cap (some (number count)) = leb_ℤ cap count

module _ (redis : Redis) where
  open redis use {Db, fetch}

  unfoldable pub read_counter : Transport → Text → Db → Option Got
  read_counter answered key db = some (fetch key db)
  read_counter no_script key db = none
  read_counter refused key db = none
  read_counter reply_lost key db = none

  module _ (show : Text → Text) (fate : Text → Transport) (runs : Text → Bool) (db : Db) where
    -- One campaign: the statuses and the number of campaigns paused.
    unfoldable pub reconcile_one : Text → ℤ → Statuses × ℕ → Statuses × ℕ
    unfolding read_counter spent complete_campaign
    reconcile_one campaign cap (statuses, paused) =
        let key = budget_key (show campaign) in
        if spent cap (read_counter (fate key) key db) && runs campaign
        then (let (statuses', affected) = complete_campaign campaign statuses in
            (statuses', if affected then suc paused else paused))
        else (statuses, paused)

    unfoldable pub reconcile_caps : Dict ℤ → Statuses × ℕ → Statuses × ℕ
    unfolding reconcile_one
    reconcile_caps [] s = s
    reconcile_caps ((campaign, cap) ∷ seen) s = reconcile_caps seen (reconcile_one campaign cap s)

    -- The statuses after it, and whether it publishes an invalidation.
    unfoldable pub reconcile_budgets : {F : Type 0} → List (Ad F) → Statuses → Statuses × Bool
    unfolding campaign_caps reconcile_caps
    reconcile_budgets ads statuses =
        let (statuses', paused) = reconcile_caps (campaign_caps ads []) (statuses, 0) in
        (statuses', ltb 0 paused)
