-- ===== src/Worker/Tick/Composed.antt =====
-- Lemmas on worker/drainer.go: a tick in which every call is answered.
use mathlib.Core.List.{Memᴰ}
use mathlib.Core.Path.{subst}
use openadsource.Common.{
  Bool, true, some, List, [], ◌∷◌, Text, inl, inr, ◌≡◌, refl, arith, ◌<◌, ◌∙◌, if◌then◌else◌, ◌&&◌,
  text_eq, ◌≢◌, ℕ, ◌⊎◌, sym,
}
use openadsource.Common.Separator.{Lacks}
use openadsource.Common.Int.{ℤ, pos, ◌+ℤ◌}
use openadsource.Common.Float.{Float64}
use openadsource.Redis.{Redis, answered}
use openadsource.Registry.Snapshot.{Ad, Snapshot}
use openadsource.Registry.Load.{load}
use openadsource.Tracking.Events.{tracked_events}
use openadsource.Tracking.Track.{counter_key}
use openadsource.Capping.Budget.{budget_key}
use openadsource.Worker.Drain.{
  Kind, drain_ads, impression, click, start, first_quartile, midpoint, third_quartile, complete,
}
use openadsource.Worker.Drain.Keys.{field, name, kind_of-name}
use openadsource.Worker.Drain.Cell.{room, AllTracked}
use openadsource.Worker.Drain.Exact.{drain_ads-exact, answered_kept}
use openadsource.Worker.Drain.Preserved.{drain_ads-preserves}
use openadsource.Worker.Reconcile.{active, completed}
use openadsource.Worker.Reconcile.Caps.{exhausted, budget_of}
use openadsource.Worker.Reconcile.Completed.{reconcile_budgets-completes}
use openadsource.Worker.Tick.{
  new_drainer, Calls, World, Query, TickEnd, ticked, tick, tick_ads, dates_to_drain,
}
use openadsource.Worker.Drain.Conserved.{upsert_deltas-drain_ads}

pub tracked_events-AllTracked : AllTracked tracked_events
unfolding name
tracked_events-AllTracked = (
  (_, kind_of-name impression),
  (
    (_, kind_of-name click),
    (
      (_, kind_of-name start),
      (
        (_, kind_of-name first_quartile),
        (
          (_, kind_of-name midpoint),
          ((_, kind_of-name third_quartile), ((_, kind_of-name complete), tt)),
        ),
      ),
    ),
  ),
)

name-Memᴰ : (k : Kind) → Memᴰ (name k) tracked_events
unfolding name
name-Memᴰ impression = Memᴰ.head refl
name-Memᴰ click = Memᴰ.tail (Memᴰ.head refl)
name-Memᴰ start = Memᴰ.tail (Memᴰ.tail (Memᴰ.head refl))
name-Memᴰ first_quartile = Memᴰ.tail (Memᴰ.tail (Memᴰ.tail (Memᴰ.head refl)))
name-Memᴰ midpoint = Memᴰ.tail (Memᴰ.tail (Memᴰ.tail (Memᴰ.tail (Memᴰ.head refl))))
name-Memᴰ third_quartile =
    Memᴰ.tail (Memᴰ.tail (Memᴰ.tail (Memᴰ.tail (Memᴰ.tail (Memᴰ.head refl)))))
name-Memᴰ complete =
    Memᴰ.tail (Memᴰ.tail (Memᴰ.tail (Memᴰ.tail (Memᴰ.tail (Memᴰ.tail (Memᴰ.head refl))))))

budget_key-apart : (c a ev date : Text) → counter_key a ev date ≢ budget_key c
budget_key-apart c a ev date e = ground (arith, e)

module _ (redis : Redis) (show : Text → Text) (format : ℤ → Text)
    (total : Text → Text → Kind → ℕ) where
  open redis use {count}

  -- The effect of a tick on the row and the counter of an ad and date, and on a campaign.
  abbrev pub Ticked : {F : Type 0} → List (Ad F) → ℤ → World redis → TickEnd × World redis → Type 0
  Ticked {F} ads now w (end, w') =
      ((b : Bool) × (end ≡ ticked b))
      × ((ad : Ad F) (day : Text) (k : Kind)
          → Memᴰ ad ads
          → Memᴰ day (dates_to_drain format now)
          → (field k (w'.table ad.id day) ≡ field k (w.table ad.id day) +ℤ pos (total ad.id day k))
            × (count w'.db (counter_key (show ad.id) (name k) day) ≡ some 0))
      × ((c : Text) (n : ℕ)
          → count w.db (budget_key (show c)) ≡ some n
          → w'.statuses c ≡ (
              if exhausted (budget_of c ads) n && text_eq (w.statuses c) active
              then completed
              else w.statuses c))

module _ (redis : Redis) (show : Text → Text) (format : ℤ → Text) (calls : Calls)
    (total : Text → Text → Kind → ℕ) (drained : (key : Text) → calls.drains key ≡ answered)
    (read : (key : Text) → calls.reads key ≡ answered)
    (upserted : (key : Text) → calls.upserts key ≡ true)
    (updated : (c : Text) → calls.updates c ≡ true)
    (small : (a day : Text) (k : Kind) → total a day k < room)
    (clean : (a : Text) → Lacks 58 (show a) × Lacks 124 (show a))
    (inj : (a b : Text) → show a ≡ show b → a ≡ b) where
  open redis use {Db, count}

  tick_ads-Ticked :
      {F : Type 0} (ad : Ad F) (ads : List (Ad F)) (now : ℤ) (w : World redis)
      → ((a day : Text) (k : Kind)
          → count w.db (counter_key (show a) (name k) day) ≡ some (total a day k))
      → Ticked redis show format total
          (ad ∷ ads)
          now
          w
          (tick_ads redis show format (new_drainer tracked_events) calls (ad ∷ ads) now w)
  unfolding tick_ads new_drainer
  tick_ads-Ticked ad ads now w counts =
      let events = tracked_events in
      let dates = dates_to_drain format now in
      let s = drain_ads redis show events calls.drains (ad ∷ ads) dates ([], w.db) in
      let done =
        (upsert_deltas-drain_ads redis show events calls.drains total
          (λ key. answered_kept (calls.drains key) (drained key)) small clean inj
          tracked_events-AllTracked (ad ∷ ads) dates w.db calls.upserts w.table upserted
          counts).0 in
      rw done (
        (_, refl),
        λ a day k m today.
            drain_ads-exact redis show events calls.drains total drained small clean inj
              tracked_events-AllTracked (ad ∷ ads) dates w.db calls.upserts w.table a day k upserted
              counts m today (name-Memᴰ k),
        λ c n e.
            reconcile_budgets-completes redis show calls.reads calls.updates s.1 read updated
              (ad ∷ ads) w.statuses c n
              (drain_ads-preserves redis (λ (db : Db). count db (budget_key (show c)) ≡ some n)
                (λ x ev date db h.
                  redis.count-get_del_other (counter_key x ev date) (budget_key (show c)) db
                    (budget_key-apart (show c) x ev date)
                  ∙ h)
                show events calls.drains (ad ∷ ads) dates ([], w.db) e),
      )

  tick-loaded :
      (fl : Float64) (query : Query fl.F) (at now : ℤ) (w : World redis) (snap : Snapshot fl.F)
      → load fl query at ≡ inr (some snap)
      → tick redis show format fl (new_drainer tracked_events) calls query at now w
        ≡ tick_ads redis show format (new_drainer tracked_events) calls snap.ads now w
  unfolding tick
  tick-loaded fl query at now w snap loaded = rw (tick, loaded) refl

  -- A tick that loads a snapshot with ads, whose calls are all answered and whose statements all
  -- run, is done. The row of each of these ads gains, for today and yesterday and for every
  -- event, the whole count of its counter, which is empty after it; and a campaign is completed
  -- exactly when it is active and its impressions have reached the first positive budget of
  -- these ads. The counts are below 2^60, and ids are written one to one and without ':' and '|'.
  pub tick-Ticked :
      (fl : Float64) (query : Query fl.F) (at now : ℤ) (w : World redis) (snap : Snapshot fl.F)
      → load fl query at ≡ inr (some snap)
      → snap.ads ≢ []
      → ((a day : Text) (k : Kind)
          → count w.db (counter_key (show a) (name k) day) ≡ some (total a day k))
      → Ticked redis show format total snap.ads now w
          (tick redis show format fl (new_drainer tracked_events) calls query at now w)
  tick-Ticked fl query at now w snap loaded some_ads counts =
      subst (λ (r : TickEnd × World redis). Ticked redis show format total snap.ads now w r)
        (sym (tick-loaded fl query at now w snap loaded))
        (elim (list_cases snap.ads) [
          | inl e ↦ absurd (some_ads e)
          | inr (ad, ads, e) ↦
              subst
                (λ (l : List (Ad fl.F)).
                  Ticked redis show format total l now w
                    (tick_ads redis show format (new_drainer tracked_events) calls l now w))
                (sym e) (tick_ads-Ticked ad ads now w counts)
        ])
    where
      list_cases :
          (l : List (Ad fl.F))
          → (l ≡ []) ⊎ ((a : Ad fl.F) × (rest : List (Ad fl.F)) × (l ≡ a ∷ rest))
      list_cases [] = inl refl
      list_cases (a ∷ rest) = inr (a, rest, refl)
