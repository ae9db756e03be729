-- ===== src/Delivery/Live.antt =====
-- Lemmas on delivery/handler.go: the selection loop while the caps let every ad through.
use openadsource.Common.{ℕ, ◌≡◌, true, some, Text, get_elem?}
use openadsource.Common.Float.{Float64}
use openadsource.Common.Int.{ℤ}
use openadsource.Redis.{Redis}
use openadsource.Capping.Budget.{reserved}
use openadsource.Registry.Snapshot.{Ad, Snapshot}
use openadsource.Selection.{Request}
use openadsource.Delivery.{Handler, Chance, check_freq, reserve}

module _ (fl : Float64) (redis : Redis) (h : Handler) (snap : Snapshot fl.F) (req : Request)
    (uid : Text) where
  open fl use {F}
  open redis use {Db}

  -- The frequency cap passes every ad of the snapshot, and its campaign's budget has room then.
  abbrev pub LetsAll : Chance F → Db → Type 0
  LetsAll chance db =
      (c : ℕ) (ad : Ad F)
      → get_elem? snap.ads c ≡ some ad
      → ((check_freq fl redis h chance uid ad db).0 ≡ true)
        × (n : ℤ) × ((reserve fl redis h chance ad (check_freq fl redis h chance uid ad db).1).0
            ≡ reserved n)
