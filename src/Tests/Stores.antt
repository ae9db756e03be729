-- ===== src/Tests/Stores.antt =====
-- A concrete store for what the program relies on of Redis.
use openadsource.Common.{
  ap, ◌∙◌, inl, inr, Bool-cases, Option-cases, ℕ, suc, ◌-◌, ◌≡◌, ◌≢◌, refl, Bool, true, false,
  Option, none, some, ltb, if◌then◌else◌, Text, text_eq, text_ne, text_eq_refl, arith, ap, ◌<◌,
}
use openadsource.Common.Int.{ℤ, pos, leb_ℤ, ◌<ℤ◌, ◌≤ℤ◌}
use openadsource.Redis.{Redis, Got, number}

-- A store of counters beside a store of strings and the times that are left to them.
abbrev pub Store : Type 0
Store = (Text → ℕ) × (Text → Option Text) × (Text → Option ℕ)

abbrev pub put {ℓ} : {A : Type ℓ} → Text → A → (Text → A) → Text → A
put k v f j = if text_eq k j then v else f j

pub put_self {ℓ} : {A : Type ℓ} (k : Text) (v : A) (f : Text → A) → put k v f k ≡ v
put_self k v f = rw (text_eq_refl k) refl

pub put-other {ℓ} : {A : Type ℓ} (k j : Text) (v : A) (f : Text → A) → k ≢ j → put k v f j ≡ f j
put-other k j v f ne = rw (text_ne ne) refl

abbrev pub store_incr : Text → Store → Option ℤ × Store
store_incr k (c, s, t) = (some (pos (suc (c k))), (put k (suc (c k)) c, s, t))

abbrev pub store_decr : Text → Store → Option ℤ × Store
store_decr k (c, s, t) = (some (pos (c k - 1)), (put k (c k - 1) c, s, t))

abbrev pub store_get_del : Text → Store → Got × Store
store_get_del k (c, s, t) = (number (pos (c k)), (put k 0 c, s, t))

abbrev pub store_expire : Text → ℤ → Store → Store
store_expire k d (c, s, t) = if leb_ℤ d (pos 0) then (put k 0 c, s, t) else (c, s, t)

abbrev pub store_set_nx : Text → Text → ℕ → Store → Bool × Store
store_set_nx k v d (c, s, t) = elim (s k) [
  | none ↦ (true, (c, put k (some v) s, put k (some d) t))
  | some w ↦ (false, (c, s, t))
]

-- The time that is left, and what stands then.
abbrev pub left_after : ℕ → Option ℕ → Option ℕ
left_after d none = none
left_after d (some r) = if ltb d r then some (r - d) else none

abbrev pub stands_after : ℕ → Option ℕ → Option Text → Option Text
stands_after d none w = w
stands_after d (some r) w = if ltb d r then w else none

abbrev pub store_pass : ℕ → Store → Store
store_pass d (c, s, t) = (c, λ k. stands_after d (t k) (s k), λ k. left_after d (t k))

pub held-pass_lem :
    (k : Text) (d r : ℕ) (db : Store) {w : Text}
    → db.1 k ≡ some w
    → db.2 k ≡ some r
    → d < r
    → ((store_pass d db).1 k ≡ some w) × ((store_pass d db).2 k ≡ some (r - d))
held-pass_lem k d r db h t l = rw (t, h) ground arith

pub ttl-pass_lem : (k : Text) (d : ℕ) (db : Store) → db.2 k ≡ none → (store_pass d db).2 k ≡ none
ttl-pass_lem k d db t = rw t refl

pub same_count : {a b : ℕ} → some a ≡ some b → a ≡ b
same_count h = ground arith

pub expire-late :
    (k j : Text) (t : ℤ) (db : Store) → pos 0 <ℤ t → (store_expire k t db).0 j ≡ db.0 j
expire-late k j t db h = let after : leb_ℤ t (pos 0) ≡ false = ground (arith, h) in rw after refl

pub expire-now : (k : Text) (t : ℤ) (db : Store) → t ≤ℤ pos 0 → (store_expire k t db).0 k ≡ 0
expire-now k t db h =
    let after : leb_ℤ t (pos 0) ≡ true = ground (arith, h) in rw after (put_self k 0 db.0)

pub expire-other : (k j : Text) (t : ℤ) (db : Store) → k ≢ j → (store_expire k t db).0 j ≡ db.0 j
expire-other k j t db ne = elim (Bool-cases (leb_ℤ t (pos 0))) [
  | inl h ↦ rw h (put-other k j 0 db.0 ne)
  | inr h ↦ rw h refl
]

pub drop_one : (n : ℕ) → some (pos (suc n - 1)) ≡ some (pos n)
drop_one n = ap (λ (i : ℕ). some (pos i)) (omega arith)

pub set_nx-free_lem :
    (k v : Text) (t : ℕ) (db : Store)
    → db.1 k ≡ none
    → ((store_set_nx k v t db).0 ≡ true)
      × ((store_set_nx k v t db).1.1 k ≡ some v)
      × ((store_set_nx k v t db).1.2 k ≡ some t)
set_nx-free_lem k v t db e =
    rw (e, store_set_nx) (refl, put_self k (some v) db.1, put_self k (some t) db.2)

pub set_nx-ttl :
    (k j v : Text) (t : ℕ) (db : Store) → k ≢ j → (store_set_nx k v t db).1.2 j ≡ db.2 j
set_nx-ttl k j v t db ne = elim (Option-cases (db.1 k)) [
  | inl e ↦ rw (e, store_set_nx) (put-other k j (some t) db.2 ne)
  | inr (w, e) ↦ rw (e, store_set_nx) refl
]

pub set_nx-taken_lem :
    (k v : Text) (t : ℕ) (db : Store) {w : Text}
    → db.1 k ≡ some w
    → store_set_nx k v t db ≡ (false, db)
set_nx-taken_lem k v t db e = rw (e, store_set_nx) refl

pub set_nx-count : (k j v : Text) (t : ℕ) (db : Store) → (store_set_nx k v t db).1.0 j ≡ db.0 j
set_nx-count k j v t db = elim (Option-cases (db.1 k)) [
  | inl e ↦ rw (e, store_set_nx) refl
  | inr (w, e) ↦ rw (e, store_set_nx) refl
]

abbrev pub store : Redis
store = record {
  Db = Store;
  count = λ db k. some (db.0 k);
  held = λ db k. db.1 k;
  ttl = λ db k. db.2 k;
  pass = store_pass;
  ttl-incr = λ k j db. refl;
  ttl-set_nx_other = λ k j v t db ne. set_nx-ttl k j v t db ne;
  held-pass = λ k d r db h t l. held-pass_lem k d r db h t l;
  count-pass = λ k d db t. (refl, ttl-pass_lem k d db t);
  incr = store_incr;
  decr = store_decr;
  fetch = λ k db. number (pos (db.0 k));
  get_del = store_get_del;
  expire = store_expire;
  set_nx = store_set_nx;
  incr-reply = λ k db n e m. ap (λ (i : ℕ). some (pos (suc i))) (same_count e);
  count-incr = λ k db n e m. ap some (put_self k _ db.0 ∙ ap suc (same_count e));
  count-incr_other = λ k j db ne. ap some (put-other k j _ db.0 ne);
  held-incr_other = λ k j db ne. refl;
  decr-reply = λ k db n e. ap (λ (i : ℕ). some (pos (i - 1))) (same_count e) ∙ drop_one n;
  count-decr =
      λ k db n e. ap some (put_self k _ db.0 ∙ ap (λ (i : ℕ). i - 1) (same_count e) ∙ omega arith);
  count-decr_other = λ k j db ne. ap some (put-other k j _ db.0 ne);
  count-expire = λ k j t db h. ap some (expire-late k j t db h);
  count-expire_now = λ k t db h. ap some (expire-now k t db h);
  count-expire_other = λ k j t db ne. ap some (expire-other k j t db ne);
  fetch-count = λ k db n e. ap (λ (i : ℕ). some (pos i)) (same_count e);
  get_del-reply = λ k db n e. ap (λ (i : ℕ). some (pos i)) (same_count e);
  count-get_del = λ k db n e. ap some (put_self k 0 db.0);
  count-get_del_other = λ k j db ne. ap some (put-other k j 0 db.0 ne);
  set_nx-free = λ k v t db l e. set_nx-free_lem k v t db e;
  set_nx-taken = λ k v t db e. set_nx-taken_lem k v t db e;
  count-set_nx_other = λ k j v t db ne. ap some (set_nx-count k j v t db);
}

-- Nothing is counted or held yet.
abbrev pub empty_store : Store
empty_store = (λ k. 0, λ k. none, λ k. none)
