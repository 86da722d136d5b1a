-- ===== src/Store/Sample/Outbox.antt =====
-- The table `outbox` as a list of rows, which never fails: it meets the laws.
use mathlib.Core.List.Permᴰ
use mathlib.Core.List.{Permᴰ}
use end_to_end_chat.Base.{
  ◌≡◌, refl, subst, Bytes, List, [], ◌∷◌, ◌++◌, append-nil, Option, some, true, bytes_eq,
  bytes_eq_refl, if◌then◌else◌, arith,
}
use end_to_end_chat.Store.Defs.{Outbox, OutboxRow, rows_but, counted}

-- The newest row is the last one.
abbrev targeted : Bytes → List OutboxRow → List OutboxRow
targeted t [] = []
targeted t (r ∷ rows) = let rest = targeted t rows in if bytes_eq t r.target then r ∷ rest else rest

pub targeted-append :
    (t : Bytes) (rows : List OutboxRow) (r : OutboxRow)
    → bytes_eq t r.target ≡ true
    → targeted t (rows ++ r ∷ []) ≡ targeted t rows ++ r ∷ []
targeted-append t [] r h = ground arith
targeted-append t (q ∷ rows) r h = ground (arith, targeted-append t rows r h)

targeted-but :
    (t k : Bytes) (rows : List OutboxRow)
    → targeted t (rows_but k rows) ≡ rows_but k (targeted t rows)
targeted-but t k [] = refl
targeted-but t k (q ∷ rows) = ground (arith, targeted-but t k rows)

targeted-counted :
    (t k : Bytes) (rows : List OutboxRow)
    → targeted t (counted k rows) ≡ counted k (targeted t rows)
targeted-counted t k [] = refl
targeted-counted t k (q ∷ rows) = ground (arith, targeted-counted t k rows)

pub appended :
    (s s' : List OutboxRow) (r : OutboxRow) (rows rows' : List OutboxRow)
    → ◌≡◌ {A = Option (List OutboxRow)} (some (s ++ r ∷ [])) (some s')
    → ◌≡◌ {A = Option (List OutboxRow)} (some (targeted r.target s)) (some rows)
    → ◌≡◌ {A = Option (List OutboxRow)} (some (targeted r.target s')) (some rows')
    → Permᴰ (r ∷ rows) rows'
appended s s' r rows rows' h q q' =
    subst (Permᴰ (r ∷ rows)) (cc (h, q, q', targeted-append r.target s r (bytes_eq_refl r.target)))
      (subst (λ l. Permᴰ (r ∷ l) (rows ++ r ∷ [])) (append-nil rows)
        (Permᴰ.symm (Permᴰ.middle r rows [])))

pub deleted :
    (s s' : List OutboxRow) (k t : Bytes) (rows rows' : List OutboxRow)
    → ◌≡◌ {A = Option (List OutboxRow)} (some (rows_but k s)) (some s')
    → ◌≡◌ {A = Option (List OutboxRow)} (some (targeted t s)) (some rows)
    → ◌≡◌ {A = Option (List OutboxRow)} (some (targeted t s')) (some rows')
    → Permᴰ (rows_but k rows) rows'
deleted s s' k t rows rows' h q q' =
    subst (Permᴰ (rows_but k rows)) (cc (h, q, q', targeted-but t k s)) (Permᴰ.refl _)

pub incremented :
    (s s' : List OutboxRow) (k t : Bytes) (rows rows' : List OutboxRow)
    → ◌≡◌ {A = Option (List OutboxRow)} (some (counted k s)) (some s')
    → ◌≡◌ {A = Option (List OutboxRow)} (some (targeted t s)) (some rows)
    → ◌≡◌ {A = Option (List OutboxRow)} (some (targeted t s')) (some rows')
    → Permᴰ (counted k rows) rows'
incremented s s' k t rows rows' h q q' =
    subst (Permᴰ (counted k rows)) (cc (h, q, q', targeted-counted t k s)) (Permᴰ.refl _)

abbrev pub toy_outbox : Outbox
toy_outbox = record {
  State = List OutboxRow;
  insert = λ s r. some (s ++ r ∷ []);
  delete = λ s k. some (rows_but k s);
  increment = λ s k. some (counted k s);
  of_target = λ s t. some (targeted t s);
  all = λ s. some s;
  of_target-insert = appended;
  of_target-delete = deleted;
  of_target-increment = incremented;
}
