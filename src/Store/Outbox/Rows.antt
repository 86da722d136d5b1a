-- ===== src/Store/Outbox/Rows.antt =====
-- store/outbox.go: the rows of the outbox, and the entries that are read of them.
use mathlib.Core.List.{Permᴰ}
use mathlib.Core.List.Permᴰ
use end_to_end_chat.Base.{
  ℕ, ◌+◌, ◌≡◌, ◌≢◌, refl, sym, ap, ◌∙◌, Bytes, List, [], ◌∷◌, Option, none, some, All, bytes_eq,
  bytes_eq_refl, false, Bool-cases, inl, inr,
}
use end_to_end_chat.Base.Outcome.{ok, bind-eq-ok, bind-follows, ok-injective}
use end_to_end_chat.Signal.Defs.{IsUuid}
use end_to_end_chat.Store.Defs.{Env, OutboxRow, rows_but, counted, bad_time}
use end_to_end_chat.Store.Records.{scan_id-uuid_string}
use end_to_end_chat.Store.Peers.{scan_id, scanned}
use end_to_end_chat.Store.Secret.{or_fail, decrypt_raw}
use end_to_end_chat.Keys.Defs.{from_hex}
use end_to_end_chat.Store.Outbox.{OutboxSignal, scanned_entry, opened_entry}

module _ (e : Env) where
  -- The ids of the rows are written by `uuid.UUID.String`, and none comes twice.
  abbrev pub IsQueue : List OutboxRow → Type 0
  IsQueue [] = Unit {0}
  IsQueue (r ∷ rows) =
      ((u : Bytes) × IsUuid u × (r.id ≡ e.uuid_string u))
      × All (λ q. bytes_eq r.id q.id ≡ false) rows
      × IsQueue rows

  -- The statements and the queries on the outbox do not fail.
  pub record Answers : Type 0 where
    pub deletes : (q : e.outbox.State) (k : Bytes) → e.outbox.delete q k ≢ none
    pub increments : (q : e.outbox.State) (k : Bytes) → e.outbox.increment q k ≢ none
    pub reads : (q : e.outbox.State) (t : Bytes) → e.outbox.of_target q t ≢ none

  rows_but-absent :
      (k : Bytes) (rows : List OutboxRow)
      → All (λ q. bytes_eq k q.id ≡ false) rows
      → rows_but k rows ≡ rows
  rows_but-absent k [] h = refl
  rows_but-absent k (r ∷ rows) h = rw h.0 (ap (◌∷◌ r) (rows_but-absent k rows h.1))

  counted-absent :
      (k : Bytes) (rows : List OutboxRow)
      → All (λ q. bytes_eq k q.id ≡ false) rows
      → counted k rows ≡ rows
  counted-absent k [] h = refl
  counted-absent k (r ∷ rows) h = rw h.0 (ap (◌∷◌ r) (counted-absent k rows h.1))

  scanned_entry-id :
      (r : OutboxRow) (u : Bytes) {a : OutboxSignal}
      → IsUuid u
      → r.id ≡ e.uuid_string u
      → scanned_entry e r ≡ ok a
      → a.id ≡ u
  unfolding scanned_entry
  scanned_entry-id r u fits same h =
      let (id, first, t₁) = bind-eq-ok (scan_id e r.id) _ h in
      let (_, _, t₂) = bind-eq-ok (scanned (from_hex e.hex r.target)) _ t₁ in
      let (_, _, t₃) = bind-eq-ok (scanned (from_hex e.hex r.from)) _ t₂ in
      let (_, _, t₄) = bind-eq-ok (scan_id e r.signal_id) _ t₃ in
      let (_, _, t₅) = bind-eq-ok (or_fail (e.parse_rfc3339 r.created_at) bad_time) _ t₄ in
      sym (ap (λ (b : OutboxSignal). b.id) (ok-injective t₅))
      ∙ ok-injective (sym first ∙ ap (scan_id e) same ∙ scan_id-uuid_string e u fits)

  pub opened_entry-id :
      (secret : Bytes) (r : OutboxRow) (u : Bytes) {a : OutboxSignal}
      → IsUuid u
      → r.id ≡ e.uuid_string u
      → opened_entry e secret r ≡ ok a
      → a.id ≡ u
  unfolding opened_entry
  opened_entry-id secret r u fits same h =
      let (b, first, rest) = bind-eq-ok (scanned_entry e r) _ h in
      let (plain, _, last) = bind-eq-ok (decrypt_raw e secret r.content) _ rest in
      sym (ap (λ (x : OutboxSignal). x.id) (ok-injective last))
      ∙ scanned_entry-id r u fits same first

  -- Another retry count shows in the entry, and nowhere else.
  scanned_entry-counted :
      (r : OutboxRow) (n : ℕ) {a : OutboxSignal}
      → scanned_entry e r ≡ ok a
      → scanned_entry e (record r { retry_count = n }) ≡ ok (record a { retry_count = n })
  unfolding scanned_entry
  scanned_entry-counted r n =
      let k : OutboxSignal → OutboxSignal = λ a. record a { retry_count = n } in
      bind-follows k (scan_id e r.id) _ _ λ id _.
        bind-follows k (scanned (from_hex e.hex r.target)) _ _ λ target _.
          bind-follows k (scanned (from_hex e.hex r.from)) _ _ λ from _.
            bind-follows k (scan_id e r.signal_id) _ _ λ signal_id _.
              bind-follows k (or_fail (e.parse_rfc3339 r.created_at) bad_time) _ _
                λ at _ h. ap (λ (a : OutboxSignal). ok (k a)) (ok-injective h)

  opened_entry-counted :
      (secret : Bytes) (r : OutboxRow) (n : ℕ) {a : OutboxSignal}
      → opened_entry e secret r ≡ ok a
      → opened_entry e secret (record r { retry_count = n }) ≡ ok (record a { retry_count = n })
  unfolding opened_entry
  opened_entry-counted secret r n h =
      let (b, first, rest) = bind-eq-ok (scanned_entry e r) _ h in
      let (plain, opened, last) = bind-eq-ok (decrypt_raw e secret r.content) _ rest in
      rw (scanned_entry-counted r n first, opened)
        (ap (λ (x : OutboxSignal). ok (record x { retry_count = n })) (ok-injective last))

  pub opened_entry-raised :
      (secret : Bytes) (r : OutboxRow) {a : OutboxSignal}
      → opened_entry e secret r ≡ ok a
      → opened_entry e secret (record r { retry_count = r.retry_count + 1 })
        ≡ ok (record a { retry_count = a.retry_count + 1 })
  opened_entry-raised secret r {a} h =
      let same =
        ap (λ (b : OutboxSignal). b.retry_count)
          (ok-injective (sym h ∙ opened_entry-counted secret r r.retry_count h)) in
      opened_entry-counted secret r (r.retry_count + 1) h
      ∙ ap (λ n. ok (record a { retry_count = n + 1 })) (sym same)

  pub there_of : {A : Type 0} (o : Option A) → o ≢ none → (a : A) × (o ≡ some a)
  there_of none h = absurd (h refl)
  there_of (some a) h = (a, refl)

  pub rows_but-head :
      (k : Bytes) (r : OutboxRow) (rows : List OutboxRow)
      → k ≡ r.id
      → All (λ q. bytes_eq r.id q.id ≡ false) rows
      → rows_but k (r ∷ rows) ≡ rows
  rows_but-head k r rows same absent =
      ap (λ k. rows_but k (r ∷ rows)) same
      ∙ rw (bytes_eq_refl r.id) (rows_but-absent r.id rows absent)

  pub counted-head :
      (k : Bytes) (r : OutboxRow) (rows : List OutboxRow)
      → k ≡ r.id
      → All (λ q. bytes_eq r.id q.id ≡ false) rows
      → counted k (r ∷ rows) ≡ record r { retry_count = r.retry_count + 1 } ∷ rows
  counted-head k r rows same absent =
      ap (λ k. counted k (r ∷ rows)) same
      ∙ rw (bytes_eq_refl r.id) (
          ap (◌∷◌ (record r { retry_count = r.retry_count + 1 })) (counted-absent r.id rows absent))

  -- The order of the rows does not matter to which are left and which are counted.
  pub rows_but-perm :
      {xs ys : List OutboxRow} (k : Bytes) → Permᴰ xs ys → Permᴰ (rows_but k xs) (rows_but k ys)
  rows_but-perm k Permᴰ.nil = Permᴰ.nil
  rows_but-perm k (Permᴰ.cons {b = r} q p) = rw q (elim (Bool-cases (bytes_eq k r.id)) [
    | inl t ↦ rw t (rows_but-perm k p)
    | inr t ↦ rw t (Permᴰ.cons refl (rows_but-perm k p))
  ])
  rows_but-perm k (Permᴰ.swap {a' = r} {b' = r'} {l = l} q q') =
      rw (q, q')
        (elim (Bool-cases (bytes_eq k r.id)) [
          | inl t ↦ elim (Bool-cases (bytes_eq k r'.id)) [
            | inl t' ↦ rw (t, t') (Permᴰ.refl (rows_but k l))
            | inr t' ↦ rw (t, t') (Permᴰ.refl (r' ∷ rows_but k l))
          ]
          | inr t ↦ elim (Bool-cases (bytes_eq k r'.id)) [
            | inl t' ↦ rw (t, t') (Permᴰ.refl (r ∷ rows_but k l))
            | inr t' ↦ rw (t, t') (Permᴰ.swap refl refl)
          ]
        ])
  rows_but-perm k (Permᴰ.trans p p') = Permᴰ.trans (rows_but-perm k p) (rows_but-perm k p')

  pub counted-perm :
      {xs ys : List OutboxRow} (k : Bytes) → Permᴰ xs ys → Permᴰ (counted k xs) (counted k ys)
  counted-perm k Permᴰ.nil = Permᴰ.nil
  counted-perm k (Permᴰ.cons {b = r} q p) = rw q (elim (Bool-cases (bytes_eq k r.id)) [
    | inl t ↦ rw t (Permᴰ.cons refl (counted-perm k p))
    | inr t ↦ rw t (Permᴰ.cons refl (counted-perm k p))
  ])
  counted-perm k (Permᴰ.swap {a' = r} {b' = r'} {l = l} q q') =
      rw (q, q')
        (elim (Bool-cases (bytes_eq k r.id)) [
          | inl t ↦ elim (Bool-cases (bytes_eq k r'.id)) [
            | inl t' ↦ rw (t, t') (Permᴰ.swap refl refl)
            | inr t' ↦ rw (t, t') (Permᴰ.swap refl refl)
          ]
          | inr t ↦ elim (Bool-cases (bytes_eq k r'.id)) [
            | inl t' ↦ rw (t, t') (Permᴰ.swap refl refl)
            | inr t' ↦ rw (t, t') (Permᴰ.swap refl refl)
          ]
        ])
  counted-perm k (Permᴰ.trans p p') = Permᴰ.trans (counted-perm k p) (counted-perm k p')
