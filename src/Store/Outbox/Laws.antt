-- ===== src/Store/Outbox/Laws.antt =====
-- store/outbox.go: what is put into the outbox is read back, and what is deleted is gone.
use mathlib.Core.List.Permᴰ
use mathlib.Core.List.{Permᴰ}
use end_to_end_chat.Base.{
  ℕ, ◌≡◌, ◌≢◌, ◌<◌, ◌-◌, ◌%◌, refl, sym, ap, subst, ◌∙◌, Bytes, List, [], ◌∷◌, Option, none, some,
  length, Option-cases, inl, inr, ◌⊎◌,
}
use end_to_end_chat.Base.Outcome.{Outcome, ok, err, bind-eq-ok, ok-injective}
use end_to_end_chat.Config.{nonce_size}
use end_to_end_chat.Signal.Defs.{IsKey, IsUuid, nil_uuid}
use end_to_end_chat.Keys.Defs.{nil_key, to_string}
use end_to_end_chat.Keys.RoundTrip.{from_hex-to_string}
use end_to_end_chat.Store.Defs.{Env, Store, StoreError, OutboxRow, exec_failed, query_failed}
use end_to_end_chat.Store.Secret.{or_fail, decrypt_raw, decrypt_raw-encrypt_raw}
use end_to_end_chat.Store.Records.{scan_id-uuid_string}
use end_to_end_chat.Store.Outbox.{
  OutboxSignal, outbox_row, put_outbox, get_outbox, scanned_entry, opened_entry, each_row,
}

module _ (f : OutboxRow → Outcome StoreError OutboxSignal) where
  pub each_row-cons :
      (x : OutboxRow) (xs : List OutboxRow) {cs : List OutboxSignal}
      → each_row f (x ∷ xs) ≡ ok cs
      → (a : OutboxSignal) × (rest : List OutboxSignal) × (f x ≡ ok a)
        × (each_row f xs ≡ ok rest)
        × (cs ≡ a ∷ rest)
  unfolding each_row
  each_row-cons x xs h =
      let (a, first, tail) = bind-eq-ok (f x) _ h in
      let (rest, others, last) = bind-eq-ok (each_row f xs) _ tail in
      (a, rest, first, others, sym (ok-injective last))

  -- What the loop gives for the same rows in another order.
  pub each_row-perm :
      {xs ys : List OutboxRow} {cs : List OutboxSignal}
      → Permᴰ xs ys
      → each_row f xs ≡ ok cs
      → (ds : List OutboxSignal) × (each_row f ys ≡ ok ds) × Permᴰ cs ds
  unfolding each_row
  each_row-perm {cs = cs} Permᴰ.nil h = (cs, h, Permᴰ.refl cs)
  each_row-perm (Permᴰ.cons {a = x} {l₁ = xs} q p) h =
      let (a, rest, first, others, same) = each_row-cons x xs h in
      let (ds, read, perm) = each_row-perm p others in
      (
        a ∷ ds,
        rw (ap f (sym q) ∙ first, read) refl,
        subst (λ l. Permᴰ l (a ∷ ds)) (sym same) (Permᴰ.cons refl perm),
      )
  each_row-perm (Permᴰ.swap {a = x} {b = y} {l = l} q q') h =
      let (a, tail, first, others, same) = each_row-cons x (y ∷ l) h in
      let (b, rest, second, last, same') = each_row-cons y l others in
      (
        b ∷ a ∷ rest,
        rw (ap f (sym q') ∙ second, ap f (sym q) ∙ first, last) refl,
        subst (λ l. Permᴰ l (b ∷ a ∷ rest)) (sym (same ∙ ap (◌∷◌ a) same')) (Permᴰ.swap refl refl),
      )
  each_row-perm (Permᴰ.trans p p') h =
      let (ds, read, perm) = each_row-perm p h in
      let (es, read', perm') = each_row-perm p' read in (es, read', Permᴰ.trans perm perm')

module _ (e : Env) where
  -- The entry that is read back of a signal.
  abbrev pub entry_of : ℕ → Bytes → Bytes → Bytes → OutboxSignal
  entry_of now fresh target raw = record {
    id = fresh;
    target_pub_key = target;
    signal_type = [];
    signal_from = nil_key;
    signal_id = nil_uuid;
    signal_content = raw;
    created_at = now - now % 1000000000;
    retry_count = 0;
  }

  opened_entry-outbox_row :
      (now b : ℕ) (fresh target rest secret encrypted : Bytes)
      → IsUuid fresh
      → IsKey target
      → b < 2
      → decrypt_raw e secret encrypted ≡ ok (b ∷ rest)
      → opened_entry e secret (outbox_row e now fresh target (b ∷ rest) encrypted)
        ≡ ok (entry_of now fresh target (b ∷ rest))
  unfolding opened_entry scanned_entry
  opened_entry-outbox_row now b fresh target rest secret encrypted u k first back =
      rw
        (
          e.unmarshal_signal-bad b rest first,
          scan_id-uuid_string e fresh u,
          from_hex-to_string e.hex target k,
          from_hex-to_string e.hex nil_key refl,
          scan_id-uuid_string e nil_uuid refl,
          e.parse_rfc3339-rfc3339 now,
          back,
        )
        refl

  or_fail-eq-ok :
      {A : Type 0} (o : Option A) (x : StoreError) {a : A} → or_fail o x ≡ ok a → o ≡ some a
  or_fail-eq-ok none x h = cc
  or_fail-eq-ok (some b) x h = ap some (ok-injective h)

  -- What is read of the entries of a peer is read of the rows of the peer.
  pub get_outbox-rows :
      (target secret : Bytes) (s : Store e) {entries : List OutboxSignal}
      → get_outbox e target secret s ≡ ok entries
      → (rows : List OutboxRow) × (e.outbox.of_target s.queue (to_string e.hex target) ≡ some rows)
        × (each_row (opened_entry e secret) rows ≡ ok entries)
  unfolding get_outbox
  get_outbox-rows target secret s h =
      let (rows, first, last) =
        bind-eq-ok (or_fail (e.outbox.of_target s.queue (to_string e.hex target)) query_failed) _
          h in
      (rows, or_fail-eq-ok _ query_failed first, last)

  pub get_outbox-of_rows :
      (target secret : Bytes) (s : Store e) (rows : List OutboxRow) {entries : List OutboxSignal}
      → e.outbox.of_target s.queue (to_string e.hex target) ≡ some rows
      → each_row (opened_entry e secret) rows ≡ ok entries
      → get_outbox e target secret s ≡ ok entries
  unfolding get_outbox
  get_outbox-of_rows target secret s rows h k = rw h k

  -- A signal or a chunk of a file, which begins with a byte below 2, is put into the outbox under a
  -- nonce of 12 bytes, or the statement fails and changes nothing. Where both queries answer, what
  -- could be read of the peer's entries before can be read again, with the new entry among them, in
  -- an order that is not fixed: the new entry has the bytes, but neither the type nor the sender nor
  -- the id of the signal.
  pub get_outbox-put_outbox :
      (nonce : Bytes) (now b : ℕ) (fresh target rest secret : Bytes) (old : List OutboxSignal)
      (s : Store e)
      → length nonce ≡ nonce_size
      → IsUuid fresh
      → IsKey target
      → b < 2
      → get_outbox e target secret s ≡ ok old
      → (put_outbox e nonce now fresh target (b ∷ rest) secret s ≡ (s, err exec_failed))
        ⊎ ((s' : Store e) × (put_outbox e nonce now fresh target (b ∷ rest) secret s
              ≡ (s', ok fresh))
            × (e.outbox.of_target s'.queue (to_string e.hex target) ≢ none
                → (entries : List OutboxSignal) × (get_outbox e target secret s' ≡ ok entries)
                  × Permᴰ (entry_of now fresh target (b ∷ rest) ∷ old) entries))
  unfolding put_outbox each_row
  get_outbox-put_outbox nonce now b fresh target rest secret old s h u k first before =
      let (encrypted, sealed, back) = decrypt_raw-encrypt_raw e secret nonce (b ∷ rest) h in
      let row = outbox_row e now fresh target (b ∷ rest) encrypted in
      elim (Option-cases (e.outbox.insert s.queue row)) [
        | inl gone ↦ inl (rw (sealed, gone) refl)
        | inr (q, there) ↦ inr (
          record s { queue = q },
          rw (sealed, there) refl,
          λ alive.
              let (old_rows, there_before, read) = get_outbox-rows target secret s before in
              let (rows, there_now) =
                answered (e.outbox.of_target q (to_string e.hex target)) alive in
              let (entries, again, perm) =
                each_row-perm (opened_entry e secret)
                  (e.outbox.of_target-insert s.queue q row old_rows rows there there_before
                    there_now)
                  (rw
                    (
                      opened_entry-outbox_row now b fresh target rest secret encrypted u k first
                          back,
                      read,
                    )
                    refl) in
              (
                entries,
                get_outbox-of_rows target secret (record s { queue = q }) rows there_now again,
                perm,
              ),
        )
      ]
    where
      answered :
          (o : Option (List OutboxRow)) → o ≢ none → (rows : List OutboxRow) × (o ≡ some rows)
      answered none h = absurd (h refl)
      answered (some rows) h = (rows, refl)
