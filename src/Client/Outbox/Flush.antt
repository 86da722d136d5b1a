-- ===== src/Client/Outbox/Flush.antt =====
-- client/client.go: what `flushOutbox` sends, and what it leaves in the outbox.
use mathlib.Core.List.{Permᴰ}
use end_to_end_chat.Base.{
  ℕ, ◌+◌, ◌≡◌, ◌≢◌, refl, sym, ap, ◌∙◌, subst, Bytes, List, [], ◌∷◌, ◌++◌, map, append_assoc,
  append-nil, some, inl, inr, ◌⊎◌,
}
use end_to_end_chat.Base.Outcome.{ok, err, panic, Panic, ok-injective}
use end_to_end_chat.Keys.Defs.{to_string}
use end_to_end_chat.Store.Defs.{Env, OutboxRow, rows_but, counted}
use end_to_end_chat.Store.Outbox.{
  OutboxSignal, opened_entry, each_row, get_outbox, delete_entry, increment_retry, queued,
}
use end_to_end_chat.Store.Outbox.Laws.{each_row-cons, each_row-perm, get_outbox-of_rows}
use end_to_end_chat.Client.Session.Defs.{Session, SessionError}
use end_to_end_chat.Client.Session.Cipher.{send}
use end_to_end_chat.Client.State.{Client, Net, Warning, then_do, on_store, send_to}
use end_to_end_chat.Client.Sends.{send_to-cases}
use end_to_end_chat.Client.Outbox.{after_entry, flush_entries}
use end_to_end_chat.Store.Outbox.Rows.{
  IsQueue, Answers, rows_but-head, rows_but-perm, counted-head, counted-perm, opened_entry-id,
  opened_entry-raised, there_of,
}

module _ (e : Env) where
  -- The retry count of the entry whose sending failed.
  abbrev pub retried : List OutboxSignal → List OutboxSignal
  retried [] = []
  retried (a ∷ entries) = record a { retry_count = a.retry_count + 1 } ∷ entries

  abbrev pub sent_on : ℕ → List OutboxSignal → List (ℕ × Bytes)
  sent_on h entries = map (λ a. (h, a.signal_content)) entries

  -- The session behind sending the entries.
  unfoldable pub session_behind : Net → ℕ → List OutboxSignal → Session → Session
  session_behind net h [] s = s
  session_behind net h (a ∷ entries) s =
      session_behind net h entries (send e.crypto (net h) s a.signal_content).0

  -- The session refuses the first entry of the list.
  abbrev pub Refused : Net → ℕ → Session → List OutboxSignal → Type 0
  Refused net h s [] = ⊥
  Refused net h s (a ∷ entries) =
      (x : SessionError) × ((send e.crypto (net h) s a.signal_content).1 ≡ err x)

  -- The state of the outbox behind a statement on an entry.
  abbrev queue_changed : Client e → e.outbox.State → Client e
  queue_changed c q = record c { store = record c.store { queue = q } }

  flush_entries-sent :
      (net : Net) (h : ℕ) (a : OutboxSignal) (tail : List OutboxSignal) (c c₁ : Client e)
      {q : e.outbox.State}
      → send_to e net h a.signal_content c ≡ (c₁, ok tt)
      → e.outbox.delete c₁.store.queue (e.uuid_string a.id) ≡ some q
      → flush_entries e net h (a ∷ tail) c ≡ flush_entries e net h tail (queue_changed c₁ q)
  unfolding flush_entries after_entry on_store delete_entry queued then_do
  flush_entries-sent net h a tail c c₁ sent gone = rw (sent, gone) refl

  flush_entries-refused :
      (net : Net) (h : ℕ) (a : OutboxSignal) (tail : List OutboxSignal) (c c₁ : Client e)
      {q : e.outbox.State} {w : Warning}
      → send_to e net h a.signal_content c ≡ (c₁, err w)
      → e.outbox.increment c₁.store.queue (e.uuid_string a.id) ≡ some q
      → flush_entries e net h (a ∷ tail) c ≡ (queue_changed c₁ q, ok tt)
  unfolding flush_entries after_entry on_store increment_retry queued then_do
  flush_entries-refused net h a tail c c₁ refused raised = rw (refused, raised) refl

  module _ (net : Net) (h : ℕ) (target secret : Bytes) where
    -- `done` has been sent and is gone, `left` is still there.
    pub record Flushed (entries : List OutboxSignal) (c c' : Client e) : Type 0 where
      pub done : List OutboxSignal
      pub left : List OutboxSignal
      pub split : entries ≡ done ++ left
      pub log : c'.sent ≡ c.sent ++ sent_on h done
      pub queue :
          (entries' : List OutboxSignal) × (get_outbox e target secret c'.store ≡ ok entries')
          × Permᴰ (retried left) entries'
      pub whole : (left ≡ []) ⊎ Refused net h (session_behind net h done (c.objects h)) left

  module _ (net : Net) (h : ℕ) (target secret : Bytes) (ready : Answers e)
      (calm : (p : Bytes) (q : Panic) → net h p ≢ panic q) where
    -- What is read of the rows, in the order in which the query gives them.
    read_again :
        (rows rows' : List OutboxRow) (c : Client e) {entries : List OutboxSignal}
        → e.outbox.of_target c.store.queue (to_string e.hex target) ≡ some rows'
        → Permᴰ rows rows'
        → each_row (opened_entry e secret) rows ≡ ok entries
        → (entries' : List OutboxSignal) × (get_outbox e target secret c.store ≡ ok entries')
          × Permᴰ entries entries'
    read_again rows rows' c there perm read =
        let (entries', again, same) = each_row-perm (opened_entry e secret) perm read in
        (entries', get_outbox-of_rows e target secret c.store rows' there again, same)

    pub flush_entries-Flushed :
        (rows there_now : List OutboxRow) (entries : List OutboxSignal) (c : Client e)
        → IsQueue e rows
        → e.outbox.of_target c.store.queue (to_string e.hex target) ≡ some there_now
        → Permᴰ rows there_now
        → each_row (opened_entry e secret) rows ≡ ok entries
        → (c' : Client e) × (flush_entries e net h entries c ≡ (c', ok tt))
          × Flushed net h target secret entries c c'
    unfolding flush_entries each_row session_behind
    flush_entries-Flushed [] there_now entries c _ there perm read = (
      c,
      ap (λ (l : List OutboxSignal). flush_entries e net h l c) (sym (ok-injective read)),
      record {
        done = [];
        left = [];
        split = sym (ok-injective read);
        log = sym (append-nil c.sent);
        queue = read_again [] there_now c there perm refl;
        whole = inl refl;
      },
    )
    flush_entries-Flushed (r ∷ rows) there_now entries c ((u, fits, text), absent, rest) there perm
          read =
        let (a, tail, first, others, same) = each_row-cons (opened_entry e secret) r rows read in
        let key : e.uuid_string a.id ≡ r.id =
          ap e.uuid_string (opened_entry-id e secret r u fits text first) ∙ sym text in
        elim (send_to-cases e net h a.signal_content c calm) [
          | inl (c₁, sent, log, store, held) ↦
              let (q, gone) = there_of e _ (ready.deletes c₁.store.queue (e.uuid_string a.id)) in
              let (now, answer) = there_of e _ (ready.reads q (to_string e.hex target)) in
              let still =
                e.outbox.of_target-delete c₁.store.queue q (e.uuid_string a.id)
                  (to_string e.hex target) there_now now gone (rw store there) answer in
              let (c', run, flushed) =
                flush_entries-Flushed rows now tail (queue_changed c₁ q) rest answer
                  (Permᴰ.trans
                    (subst (λ l. Permᴰ l (rows_but (e.uuid_string a.id) there_now))
                      (rows_but-head e _ r rows key absent)
                      (rows_but-perm e (e.uuid_string a.id) perm))
                    still)
                  others in
              (
                c',
                ap (λ l. flush_entries e net h l c) same
                    ∙ flush_entries-sent net h a tail c c₁ sent gone
                    ∙ run,
                record {
                  done = a ∷ flushed.done;
                  left = flushed.left;
                  split = same ∙ ap (◌∷◌ a) flushed.split;
                  log =
                      flushed.log
                      ∙ ap (λ l. l ++ sent_on h flushed.done) log
                      ∙ append_assoc c.sent ((h, a.signal_content) ∷ []) (sent_on h flushed.done);
                  queue = flushed.queue;
                  whole = elim flushed.whole [
                    | inl none_left ↦ inl none_left
                    | inr why ↦ inr (
                        subst
                          (λ s. Refused net h (session_behind net h flushed.done s) flushed.left)
                          held why)
                  ];
                },
              )
          | inr (c₁, x, refused, log, store, why) ↦
              let (q, raised) =
                there_of e _ (ready.increments c₁.store.queue (e.uuid_string a.id)) in
              let (now, answer) = there_of e _ (ready.reads q (to_string e.hex target)) in
              let still =
                e.outbox.of_target-increment c₁.store.queue q (e.uuid_string a.id)
                  (to_string e.hex target) there_now now raised (rw store there) answer in
              (
                queue_changed c₁ q,
                ap (λ l. flush_entries e net h l c) same
                    ∙ flush_entries-refused net h a tail c c₁ refused raised,
                record {
                  done = [];
                  left = a ∷ tail;
                  split = same;
                  log = log ∙ sym (append-nil c.sent);
                  queue =
                      read_again (record r { retry_count = r.retry_count + 1 } ∷ rows) now
                        (queue_changed c₁ q) answer
                        (Permᴰ.trans
                          (subst (λ l. Permᴰ l (counted (e.uuid_string a.id) there_now))
                            (counted-head e _ r rows key absent)
                            (counted-perm e (e.uuid_string a.id) perm))
                          still)
                        (rw (opened_entry-raised e secret r first, others) refl);
                  whole = inr (x, why);
                },
              )
        ]
