-- ===== src/Message/Repository/Refinement.antt =====
-- message/message.go: the repository as a table of messages. `Put`, `Get`, `Update` and `Delete` in
-- any order do what the same commands do to a function from ids to messages, save that a statement
-- of the database can fail and change nothing.
mod Tests
use end_to_end_chat.Base.{
  ℕ, pos, ◌≡◌, ◌≢◌, refl, sym, ap, subst, ◌∙◌, ◌<◌, ◌^◌, Bytes, List, [], ◌∷◌, Option, none, some,
  length, inl, inr, ◌⊎◌, Bool, true, false, Bool-cases, Option-cases, All, bytes_eq, if◌then◌else◌,
}
use end_to_end_chat.Base.Outcome.{Outcome, ok, err, map_err}
use end_to_end_chat.Base.Outcome
use end_to_end_chat.Base.Op.{Op, after, ◌>>=◌, ◌>>◌, return}
use end_to_end_chat.Config.{nonce_size}
use end_to_end_chat.Store.Defs.{Draws, Env, Store, StoreError, failed, not_exist, exec_failed}
use end_to_end_chat.Store.Writes.{answer}
use end_to_end_chat.Message.Defs.{Message, IsEncodable}
use end_to_end_chat.Message.Repository
use end_to_end_chat.Message.Repository.{RepositoryError, stored, stored_id}
use end_to_end_chat.Message.Repository.Coherent.{Coherent, get-answer}
use end_to_end_chat.Message.Repository.Reads.{get-uncached}
use end_to_end_chat.Message.Repository.Changes.{Becomes}
use end_to_end_chat.Message.Repository.Loads.{Kept, Kept-answer, get-Kept, get-Kept_same}
use end_to_end_chat.Message.Repository.Puts.{put-Becomes}
use end_to_end_chat.Message.Repository.Updates.{updated, update-Becomes}
use end_to_end_chat.Message.Repository.Deletes.{delete-Becomes}
use end_to_end_chat.Message.Repository.Missing.{update-missing, delete-missing}
use end_to_end_chat.Message.Repository.Commands.{
  Command, put_message, get_message, update_message, delete_message, Reply, stored_at, message_is,
  done, Result, Messages, with_message, found_message, meant, is_write, IsCall, Runs, finished,
  as_meant, refused,
}

after-ok :
    {S E A B : Type 0} (p : S × Outcome E A) (f : A → Op S E B) {a : A}
    → p.1 ≡ ok a
    → after p f ≡ f a p.0
after-ok p f h = rw h refl

after-err :
    {S E A B : Type 0} (p : S × Outcome E A) (f : A → Op S E B) {x : E}
    → p.1 ≡ err x
    → after p f ≡ (p.0, err x)
after-err p f h = rw h refl

module _ (e : Env) (secret : Bytes) where
  -- The code.
  abbrev pub perform : Command → Op (Store e) RepositoryError Reply
  perform (put_message d from_name msg) = do
    id ← Repository.put e d.nonce d.now d.fresh secret from_name msg
    return (stored_at id)
  perform (get_message now id) = do msg ← Repository.get e now secret id; return (message_is msg)
  perform (update_message d from_name id msg) = do
    Repository.update e d.nonce d.now secret id from_name msg
    return done
  perform (delete_message now id) = do Repository.delete e now secret id; return done

  abbrev pub perform_all : List Command → Store e → Store e × List Result
  perform_all [] s = (s, [])
  perform_all (c ∷ cs) s =
      let (s', r) = perform c s in let (s'', rs) = perform_all cs s' in (s'', r ∷ rs)

  -- The store stands for the messages: `Get` says of every id what is there, at any time.
  pub record Stands (s : Store e) (m : Messages) : Type 0 where
    pub coherent : Coherent e secret s
    pub reads : (now : ℕ) (id : Bytes) → (Repository.get e now secret id s).1 ≡ found_message (m id)

  module _ (alive : (s : Store e) (id : Bytes) → answer e id s ≢ failed) where
    Stands-Kept : {s s' : Store e} {m : Messages} → Stands s m → Kept e secret s s' → Stands s' m
    Stands-Kept {s} {s'} {m} b kept = record {
      coherent = kept.coherent;
      reads = λ now id. get-Kept_same e secret now id kept b.coherent (alive s id) ∙ b.reads now id;
    }

    -- The answers of the database are the same.
    Stands-answers :
        {s s' : Store e} {m : Messages}
        → Stands s m
        → Coherent e secret s'
        → ((id : Bytes) → answer e id s' ≡ answer e id s)
        → Stands s' m
    Stands-answers {s} {s'} {m} b c same = record {
      coherent = c;
      reads = λ now id.
          get-uncached e secret now id s' c (alive s' id)
          ∙ ap
              (λ (q : Outcome StoreError Bytes).
                Outcome.◌>>=◌ (map_err stored q) (Repository.decoded e id))
              (get-answer e secret id s s' (same id))
          ∙ sym (get-uncached e secret now id s b.coherent (alive s id))
          ∙ b.reads now id;
    }

    Stands-Becomes :
        {s s' : Store e} {m : Messages} (id : Bytes) (o : Option Message)
        → Stands s m
        → Coherent e secret s'
        → Becomes e secret s s' id (found_message o)
        → Stands s' (with_message id o m)
    Stands-Becomes {s} {s'} {m} id o b c becomes = record { coherent = c; reads = reads }
      where
        reads :
            (now : ℕ) (id' : Bytes)
            → (Repository.get e now secret id' s').1 ≡ found_message (with_message id o m id')
        reads now id' = elim (Bool-cases (bytes_eq id id')) [
          | inl same ↦ becomes now id' (alive s' id') ∙ rw same refl
          | inr other ↦ becomes now id' (alive s' id') ∙ rw other (b.reads now id')
        ]

    -- One command.
    pub record Performed (c : Command) (s : Store e) (m : Messages) : Type 0 where
      pub after : Messages
      pub stands : Stands (perform c s).0 after
      pub as_allowed :
          (meant c m ≡ (after, (perform c s).1))
          ⊎ ((is_write c ≡ true) × ((perform c s).1 ≡ err (stored exec_failed)) × (after ≡ m))

    got :
        (now : ℕ) (id : Bytes) (s : Store e) (m : Messages) (o : Option Message)
        → m id ≡ o
        → Stands s m
        → Performed (get_message now id) s m
    got now id s m none q b = record {
      after = m;
      stands =
          rw (after-err (Repository.get e now secret id s) _ (b.reads now id ∙ ap found_message q))
            (Stands-Kept b (get-Kept e secret now id s b.coherent));
      as_allowed = inl (
          rw
            (
              after-err (Repository.get e now secret id s) _ (b.reads now id ∙ ap found_message q),
              q,
            )
            refl);
    }
    got now id s m (some msg) q b = record {
      after = m;
      stands =
          rw (after-ok (Repository.get e now secret id s) _ (b.reads now id ∙ ap found_message q))
            (Stands-Kept b (get-Kept e secret now id s b.coherent));
      as_allowed = inl (
          rw
            (after-ok (Repository.get e now secret id s) _ (b.reads now id ∙ ap found_message q), q)
            refl);
    }

    replaced :
        (d : Draws) (from_name id : Bytes) (msg : Message) (s : Store e) (m : Messages)
        (o : Option Message)
        → length d.nonce ≡ nonce_size
        → d.now < 2 ^ 63
        → IsEncodable msg
        → m id ≡ o
        → Stands s m
        → Performed (update_message d from_name id msg) s m
    replaced d from_name id msg s m none nonce early fits q b =
        let (s', gone, kept) =
          update-missing e secret d.nonce d.now id from_name msg s early fits b.coherent
            (alive s id) (b.reads d.now id ∙ ap found_message q) in
        record {
          after = m;
          stands = rw gone (Stands-Kept b kept);
          as_allowed = inl (rw (gone, q) refl);
        }
    replaced d from_name id msg s m (some old) nonce early fits q b =
        elim (update-Becomes e secret d.nonce d.now id from_name msg old s nonce early fits
          b.coherent (alive s id) (b.reads d.now id ∙ ap found_message q)) [
            | inl (s', gone, kept) ↦ record {
              after = m;
              stands = rw gone (Stands-Kept b kept);
              as_allowed = inr (refl, rw gone refl, refl);
            }
            | inr (s', written, clean, becomes) ↦ record {
              after =
                  with_message id (some (record (updated e secret d.now old msg) { id = id })) m;
              stands = rw written (
                  Stands-Becomes id (some (record (updated e secret d.now old msg) { id = id })) b
                    clean becomes);
              as_allowed = inl (rw (written, q) refl);
            }
          ]

    removed :
        (now : ℕ) (id : Bytes) (s : Store e) (m : Messages) (o : Option Message)
        → m id ≡ o
        → Stands s m
        → Performed (delete_message now id) s m
    removed now id s m none q b =
        elim (delete-missing e secret now id s b.coherent (alive s id)
          (b.reads now id ∙ ap found_message q)) [
            | inl (s', gone, kept) ↦ record {
              after = m;
              stands = rw gone (Stands-Kept b kept);
              as_allowed = inr (refl, rw gone refl, refl);
            }
            | inr (s', deleted, clean, becomes) ↦ record {
              after = with_message id none m;
              stands = rw deleted (Stands-Becomes id none b clean becomes);
              as_allowed = inl (rw deleted refl);
            }
          ]
    removed now id s m (some old) q b =
        elim (delete-Becomes e secret now id old s b.coherent
          (b.reads now id ∙ ap found_message q)) [
            | inl (s', gone, clean, same) ↦ record {
              after = m;
              stands = rw gone (Stands-answers b clean same);
              as_allowed = inr (refl, rw gone refl, refl);
            }
            | inr (s', deleted, clean, becomes) ↦ record {
              after = with_message id none m;
              stands = rw deleted (Stands-Becomes id none b clean becomes);
              as_allowed = inl (rw deleted refl);
            }
          ]

    step :
        (c : Command) (cs : List Command) (m m' n : Messages) (r : Result) (rs : List Result)
        → (meant c m ≡ (m', r)) ⊎ ((is_write c ≡ true) × (r ≡ err (stored exec_failed)) × (m' ≡ m))
        → Runs cs m' rs n
        → Runs (c ∷ cs) m (r ∷ rs) n
    step c cs m m' n r rs (inl same) rest = as_meant same rest
    step c cs m m' n r rs (inr (write, gone, same)) rest =
        subst (λ r. Runs (c ∷ cs) m (r ∷ rs) n) (sym gone)
          (refused write (subst (λ k. Runs cs k rs n) same rest))

    perform-Performed :
        (c : Command) (s : Store e) (m : Messages) → IsCall c → Stands s m → Performed c s m
    perform-Performed (put_message d from_name msg) s m (nonce, fits) b =
        elim (put-Becomes e d.nonce d.now d.fresh secret from_name msg s nonce fits b.coherent) [
          | inl gone ↦ record {
            after = m;
            stands = rw gone b;
            as_allowed = inr (refl, rw gone refl, refl);
          }
          | inr (s', written, clean, becomes) ↦ record {
            after = (meant (put_message d from_name msg) m).0;
            stands = rw written (
                Stands-Becomes (stored_id d.fresh msg)
                  (some (record msg { id = stored_id d.fresh msg })) b clean becomes);
            as_allowed = inl (rw written refl);
          }
        ]
    perform-Performed (get_message now id) s m _ b = got now id s m (m id) refl b
    perform-Performed (update_message d from_name id msg) s m (nonce, early, fits) b =
        replaced d from_name id msg s m (m id) nonce early fits refl b
    perform-Performed (delete_message now id) s m _ b = removed now id s m (m id) refl b

    -- The queries of the database answer, the calls draw nonces of 12 bytes and take times in the
    -- range of int64 and messages whose fields fit, and the store stands for a table of messages.
    -- Then the results of the calls, whatever they are and in whatever order they come, are those
    -- that the table would give, where a write can fail with its statement and then changes nothing;
    -- and the store stands for the table that the calls lead to.
    pub perform_all-Runs :
        (cs : List Command) (s : Store e) (m : Messages)
        → All IsCall cs
        → Stands s m
        → (n : Messages) × Runs cs m (perform_all cs s).1 n × Stands (perform_all cs s).0 n
    perform_all-Runs [] s m calls b = (m, finished, b)
    perform_all-Runs (c ∷ cs) s m calls b =
        let one = perform-Performed c s m calls.0 b in
        let (n, rest, at_end) = perform_all-Runs cs (perform c s).0 one.after calls.1 one.stands in
        (
          n,
          step c cs m one.after n (perform c s).1 (perform_all cs (perform c s).0).1 one.as_allowed
              rest,
          at_end,
        )
