-- ===== src/Message/Search/Tests.antt =====
-- message/message.go on the toy database: a search with two hits, of which one has no id.
use end_to_end_chat.Base.{
  ℕ, ◌≡◌, refl, ◌==◌, Bytes, List, [], ◌∷◌, Option, none, some, length, if◌then◌else◌,
}
use end_to_end_chat.Base.Outcome.{ok}
use end_to_end_chat.Signal.Defs.{ascii}
use end_to_end_chat.Store.Defs.{Store}
use end_to_end_chat.Store.Sample.{toy_env}
use end_to_end_chat.Message.Sample.{id}
use end_to_end_chat.Message.Repository.Loads.{Kept}
use end_to_end_chat.Message.Repository.Sample.{secret, holding, alive}
use end_to_end_chat.Message.Search.{search}
use end_to_end_chat.Message.Search.Hits.{hits, search-hits}

abbrev two_rows : toy_env.db.State → Bytes → ℕ → Option (List Bytes)
two_rows tables query limit = some (id ∷ ascii "?" ∷ [])

abbrev toy_parse : Bytes → Option Bytes
toy_parse text = if length text == 16 then some text else none

search-hits_example :
    (s' : Store toy_env) × (search toy_env two_rows toy_parse 7 secret (ascii "hi") 50 holding.0
      ≡ (s', ok (hits toy_env two_rows toy_parse 7 secret holding.0 (id ∷ ascii "?" ∷ []))))
    × Kept toy_env secret holding.0 s'
search-hits_example =
    search-hits toy_env two_rows toy_parse 7 secret (ascii "hi") 50 holding.0 (id ∷ ascii "?" ∷ [])
      refl refl holding.1 ((alive holding.0 id, λ p q. cc (q, holding.2)), (tt, tt))
