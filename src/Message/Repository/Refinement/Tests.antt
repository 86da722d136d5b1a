-- ===== src/Message/Repository/Refinement/Tests.antt =====
-- message/message.go on the toy database: a message is put, read, deleted and asked for again.
use end_to_end_chat.Base.{refl, List, [], ◌∷◌, none}
use end_to_end_chat.Signal.Defs.{ascii}
use end_to_end_chat.Store.Defs.{Draws}
use end_to_end_chat.Store.Sample.{toy_env, empty_store}
use end_to_end_chat.Message.Sample.{id, greeting, greeting-IsEncodable}
use end_to_end_chat.Message.Repository.Reads.{get-missing}
use end_to_end_chat.Message.Repository.Sample.{secret, nonce, fresh, empty-Coherent, alive}
use end_to_end_chat.Message.Repository.Commands.{
  Command, Messages, Runs, put_message, get_message, delete_message,
}
use end_to_end_chat.Message.Repository.Refinement.{Stands, perform_all, perform_all-Runs}

abbrev draws : Draws
draws = record { nonce = nonce; fresh = fresh; now = 5 }

abbrev calls : List Command
calls =
    put_message draws (ascii "bob") greeting
    ∷ get_message 6 id
    ∷ delete_message 7 id
    ∷ get_message 8 id
    ∷ []

empty-Stands : Stands toy_env secret empty_store (λ k. none)
empty-Stands = record {
  coherent = empty-Coherent;
  reads = λ now k. get-missing toy_env secret now k empty_store empty-Coherent refl;
}

perform_all-Runs_example :
    (n : Messages) × Runs calls (λ k. none) (perform_all toy_env secret calls empty_store).1 n
    × Stands toy_env secret (perform_all toy_env secret calls empty_store).0 n
perform_all-Runs_example =
    perform_all-Runs toy_env secret alive calls empty_store (λ k. none)
      ((refl, greeting-IsEncodable), (tt, (tt, (tt, tt)))) empty-Stands
