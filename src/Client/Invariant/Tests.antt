-- ===== src/Client/Invariant/Tests.antt =====
-- client/handlers.go on the toy client: bob sends what is no packet, and is gone.
use end_to_end_chat.Base.{refl, Bytes, List, [], ◌∷◌}
use end_to_end_chat.Store.Defs.{Draws}
use end_to_end_chat.Store.Peers.{accepted}
use end_to_end_chat.Store.Sample.{toy_env}
use end_to_end_chat.Message.Sample.{key}
use end_to_end_chat.Message.Repository.Sample.{holding}
use end_to_end_chat.Message.Repository.Coherent.{Coherent}
use end_to_end_chat.Client.State.{Client}
use end_to_end_chat.Client.Loop.{read_loop}
use end_to_end_chat.Client.Invariant.{read_loop-IsSound}
use end_to_end_chat.Client.Sample.{open_net, draws, client_with}

abbrev junk : List (Draws × Bytes)
junk = (draws, 1 ∷ 2 ∷ []) ∷ (draws, []) ∷ []

abbrev gone : Client toy_env
gone = (read_loop toy_env open_net junk 9 0 key (client_with accepted holding.0)).0

read_loop-IsSound_example : Coherent toy_env gone.private gone.store
read_loop-IsSound_example =
    read_loop-IsSound toy_env open_net junk 9 0 key (client_with accepted holding.0)
      (refl, (refl, tt)) holding.1
