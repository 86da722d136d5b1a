-- ===== src/Signal/Tests.antt =====
-- signal/signal.go on concrete envelopes.
use end_to_end_chat.Base.{◌≡◌, refl, ◌∷◌, [], ◌++◌, Bytes, arith, replicate}
use end_to_end_chat.Base.Outcome.{ok}
use end_to_end_chat.Signal.Defs.{ascii, message}
use end_to_end_chat.Signal.New.{new}
use end_to_end_chat.Signal.Parse.{parse}
use end_to_end_chat.Signal.RoundTrip.{parse-new}

abbrev key : Bytes
key = replicate 32 7

abbrev id : Bytes
id = replicate 16 3

parse-new_example :
    (wire : Bytes) × (new message key id (ascii "hi") ≡ ok wire)
    × (parse (wire ++ (9 ∷ []))
        ≡ ok (record { typ = message; from = key; id = id; content = ascii "hi" }))
parse-new_example =
    parse-new message key id (ascii "hi") (9 ∷ []) (omega arith) (omega arith) refl refl
