-- ===== src/Client/Http.antt =====
-- client/handlers.go and client/api.go: what the handlers of HTTP requests have in common. A handler
-- is given what was parsed of its request, and ends with its reply or with an error of HTTP.
use end_to_end_chat.Base.{Option, none, some}
use end_to_end_chat.Base.Outcome.{Outcome, ok, err, panic, map_err}
use end_to_end_chat.Base.Op.{Op}
use end_to_end_chat.Store.Defs.{Env, Store}
use end_to_end_chat.Client.State.{Client, Handler}

-- The status of `http.Error`, or what the upgrade to a websocket wrote.
pub data HttpError : Type 0 where
  bad_request forbidden not_found conflict internal_server_error bad_gateway : HttpError
  upgrade_failed : HttpError

-- Any error as the error of HTTP.
abbrev pub or_status : {E A : Type 0} → HttpError → Outcome E A → Outcome HttpError A
or_status x r = map_err (λ _. x) r

abbrev pub present : {A : Type 0} → HttpError → Option A → Outcome HttpError A
present x none = err x
present x (some a) = ok a

abbrev pub settled : {S E F A : Type 0} → S × Outcome E A → S × Outcome F (Option A)
settled (s, ok a) = (s, ok (some a))
settled (s, err _) = (s, ok none)
settled (s, panic p) = (s, panic p)

abbrev pub kept : {S E F A : Type 0} → S × Outcome E A → S × Outcome F (Outcome E A)
kept (s, ok a) = (s, ok (ok a))
kept (s, err x) = (s, ok (err x))
kept (s, panic p) = (s, panic p)

module _ (e : Env) where
  abbrev pub Api : Type 0 → Type 0
  Api A = Op (Client e) HttpError A

  abbrev pub store_or : {E A : Type 0} → HttpError → (Client e → Op (Store e) E A) → Api A
  store_or x m c = let (s, r) = m c c.store in (record c { store = s }, or_status x r)

  -- A part whose error is logged or dropped.
  abbrev pub quietly : {A : Type 0} → Handler e A → Api (Option A)
  quietly m = λ c. settled (m c)

  -- A part that writes its reply, behind which the handler goes on.
  abbrev pub replied : {A : Type 0} → Api A → Api (Outcome HttpError A)
  replied m = λ c. kept (m c)
