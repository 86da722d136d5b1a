-- ===== src/Client/Api/Profile.antt =====
-- client/api.go: the handlers for the profile of the client, and client/client.go: what `New` does
-- to it.
use end_to_end_chat.Base.{
  ℕ, Bytes, List, Bool, true, false, [], ◌==◌, ◌||◌, not, if◌then◌else◌, Option, none, some, length,
  bytes_eq,
}
use end_to_end_chat.Base.Outcome.{ok}
use end_to_end_chat.Base.Op.{◌>>=◌, ◌>>◌, return, lift, modify}
use end_to_end_chat.Signal.Defs.{nil_uuid}
use end_to_end_chat.Store.Defs.{Draws, Env}
use end_to_end_chat.Store.Files.{put_file, delete_file}
use end_to_end_chat.Store.Profile.{update_profile}
use end_to_end_chat.Client.State.{Client, Net, on_store, store_failed}
use end_to_end_chat.Client.Peers.{info, get_name}
use end_to_end_chat.Client.Broadcasts.{set_name, broadcast_info_changed}
use end_to_end_chat.Client.Http.{Api, present, store_or, quietly, internal_server_error}

-- The file of the form: none, or what `ReadAll` gives of it.
abbrev pub FormPicture : Type 0
FormPicture = Option (Option Bytes)

module _ (e : Env) where
  -- The old picture, if there is one, is deleted.
  unfoldable pub without_picture : Bytes → Client e → Client e
  without_picture old c =
      if bytes_eq old nil_uuid then c else record c { store = delete_file e old c.store }

  -- `New` with a name: the profile gets it, and no picture.
  unfoldable pub new_profile : Bytes → Api e (Unit {0})
  new_profile name = if length name == 0 then return tt else (do
    _ ← quietly e (on_store e store_failed λ c. update_profile e name nil_uuid)
    return tt)

  rename : Bytes → Api e (Unit {0})
  rename name =
      if length name == 0 then return tt else (do _ ← quietly e (set_name e name); return tt)

  replace_picture : Draws → Bytes → Api e (Unit {0})
  replace_picture d contents = do
    old ← (λ c. (c, ok (info e c).profile_pic))
    store_or e internal_server_error λ c. put_file e d.nonce d.now c.private d.fresh [] contents
    modify (without_picture old)
    name ← (λ c. (c, ok (get_name e c)))
    _ ← quietly e (on_store e store_failed λ c. update_profile e name d.fresh)
    return tt

  unfoldable pub with_picture : Draws → FormPicture → Api e (Unit {0})
  unfolding replace_picture
  with_picture d none = return tt
  with_picture d (some contents) = do
    contents ← lift (present internal_server_error contents)
    replace_picture d contents

  abbrev pub is_there : FormPicture → Bool
  is_there none = false
  is_there (some _) = true

  -- `adminUpdateProfile` of a form.
  unfoldable pub admin_update_profile :
      Net → List (Draws × ℕ) → Draws → Bytes → FormPicture → Api e (Unit {0})
  unfolding rename with_picture
  admin_update_profile net visits d name pic = do
    rename name
    with_picture d pic
    (if not (length name == 0) || is_there pic
        then (do _ ← quietly e (broadcast_info_changed e net visits); return tt)
        else return tt)

  unfoldable pub admin_delete_profile_pic : Net → List (Draws × ℕ) → Api e (Unit {0})
  unfolding without_picture
  admin_delete_profile_pic net visits = do
    old ← (λ c. (c, ok (info e c).profile_pic))
    modify (without_picture old)
    name ← (λ c. (c, ok (get_name e c)))
    _ ← quietly e (on_store e store_failed λ c. update_profile e name nil_uuid)
    _ ← quietly e (broadcast_info_changed e net visits)
    return tt
