-- ===== src/Handler.antt =====
-- ne_server/nethreadedhandlerobj.h and .cpp with neusermsgobj.h: the queue of messages of one handler
-- thread, and one turn of that thread, which holds the lock of the queue. The message handlers and
-- the life locks that a turn calls are an interface over the state of the server. Logging is left
-- out.
pub mod Turns
mod Tests
use neshare.Base.{
  ℕ, Bool, true, false, ◌&&◌, not, List, [], ◌∷◌, ◌++◌, Option, none, some, ◌==◌, if◌then◌else◌,
  nat_key, Bytes,
}

-- `neUserMsgObj`, where `common_msg` is the buffer of the message
pub record UserMsg : Type 0 where
  pub user : ℕ
  pub common_msg : Bytes
  pub msg_type : ℕ
  pub error_msg : Bytes

-- `NE_TH_UNKNOWN` and the other states of a handler
pub data HandlerState : Type 0 where
  unknown terminated running cancelled : HandlerState

-- The values of `dispatchMessageHandler`, `NE_TH_USER_OK` and the others
pub data Verdict : Type 0 where
  user_ok user_failed user_remove user_force : Verdict

pub record Handler : Type 0 where
  pub id : Option ℕ
  pub state : HandlerState
  pub msg_queue : List UserMsg

-- What a turn calls: the users (neuser.h), their life locks (neusermanager.h), and the handlers of
-- neserverutils.cpp.
pub record Server : Type 1 where
  pub State : Type 0
  pub is_disconnecting : State → ℕ → Bool
  pub set_disconnecting : State → ℕ → State
  pub lock_user_life : State → ℕ → State
  pub unlock_user_life : State → ℕ → State
  pub handle_entry_set_start : State → UserMsg → Verdict × State
  pub handle_entry : State → UserMsg → Verdict × State
  pub handle_entry_set_end : State → UserMsg → Verdict × State
  pub handle_pong : State → UserMsg → Verdict × State
  pub handle_search_query : State → UserMsg → Verdict × State
  pub handle_push_request : State → UserMsg → Verdict × State
  pub handle_disconnect : State → UserMsg → State
  pub handle_forced_disconnect : State → UserMsg → State

unfoldable pub new : Handler
new = record { id = none; state = unknown; msg_queue = [] }

-- `stop` and `cancel`
unfoldable pub stop : Handler → Handler
stop h = record h { state = cancelled }

unfoldable pub cancel : Handler → Handler
cancel h = record h { state = terminated }

-- The first loop of `removeUserFromMsgQueue`: what is kept goes to the temporary vector.
unfoldable pub stash : ℕ → List UserMsg → List UserMsg → List UserMsg
stash user [] kept = kept
stash user (msg ∷ queue) kept =
    stash user queue (if msg.user == user then kept else kept ++ msg ∷ [])

-- The second loop: back into the queue.
unfoldable pub put_back : List UserMsg → List UserMsg → List UserMsg
put_back [] queue = queue
put_back (msg ∷ kept) queue = put_back kept (queue ++ msg ∷ [])

-- `removeUserFromMsgQueue`
unfoldable pub remove_user_from_msg_queue : Handler → ℕ → Handler
remove_user_from_msg_queue h user = record h { msg_queue = put_back (stash user h.msg_queue []) [] }

module _ (s : Server) where
  -- `addMsgToMsgQueue`: 0 when the message was added; `none` is NULL.
  unfoldable pub add_msg_to_msg_queue : Handler → s.State → Option UserMsg → ℕ × Handler
  add_msg_to_msg_queue h st none = (1, h)
  add_msg_to_msg_queue h st (some msg) =
      if not (s.is_disconnecting st msg.user)
      then (0, record h { msg_queue = h.msg_queue ++ msg ∷ [] })
      else (1, h)

  -- `dispatchMessageHandler`; what `handleEntry` answers is replaced by 0.
  unfoldable pub dispatch_message_handler : s.State → UserMsg → Verdict × s.State
  dispatch_message_handler st msg =
      let type = msg.msg_type in
      let entry = s.handle_entry st msg in
      if type == 0x04
      then (user_remove, st)
      else (if type == 0x07
          then s.handle_entry_set_start st msg
          else (if type == 0x08
              then (user_ok, entry.1)
              else (if type == 0x09
                  then s.handle_entry_set_end st msg
                  else (if type == 0x23
                      then (user_force, st)
                      else (if type == 0x21
                          then s.handle_pong st msg
                          else (if type == 0x30
                              then s.handle_search_query st msg
                              else (if type == 0x43
                                  then s.handle_push_request st msg
                                  else (user_failed, st))))))))

  -- The part of a turn after a verdict that is not `NE_TH_USER_OK`.
  unfoldable pub disconnect : Handler → s.State → UserMsg → Bool → Handler × s.State
  disconnect h st msg normally =
      let st' = s.set_disconnecting st msg.user in
      (
        remove_user_from_msg_queue h msg.user,
        if normally then s.handle_disconnect st' msg else s.handle_forced_disconnect st' msg,
      )

  unfoldable pub after_verdict : Handler → UserMsg → Verdict × s.State → Handler × s.State
  after_verdict h msg (user_ok, st) = (h, st)
  after_verdict h msg (user_failed, st) = disconnect h st msg false
  after_verdict h msg (user_remove, st) = disconnect h st msg true
  after_verdict h msg (user_force, st) = disconnect h st msg false

  -- One turn of `commonMsgHandler` while the handler is running, with the lock: the first message is handled, and the life of its
  -- user is locked meanwhile.
  unfoldable pub take_turn : Handler → s.State → Handler × s.State
  take_turn h st = elim h.msg_queue [
    | [] ↦ (h, st)
    | msg ∷ rest ↦
        let verdict = dispatch_message_handler (s.lock_user_life st msg.user) msg in
        let (h', st') = after_verdict (record h { msg_queue = rest }) msg verdict in
        (h', s.unlock_user_life st' msg.user)
  ]
